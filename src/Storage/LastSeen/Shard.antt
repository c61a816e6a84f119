-- ===== src/Storage/LastSeen/Shard.antt =====
-- What lastSeenInShard finds.
use grepod.Prelude.{
  ℕ, ◌/◌, ◌≤◌, ◌<◌, ◌≡◌, refl, ap, sym, subst, ◌∙◌, inl, inr, true, false, Option, none, some, List,
  [], keep, ltb, Text, text_ltb, All, All-weaken, All-zip, ltb→lt, Bool-cases, arith, tests,
}
use grepod.Storage.Line.{LogLine, Time}
use grepod.Storage.Shards.{day_of}
use grepod.Storage.Times.{second, format_time, parse_time}
use grepod.Storage.Times.Order.{format_time-order}
use grepod.Storage.Times.RoundTrip.{parse_time-format_time}
use grepod.Storage.Insert.{File, no_table, table}
use grepod.Storage.LastSeen.Largest.{
  Among, Among-All, keep-none, Among-keep, All-of_keep, Largest, max_text-Largest,
}
use grepod.Storage.LastSeen.{
  Seen, seen, never, failed, is_of, max_text, seen_raw, stamps, last_seen_in_shard,
}

-- The rows of a shard file.
unfoldable pub all_rows : Option File → List LogLine
all_rows (some (table has_level rows)) = rows
all_rows _ = []

-- A shard file with the table, whose rows are of its day.
unfoldable pub IsDated : ℕ → Option File → Type 0
IsDated d none = Unit
IsDated d (some no_table) = false ≡ true
IsDated d (some (table has_level rows)) = All (λ l. day_of l.timestamp ≡ d) rows

module _ (pod container : Text) where
  -- No line of a second behind that of the time.
  unfoldable pub Upto : Time → List LogLine → Type 0
  Upto ts rows = All (λ l. is_of pod container l ≡ true → l.timestamp / second ≤ ts / second) rows

  unfoldable pub Absent : List LogLine → Type 0
  Absent rows = All (λ l. is_of pod container l ≡ false) rows

  unfoldable pub Found : ℕ → List LogLine → Seen → Type 0
  Found d rows (seen ts) =
      (l : LogLine) × (l.timestamp ≡ ts)
      × (is_of pod container l ≡ true)
      × Among l rows
      × (day_of ts ≡ d)
      × Upto ts rows
  Found d rows never = Absent rows
  Found d rows failed = false ≡ true

  -- A line whose text is not larger is of no later second.
  pub no_later :
      (d : ℕ) (t u : Time)
      → day_of t ≡ d
      → day_of u ≡ d
      → text_ltb (format_time t) (format_time u) ≡ false
      → u / second ≤ t / second
  no_later d t u e e' below = elim (Bool-cases (ltb (t / second) (u / second))) [
    | inl h ↦ absurd (ground (arith, below, format_time-order t u (e ∙ sym e') (ltb→lt _ _ h)))
    | inr h ↦ omega (tests, h)
  ]

  seen_raw-seen :
      (raw : Text) (ts : Time) → parse_time raw ≡ some ts → seen_raw (some raw) ≡ seen ts
  unfolding seen_raw
  seen_raw-seen raw ts h = rw (h, seen_raw) refl

  seen_raw-Found :
      (d : ℕ) (rows : List LogLine) (o : Option Text)
      → d < 3_652_059
      → All (λ l. day_of l.timestamp ≡ d) rows
      → Largest (keep (is_of pod container) rows) o
      → Found d rows (seen_raw o)
  unfolding seen_raw Found Absent
  seen_raw-Found d rows none h dated e = keep-none (is_of pod container) rows e
  seen_raw-Found d rows (some raw) h dated (l, e, among, all) =
      let (there, ours) = Among-keep (is_of pod container) l rows among in
      let on_day : day_of l.timestamp ≡ d =
        Among-All (λ k. day_of k.timestamp ≡ d) l rows there dated in
      let parsed : parse_time raw ≡ some l.timestamp =
        ap parse_time e ∙ parse_time-format_time l.timestamp (omega (arith, on_day)) in
      let not_above =
        All-of_keep (is_of pod container) (λ k. text_ltb raw (format_time k.timestamp) ≡ false) rows
          all in
      subst (Found d rows) (sym (seen_raw-seen raw l.timestamp parsed)) (
        unfold Found Upto in
        (
          l,
          refl,
          ours,
          there,
          on_day,
          All-weaken
              (λ k both is_ours.
                no_later d l.timestamp k.timestamp on_day both.0
                  (subst (λ t. text_ltb t (format_time k.timestamp) ≡ false) e (both.1 is_ours)))
              rows (All-zip _ _ rows dated not_above),
        ))

  pub last_seen_in_shard-Found :
      (d : ℕ) (f : File)
      → d < 3_652_059
      → IsDated d (some f)
      → Found d (all_rows (some f)) (last_seen_in_shard true pod container f)
  unfolding last_seen_in_shard IsDated all_rows
  last_seen_in_shard-Found d no_table h dated = cc
  last_seen_in_shard-Found d (table has_level rows) h dated =
      seen_raw-Found d rows (max_text (stamps pod container rows)) h dated
        (max_text-Largest (keep (is_of pod container) rows))
