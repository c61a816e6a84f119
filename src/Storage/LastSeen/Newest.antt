-- ===== src/Storage/LastSeen/Newest.antt =====
-- What LastSeen finds.
use grepod.Prelude.{
  ℕ, zero, suc, ◌+◌, ◌-◌, ◌≤◌, ◌<◌, ◌≡◌, sym, subst, inl, inr, true, false, Option, none, some,
  List, ltb, Text, All-weaken, ltb→lt, Bool-cases, nat_beq, Option-cases, arith, tests,
}
use grepod.Storage.Line.{LogLine, Time}
use grepod.Storage.Shards.{day_of}
use grepod.Storage.Insert.{File, no_table, table, Store}
use grepod.Storage.LastSeen.Largest.{Among}
use grepod.Storage.LastSeen.Shard.{all_rows, IsDated, Upto, Absent, Found, last_seen_in_shard-Found}
use grepod.Storage.LastSeen.{
  Seen, seen, never, failed, marker_lookback_days, is_of, last_seen_in_shard, last_seen_from,
  last_seen,
}

module _ (pod container : Text) where
  module _ (today : ℕ) (s : Store) where
    -- What an answer says of the last `n` days.
    unfoldable pub Verdict : ℕ → Seen → Type 0
    Verdict n (seen ts) =
        (l : LogLine) × (l.timestamp ≡ ts)
        × (is_of pod container l ≡ true)
        × Among l (all_rows (s.files (day_of ts)))
        × (day_of ts ≤ today)
        × ((d : ℕ) → d ≤ today → Upto pod container ts (all_rows (s.files d)))
    Verdict n never =
        (d : ℕ) → d ≤ today → today < d + n → Absent pod container (all_rows (s.files d))
    Verdict n failed = false ≡ true

  module _ (today : ℕ) (s : Store) (is_dated : (d : ℕ) → d ≤ today → IsDated d (s.files d))
      (in_range : today < 3_652_059) where
    -- No line of a day is later than a line of a later day.
    earlier-Upto :
        (ts : Time) (d : ℕ) (f : Option File)
        → d < day_of ts
        → IsDated d f
        → Upto pod container ts (all_rows f)
    unfolding IsDated all_rows Upto
    earlier-Upto ts d none h dated = tt
    earlier-Upto ts d (some no_table) h dated = tt
    earlier-Upto ts d (some (table has_level rows)) h dated =
        All-weaken (λ l e is_ours. omega (arith, e, h)) rows dated

    Absent-Upto :
        (ts : Time) (rows : List LogLine) → Absent pod container rows → Upto pod container ts rows
    unfolding Absent Upto
    Absent-Upto ts rows h = All-weaken (λ l e is_ours. absurd (ground (arith, e, is_ours))) rows h

    -- The round of a shard, when no later day has a line of the container.
    after_shard :
        (n d0 : ℕ) (rest r : Seen)
        → d0 ≤ today
        → ((d : ℕ) → d ≤ today → d0 < d → Absent pod container (all_rows (s.files d)))
        → Found pod container d0 (all_rows (s.files d0)) r
        → (Absent pod container (all_rows (s.files d0)) → Verdict today s n rest)
        → Verdict today s n (elim r [ seen ts ↦ seen ts | never ↦ rest | failed ↦ failed ])
    unfolding Found Verdict
    after_shard n d0 rest (seen ts) le later (l, e, ours, among, on_day, upto) k = (
      l,
      e,
      ours,
      subst (λ d. Among l (all_rows (s.files d))) (sym on_day) among,
      omega (arith, on_day, le),
      λ d h. elim (Bool-cases (ltb d d0)) [
        | inl before ↦ earlier-Upto ts d (s.files d) (omega (tests, before, on_day)) (is_dated d h)
        | inr after ↦ elim (Bool-cases (ltb d0 d)) [
          | inl behind ↦ Absent-Upto ts (all_rows (s.files d)) (later d h (ltb→lt d0 d behind))
          | inr same ↦
              subst (λ j. Upto pod container ts (all_rows (s.files j))) (omega (tests, after, same))
                upto
        ]
      ],
    )
    after_shard n d0 rest never le later absent k = k absent
    after_shard n d0 rest failed le later h k = cc

    last_seen_from-Verdict :
        (left i n : ℕ)
        → i + left ≡ n
        → ((d : ℕ) → d ≤ today → today < d + i → Absent pod container (all_rows (s.files d)))
        → Verdict today s n (last_seen_from (λ d. true) today pod container s left i)
    unfolding last_seen_from
    last_seen_from-Verdict zero i n e prior =
        unfold Verdict in (λ d h h'. prior d h (omega (arith, e, h')))
    last_seen_from-Verdict (suc left) i n e prior = elim (Bool-cases (ltb today i)) [
      | inl past ↦ rw past (
          last_seen_from-Verdict left (i + 1) n (omega (arith, e))
            (λ d h h'. prior d h (omega (tests, past))))
      | inr not_past ↦
          let d0 = today - i in
          let next : Absent pod container (all_rows (s.files d0))
              → Verdict today s n (last_seen_from (λ d. true) today pod container s left (i + 1)) =
            λ absent. last_seen_from-Verdict left (i + 1) n (omega (arith, e)) (λ d h h'.
              elim (Bool-cases (nat_beq d d0)) [
                | inl same ↦
                    subst (λ j. Absent pod container (all_rows (s.files j))) (ground (arith, same))
                      absent
                | inr other ↦ prior d h (ground (arith, other, h, h', not_past))
              ]) in
          elim (Option-cases (s.files d0)) [
            | inl missing ↦
                rw (not_past, missing)
                  (next (
                    subst (λ f. Absent pod container (all_rows f)) (sym missing)
                      (unfold Absent all_rows in tt)))
            | inr (f, found) ↦
                rw (not_past, found)
                  (after_shard n d0 _ (last_seen_in_shard true pod container f) (omega arith)
                    (λ d h h'. prior d h (omega (tests, not_past)))
                    (subst
                      (λ g.
                        Found pod container d0 (all_rows g)
                          (last_seen_in_shard true pod container f))
                      (sym found)
                      (last_seen_in_shard-Found pod container d0 f (omega (arith, in_range))
                        (subst (IsDated d0) found (is_dated d0 (omega arith)))))
                    next)
          ]
    ]

  -- LastSeen at a time before the year 10000, where SQLite answers, and each shard file up to today has
  -- the table and only rows of its day: there is no error. A timestamp that is returned is that of a
  -- stored line of the container, and no stored line of the container, of any day up to today, is of a
  -- later second. Where none is returned, no shard of the last 30 days has a line of the container.
  pub last_seen_lem :
      (now : Time) (s : Store) (is_dated : (d : ℕ) → d ≤ day_of now → IsDated d (s.files d))
      (in_range : day_of now < 3_652_059)
      → Verdict (day_of now) s marker_lookback_days (last_seen (λ d. true) now pod container s)
  unfolding last_seen
  last_seen_lem now s is_dated in_range =
      last_seen_from-Verdict (day_of now) s is_dated in_range marker_lookback_days 0
        marker_lookback_days (omega arith) (λ d h h'. absurd (omega (arith, h, h')))
