-- ===== src/Api/Known/Recent.antt =====
-- The days that handleKnown looks at.
use grepod.Prelude.{
  ℕ, suc, ◌+◌, ◌-◌, ◌*◌, ◌%◌, ◌≤◌, ◌<◌, ◌^◌, ◌≡◌, refl, ap, sym, ◌∙◌, subst, inl, inr, ◌⊎◌, Bool,
  true, some, List, [], length, drop, keep, Text, codes, arith,
}
use grepod.Prelude.Int.{pos}
use grepod.Prelude.Decimal.{format_int, parse_int-format_int, is_empty-format_int}
use grepod.Storage.Line.{Time}
use grepod.Storage.Shards.{day_length, day_of, max_attached_shards, existing_shard_dates}
use grepod.Storage.Shards.Range.{days_from, existing_shard_dates_at}
use grepod.Storage.Known.{KnownFilters, KnownEngine, known_pods}
use grepod.Storage.Known.Listed.{FiltersOf, all_origins, known_pods_lem}
use grepod.Api.{write_json}
use grepod.Api.Known.{days_of, days_ago, answer, handle_known}

-- A text that asks for so many days: none at all, for one, or a number.
abbrev pub Asks : ℕ → Text → Type 0
Asks n raw = ((raw ≡ []) × (n ≡ 1)) ⊎ (raw ≡ format_int (pos n))

days_of-Asks : (n : ℕ) (raw : Text) → Asks (suc n) raw → suc n < 2 ^ 63 → days_of raw ≡ some (suc n)
unfolding days_of
days_of-Asks n raw (inl (e, one)) h = rw e (ap some (sym one))
days_of-Asks n raw (inr e) h =
    rw (e, is_empty-format_int (pos (suc n)), parse_int-format_int (pos (suc n)) h) refl

days_ago-recent :
    (n : ℕ) (now : Time)
    → n ≤ day_of now
    → days_ago n now ≡ (day_of now - n) * day_length + now % day_length
unfolding days_ago
days_ago-recent n now h = ground arith

-- The ten most recent of some dates.
abbrev pub newest : List ℕ → List ℕ
newest dates = drop (length dates - max_attached_shards) dates

recent_dates :
    (exists : ℕ → Bool) (n : ℕ) (now : Time)
    → n ≤ day_of now
    → (existing_shard_dates exists (days_ago (suc n - 1) now) now).0
      ≡ newest (keep exists (days_from (day_of now - n) (suc n)))
recent_dates exists n now h =
    let start : days_ago (suc n - 1) now ≡ (day_of now - n) * day_length + now % day_length =
      ap (λ k. days_ago k now) (omega arith) ∙ days_ago-recent n now h in
    let count : day_of now + 1 - (day_of now - n) ≡ suc n = omega (arith, h) in
    ap (λ t. (existing_shard_dates exists t now).0) start
    ∙ ((existing_shard_dates_at exists (day_of now - n) (now % day_length) now (omega arith)
          (omega arith)).0
        ∙ ap (λ k. newest (keep exists (days_from (day_of now - n) k))) count)

handle_known-days :
    (engine : KnownEngine) (reason : Text) (now : Time) (get : Text → Text) (days : ℕ)
    → days_of (get (codes "days")) ≡ some days
    → handle_known engine reason now get
      ≡ answer reason (known_pods engine (days_ago (days - 1) now) now)
unfolding handle_known
handle_known-days engine reason now get days e = rw (e, handle_known) refl

-- Where SQLite works, and the days asked for are a positive int64 and do not reach behind the first day
-- of year 1: handleKnown answers 200 with exactly the pods and containers of the shards that exist and
-- can be attached of so many days up to today, of the ten most recent ones if there are more. A
-- request that names no days asks for one.
pub handle_known_lem :
    (engine : KnownEngine) (reason : Text) (now : Time) (get : Text → Text) (n : ℕ)
    → engine.opens ≡ true
    → engine.answers ≡ true
    → Asks (suc n) (get (codes "days"))
    → suc n < 2 ^ 63
    → n ≤ day_of now
    → let recent = newest (keep engine.exists (days_from (day_of now - n) (suc n))) in
      (filters : KnownFilters) × (handle_known engine reason now get ≡ write_json 200 filters)
      × FiltersOf (all_origins engine.origins (keep engine.attaches recent)) filters
handle_known_lem engine reason now get n opens answers asks h h' =
    let since = days_ago (suc n - 1) now in
    let (filters, e, listed) = known_pods_lem engine since now opens answers in
    (
      filters,
      handle_known-days engine reason now get (suc n) (days_of-Asks n (get (codes "days")) asks h)
          ∙ ap (answer reason) e,
      subst (λ dates. FiltersOf (all_origins engine.origins (keep engine.attaches dates)) filters)
          (recent_dates engine.exists n now h') listed,
    )
