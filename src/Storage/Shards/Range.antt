-- ===== src/Storage/Shards/Range.antt =====
-- Which shards a range of dates reads.
use grepod.Prelude.{
  ℕ, subst, ◌%◌, zero, suc, ◌+◌, ◌-◌, ◌*◌, ◌/◌, ◌≤◌, ◌<◌, ◌≡◌, refl, Bool, List, [], ◌∷◌, length,
  drop, length-drop, ltb, keep, arith, lt→ltb, le→ltb, inl, inr, Bool-cases, tests,
}
use grepod.Storage.Line.{Time}
use grepod.Storage.Shards.{
  day_length, day_of, max_attached_shards, shard_dates, enough, existing_shard_dates,
}

-- `n` days from `d` on.
abbrev pub days_from : ℕ → ℕ → List ℕ
days_from d zero = []
days_from d (suc n) = d ∷ days_from (suc d) n

-- Rounds past the end find nothing, and a round before it looks at the next day. Each round is at the
-- time `r` of its day, which the end is not before.
shard_dates-days :
    (fuel n : ℕ) (exists : ℕ → Bool) (d r : ℕ) (end : Time)
    → d + n ≡ day_of end + 1
    → n < fuel
    → r ≤ end % day_length
    → shard_dates fuel exists (d * day_length + r) end ≡ keep exists (days_from d n)
unfolding shard_dates
shard_dates-days zero n exists d r end e h h' = absurd (omega arith)
shard_dates-days (suc fuel) zero exists d r end e h h' =
    rw (lt→ltb end (d * day_length + r) (omega arith))
shard_dates-days (suc fuel) (suc n) exists d r end e h h' =
    let here : (d * day_length + r) / day_length ≡ d = omega arith in
    let next : d * day_length + r + day_length ≡ suc d * day_length + r = omega arith in
    rw (
      le→ltb end (d * day_length + r) (omega arith),
      here,
      next,
      shard_dates-days fuel n exists (suc d) r end (omega arith) (omega arith) h',
    )

-- Between two dates, where the time of day of the start is not behind that of the end.
pub existing_shard_dates_at :
    (exists : ℕ → Bool) (d r : ℕ) (end : Time)
    → d ≤ day_of end
    → r ≤ end % day_length
    → let shards = keep exists (days_from d (day_of end + 1 - d)) in
      ((existing_shard_dates exists (d * day_length + r) end).0
        ≡ drop (length shards - max_attached_shards) shards)
      × ((existing_shard_dates exists (d * day_length + r) end).1
          ≡ ltb max_attached_shards (length shards))
      × (length (existing_shard_dates exists (d * day_length + r) end).0 ≤ max_attached_shards)
unfolding existing_shard_dates
existing_shard_dates_at exists d r end h h' =
    let shards = keep exists (days_from d (day_of end + 1 - d)) in
    rw
      (shard_dates-days (enough end) (day_of end + 1 - d) exists d r end (omega arith) (omega arith)
        h')
      (elim (Bool-cases (ltb max_attached_shards (length shards))) [
        | inl many ↦
            rw many
              (refl, refl, omega (tests, length-drop (length shards - max_attached_shards) shards))
        | inr few ↦
            let none_over : length shards - max_attached_shards ≡ 0 = omega tests in
            rw (few, none_over) (refl, refl, omega tests)
      ])

-- Between two dates, the start at midnight and not behind the end: the dates returned are those of
-- the range that have a shard, the oldest first; or, when these are more than ten, the ten most
-- recent of them, and only then the flag is set. The loop always comes to its end.
pub existing_shard_dates_lem :
    (exists : ℕ → Bool) (d : ℕ) (end : Time)
    → d ≤ day_of end
    → let shards = keep exists (days_from d (day_of end + 1 - d)) in
      ((existing_shard_dates exists (d * day_length) end).0
        ≡ drop (length shards - max_attached_shards) shards)
      × ((existing_shard_dates exists (d * day_length) end).1
          ≡ ltb max_attached_shards (length shards))
      × (length (existing_shard_dates exists (d * day_length) end).0 ≤ max_attached_shards)
existing_shard_dates_lem exists d end h =
    let at : d * day_length + 0 ≡ d * day_length = omega arith in
    subst
      (λ start.
        let shards = keep exists (days_from d (day_of end + 1 - d)) in
        ((existing_shard_dates exists start end).0
          ≡ drop (length shards - max_attached_shards) shards)
        × ((existing_shard_dates exists start end).1 ≡ ltb max_attached_shards (length shards))
        × (length (existing_shard_dates exists start end).0 ≤ max_attached_shards))
      at (existing_shard_dates_at exists d 0 end h (omega arith))
