-- ===== src/Storage/Shards.antt =====
-- internal/storage/sqlite.go: existingShardDates. A date stands for its day, the number of days since
-- Go's zero time, in UTC: Format writes different days differently, and AddDate adds whole days.
pub mod Range
use grepod.Prelude.{
  ℕ, zero, suc, ◌+◌, ◌-◌, ◌*◌, ◌/◌, Bool, true, false, List, [], ◌∷◌, length, drop, ltb,
  if◌then◌else◌,
}
use grepod.Storage.Line.{Time}

abbrev pub day_length : ℕ
day_length = 86_400_000_000_000

-- t.Format(dateLayout)
abbrev pub day_of : Time → ℕ
day_of t = t / day_length

abbrev pub max_attached_shards : ℕ
max_attached_shards = 10

-- The loop from `d` to `end`, one day a round; `exists` is what os.Stat says of the file of a day.
unfoldable pub shard_dates : ℕ → (ℕ → Bool) → Time → Time → List ℕ
shard_dates zero exists d end = []
shard_dates (suc fuel) exists d end =
    let rest = shard_dates fuel exists (d + day_length) end in
    let found = if exists (day_of d) then day_of d ∷ rest else rest in
    if ltb end d then [] else found

-- More rounds than there are days up to the end.
abbrev pub enough : Time → ℕ
enough end = day_of end + 2

-- The dates, and whether some were dropped.
unfoldable pub existing_shard_dates : (ℕ → Bool) → Time → Time → List ℕ × Bool
unfolding shard_dates
existing_shard_dates exists start end =
    let dates = shard_dates (enough end) exists start end in
    if ltb max_attached_shards (length dates)
    then (drop (length dates - max_attached_shards) dates, true)
    else (dates, false)
