-- ===== src/Storage/Retention.antt =====
-- internal/storage/sqlite.go: CleanupOldDBs and vacuumShard.
-- A shard file is named by its day in the model; `removes` says whether os.Remove of it succeeds. No
-- line is older than January 1 of year 1, so that the files of year 0 are none of the store's.
pub mod Expired
pub mod Names
pub mod Spared
pub mod Cron
mod Tests
use grepod.Prelude.{
  ℕ, ◌+◌, ◌*◌, Bool, true, false, Option, none, some, List, [], ◌∷◌, ltb, update, if◌then◌else◌,
  Text, codes, ◌++◌, not, ◌||◌, has_prefix, has_suffix, trim_prefix, trim_suffix, ◌>>=◌,
}
use grepod.Prelude.Int.{ℤ, pos, negsuc, is_positive, magnitude}
use grepod.Storage.Dates.Parse.{parse_date}
use grepod.Storage.Line.{Time}
use grepod.Storage.Shards.{day_length}
use grepod.Storage.Insert.{Store, Faults, get_or_open_db, close_shard}

pub record Entry : Type 0 where
  pub is_dir : Bool
  pub name : Text

-- The last element of dbPath.
unfoldable pub db_name : Text → Text
db_name date = codes "logs_" ++ date ++ codes ".db"

abbrev from_year_one : ℤ → Option ℕ
from_year_one (pos day) = some day
from_year_one (negsuc n) = none

-- The day of an entry that is a shard file.
unfoldable pub shard_day : Entry → Option ℕ
shard_day e =
    if e.is_dir || not (has_prefix e.name (codes "logs_")) || not (has_suffix e.name (codes ".db"))
    then none
    else parse_date (trim_suffix (trim_prefix e.name (codes "logs_")) (codes ".db"))
      >>= from_year_one

-- The entries that the loop does not skip.
unfoldable pub shard_days : List Entry → List ℕ
unfolding shard_day
shard_days [] = []
shard_days (e ∷ entries) = elim (shard_day e) [
  | none ↦ shard_days entries
  | some day ↦ day ∷ shard_days entries
]

abbrev pub retention_days : ℤ → ℕ
retention_days n = if is_positive n then magnitude n else 7

-- `date.Before(cutoff)`, where the cutoff is `days` days before `now`.
abbrev pub is_expired : Time → ℕ → ℕ → Bool
is_expired now days date = ltb (date * day_length + days * day_length) now

pub remove_file : (ℕ → Bool) → ℕ → Store → Store
remove_file removes date s =
    if removes date then record s { files = update s.files date none } else s

-- The loop over the entries: the store, and the days of the files that remain.
pub sweep : (ℕ → Bool) → Time → ℕ → List ℕ → Store → Store × List ℕ
unfolding remove_file
sweep removes now days [] s = (s, [])
sweep removes now days (date ∷ dates) s =
    let expired = sweep removes now days dates (remove_file removes date (close_shard date s)) in
    let (s', remaining) = sweep removes now days dates s in
    if is_expired now days date then expired else (s', date ∷ remaining)

-- PRAGMA vacuum changes no row; a failure is logged.
pub vacuum_shard : Faults → ℕ → Store → Store
vacuum_shard faults date s = (get_or_open_db faults date s).0

pub vacuum_all : Faults → List ℕ → Store → Store
vacuum_all faults [] s = s
vacuum_all faults (date ∷ dates) s = vacuum_all faults dates (vacuum_shard faults date s)

-- `entries` is what os.ReadDir answers; the pair says whether there was no error.
pub cleanup_old_dbs : Faults → (ℕ → Bool) → Option (List Entry) → Time → ℤ → Store → Store × Bool
cleanup_old_dbs faults removes none now n s = (s, false)
cleanup_old_dbs faults removes (some entries) now n s =
    let (s', remaining) = sweep removes now (retention_days n) (shard_days entries) s in
    (vacuum_all faults remaining s', true)
