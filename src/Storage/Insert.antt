-- ===== src/Storage/Insert.antt =====
-- internal/storage/sqlite.go: getOrOpenDB, migrateLegacySchema, InsertBatch, insertGroup, closeShard
-- and Close, over the shard files.
-- A file is named by its day. What SQLite does with a statement is an argument: `Faults` says of each
-- call whether it succeeds. The order in which Go ranges over a map is an argument too.
pub mod Opened
pub mod Groups
pub mod Atomic
pub mod Works
mod Tests
use grepod.Prelude.{
  ℕ, ◌≡◌, refl, Bool, true, false, Option, none, some, List, [], ◌∷◌, ◌++◌, contains, remove,
  update, keep, nat_beq, if◌then◌else◌, not, ◌&&◌,
}
use grepod.Prelude.Maps.{lookup, insert}
use grepod.Storage.Line.{LogLine}
use grepod.Storage.Shards.{day_of}

-- A shard file: without a table, or with the table `fts`, with or without the column `level`.
pub data File : Type 0 where
  no_table : File
  table : Bool → List LogLine → File

pub record Store : Type 0 where
  pub files : ℕ → Option File
  pub dbs : List ℕ

pub record Faults : Type 0 where
  pub opens : ℕ → Bool
  pub inits : ℕ → Bool
  pub checks : ℕ → Bool
  pub drops : ℕ → Bool
  pub recreates : ℕ → Bool
  pub begins : ℕ → Bool
  pub prepares : ℕ → Bool
  pub executes : ℕ → LogLine → Bool
  pub commits : ℕ → Bool

-- CREATE VIRTUAL TABLE IF NOT EXISTS: an existing table stays as it is.
pub create_table : Option File → File
create_table none = table true []
create_table (some no_table) = table true []
create_table (some (table has_level rows)) = table has_level rows

abbrev pub set_file : ℕ → File → Store → Store
set_file date f s = record s { files = update s.files date (some f) }

-- The migrated file, and whether there was no error.
pub migrate_legacy_schema : Faults → ℕ → File → File × Bool
migrate_legacy_schema faults date no_table = (no_table, false)
migrate_legacy_schema faults date (table has_level rows) =
    if not (faults.checks date)
    then (table has_level rows, false)
    else if has_level
    then (table has_level rows, true)
    else if not (faults.drops date)
    then (table has_level rows, false)
    else if not (faults.recreates date)
    then (no_table, false)
    else (table true [], true)

-- A handle is kept only if there was no error.
pub keep_handle : ℕ → File × Bool → Store → Store × Bool
keep_handle date (f, true) s =
    (record s { files = update s.files date (some f); dbs = date ∷ s.dbs }, true)
keep_handle date (f, false) s = (set_file date f s, false)

pub get_or_open_db : Faults → ℕ → Store → Store × Bool
unfolding create_table migrate_legacy_schema keep_handle
get_or_open_db faults date s =
    if contains s.dbs date
    then (s, true)
    else if not (faults.opens date)
    then (s, false)
    else if not (faults.inits date)
    then (s, false)
    else keep_handle date (migrate_legacy_schema faults date (create_table (s.files date))) s

unfoldable pub close_shard : ℕ → Store → Store
close_shard date s = record s { dbs = remove date s.dbs }

pub close_all : Store → Store
close_all s = record s { dbs = [] }

abbrev pub all_execute : Faults → ℕ → List LogLine → Bool
all_execute faults date [] = true
all_execute faults date (l ∷ ls) = faults.executes date l && all_execute faults date ls

pub add_rows : List LogLine → Option File → Option File
add_rows ls (some (table has_level rows)) = some (table has_level (rows ++ ls))
add_rows ls f = f

-- One transaction: an error rolls it back.
pub insert_group : Faults → ℕ → List LogLine → Store → Store × Bool
unfolding add_rows
insert_group faults date lines s =
    if faults.begins date
      && faults.prepares date
      && all_execute faults date lines
      && faults.commits date
    then (record s { files = update s.files date (add_rows lines (s.files date)) }, true)
    else (s, false)

-- The lines of a day, in order, as `byDate[d]` holds them.
abbrev pub group_of : ℕ → List LogLine → List LogLine
group_of date lines = keep (λ l. nat_beq (day_of l.timestamp) date) lines

-- `if err != nil { return err }` behind a call.
abbrev pub and_then : Store × Bool → (Store → Store × Bool) → Store × Bool
and_then (s, true) next = next s
and_then (s, false) next = (s, false)

-- The loop over the days, in the order of the map; the first error ends it.
pub insert_groups : Faults → List LogLine → List ℕ → Store → Store × Bool
insert_groups faults lines [] s = (s, true)
insert_groups faults lines (date ∷ dates) s = and_then (get_or_open_db faults date s) (λ opened.
    and_then (insert_group faults date (group_of date lines) opened)
      (λ inserted. insert_groups faults lines dates inserted))

-- `cancelled` is ctx.Err() at the start, and `dates` the keys of `byDate` in the order of its range.
pub insert_batch : Faults → Bool → List ℕ → List LogLine → Store → Store × Bool
insert_batch faults cancelled dates [] s = (s, true)
insert_batch faults cancelled dates (l ∷ ls) s =
    if cancelled then (s, false) else insert_groups faults (l ∷ ls) dates s
