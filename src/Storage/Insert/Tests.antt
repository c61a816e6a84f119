-- ===== src/Storage/Insert/Tests.antt =====
-- InsertBatch of internal/storage/sqlite.go into an old shard and a new one.
use grepod.Prelude.{
  ℕ, ◌*◌, ◌≡◌, ◌⊎◌, refl, true, false, none, some, List, [], ◌∷◌, ◌++◌, nat_beq, if◌then◌else◌,
  codes, Distinct,
}
use grepod.Storage.Line.{LogLine}
use grepod.Storage.Shards.{day_length}
use grepod.Storage.Insert.{
  table, Store, Faults, insert_batch, insert_groups, get_or_open_db, insert_group, group_of,
  create_table, migrate_legacy_schema, keep_handle, add_rows,
}
use grepod.Storage.Insert.Opened.{rows_of, IsReady}
use grepod.Storage.Insert.Atomic.{insert_batch_atomic, insert_batch_stores}

-- A line of a day.
abbrev line : ℕ → LogLine
line day = record {
  pod = codes "web";
  namespace = codes "default";
  container = codes "app";
  timestamp = day * day_length;
  level = [];
  content = codes "hello";
}

-- Day 5 has a table without the column, and day 6 has none.
abbrev before : Store
before = record {
  files = λ date. if nat_beq date 5 then some (table false (line 5 ∷ [])) else none;
  dbs = [];
}

before-IsReady : IsReady before
before-IsReady = record { ready = λ date c. absurd (cc) }

-- Every call succeeds, but a transaction for one day may not.
abbrev failing : ℕ → Faults
failing day = record {
  opens = λ date. true;
  inits = λ date. true;
  checks = λ date. true;
  drops = λ date. true;
  recreates = λ date. true;
  begins = λ date. true;
  prepares = λ date. true;
  executes = λ date l. true;
  commits = λ date. if nat_beq date day then false else true;
}

abbrev batch : List LogLine
batch = line 6 ∷ line 5 ∷ line 6 ∷ []

days-Distinct : Distinct (5 ∷ 6 ∷ [])
days-Distinct = (refl, (refl, tt))

insert_batch_atomic_example :
    (rows_of ((insert_batch (failing 6) false (5 ∷ 6 ∷ []) batch before).0.files 6)
      ≡ rows_of (before.files 6))
    ⊎ (rows_of ((insert_batch (failing 6) false (5 ∷ 6 ∷ []) batch before).0.files 6)
        ≡ rows_of (before.files 6) ++ group_of 6 batch)
insert_batch_atomic_example =
    insert_batch_atomic (failing 6) false (5 ∷ 6 ∷ []) batch before days-Distinct before-IsReady 6

no_error : (insert_batch (failing 7) false (5 ∷ 6 ∷ []) batch before).1 ≡ true
unfolding insert_batch insert_groups get_or_open_db insert_group create_table migrate_legacy_schema
    keep_handle add_rows
no_error = refl

insert_batch_stores_example :
    IsReady (insert_batch (failing 7) false (5 ∷ 6 ∷ []) batch before).0
    × ((date : ℕ)
        → rows_of ((insert_batch (failing 7) false (5 ∷ 6 ∷ []) batch before).0.files date)
          ≡ rows_of (before.files date) ++ group_of date batch)
insert_batch_stores_example =
    insert_batch_stores (failing 7) false (5 ∷ 6 ∷ []) batch before days-Distinct
      (refl, (refl, (refl, tt))) before-IsReady no_error
