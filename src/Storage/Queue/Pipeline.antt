-- ===== src/Storage/Queue/Pipeline.antt =====
-- The batch queue of internal/storage/queue.go over the store of internal/storage/sqlite.go: what
-- NewBatchQueue and flush wire together.
pub mod Stored
pub mod Fine
mod Tests
use grepod.Prelude.{ℕ, Bool, true, false, Option, List, not}
use grepod.Storage.Line.{LogLine}
use grepod.Storage.Insert.{Store, Faults, insert_batch}

-- q.store.InsertBatch as the queue calls it: the new store, and whether there was an error. `days` is
-- the order in which the days of a batch are taken.
pub store_insert : Faults → (List LogLine → List ℕ) → Option ℕ → List LogLine → Store → Store × Bool
store_insert faults days timeout lines s =
    let (s', ok) = insert_batch faults false (days lines) lines s in (s', not ok)
