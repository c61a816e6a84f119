-- ===== src/Storage/Queue/Pipeline/Tests.antt =====
-- Two lines of two days, from the queue into their shards.
use grepod.Prelude.{ℕ, ◌≡◌, ◌≢◌, refl, Bool, true, Option, none, some, List, [], ◌∷◌, ◌++◌}
use grepod.Prelude.Int.{pos}
use grepod.Storage.Line.{LogLine}
use grepod.Storage.Insert.{Store, group_of}
use grepod.Storage.Insert.Opened.{rows_of}
use grepod.Storage.Queue.{
  BatchQueue, Event, offers, receives, shuts, closes, drains, run, step, receive, drain, enqueue,
  close, shut, flush, new_batch_queue, has_room, stopped,
}
use grepod.Storage.Queue.Given.{accepted}
use grepod.Storage.Queue.Pipeline.{store_insert}
use grepod.Storage.Queue.Pipeline.Fine.{
  all_fine, all_fine-NoFaults, days_in, days_in-Distinct, days_in_covers, line, empty_store,
}
use grepod.Storage.Queue.Pipeline.Stored.{accepted_stored}

abbrev insert : Option ℕ → List LogLine → Store → Store × Bool
insert = store_insert all_fine days_in

abbrev got : BatchQueue Store → Option (BatchQueue Store) → BatchQueue Store
got q none = q
got q (some q') = q'

abbrev fresh : BatchQueue Store
fresh = new_batch_queue empty_store (pos 2) (pos 0) (pos 0) none

abbrev offering : List Event
offering = offers (line 5) 1 true ∷ receives 5 ∷ offers (line 6) 2 true ∷ []

abbrev middle : BatchQueue Store
middle = got fresh (run insert offering fresh)

abbrev closing : List Event
closing = closes ∷ shuts ∷ drains 5 ∷ drains 5 ∷ []

abbrev final : BatchQueue Store
final = got middle (run insert closing middle)

run-offering : run insert offering fresh ≡ some middle
unfolding run step receive drain enqueue close shut flush new_batch_queue has_room
run-offering = refl

middle_live : middle.phase ≢ stopped
unfolding run step receive drain enqueue close shut flush new_batch_queue has_room
middle_live e = cc

run-closing : run insert closing middle ≡ some final
unfolding run step receive drain enqueue close shut flush new_batch_queue has_room
run-closing = refl

final_stopped : final.phase ≡ stopped
unfolding run step receive drain enqueue close shut flush new_batch_queue has_room
final_stopped = refl

accepted_stored_example :
    rows_of (final.store.files 6)
    ≡ rows_of (empty_store.files 6) ++ group_of 6 (accepted insert offering fresh)
accepted_stored_example =
    accepted_stored all_fine days_in all_fine-NoFaults
      (record { once = days_in-Distinct; covers = days_in_covers }) empty_store (pos 2) (pos 0)
      (pos 0) none offering closing middle final (record { ready = λ date c. absurd (cc) })
      run-offering middle_live (tt, (tt, (tt, (tt, tt)))) run-closing final_stopped 6
