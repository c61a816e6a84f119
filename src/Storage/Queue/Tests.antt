-- ===== src/Storage/Queue/Tests.antt =====
-- Runs of the batch queue of internal/storage/queue.go on concrete schedules.
use grepod.Prelude.{
  ℕ, ◌+◌, ◌*◌, ◌≤◌, ◌<◌, ◌≢◌, ◌⊎◌, ◌≡◌, refl, Bool, true, false, Option, none, some, List, [], ◌∷◌,
  ◌++◌, codes, length, map, arith,
}
use grepod.Prelude.Int.{pos}
use grepod.Storage.Line.{LogLine}
use grepod.Storage.Queue.{
  BatchQueue, new_batch_queue, Event, offers, receives, drains, shuts, closes, run, step, flush,
  receive, shut, drain, enqueue, close, has_room, record_drop, running, stopped, second,
}
use grepod.Storage.Queue.Given.{accepted, insert_all, timeout_of}
use grepod.Storage.Queue.Conserve.{run_conserves}
use mathlib.Core.List.{flatten}
use grepod.Storage.Queue.Owner.{Work, received, ticked, drained, case_of}
use grepod.Storage.Queue.Closing.{close_ends}
use grepod.Storage.Queue.Shutdown.{close_loses_none}
use grepod.Storage.Queue.Bounds.{batch_size, run-IsBounded}
use grepod.Storage.Queue.Drops.{reported, offered_in, drops_counted, drops_accounted}

-- A store that keeps its batches, the newest last, and never fails.
abbrev keeps : Option ℕ → List LogLine → List (List LogLine) → List (List LogLine) × Bool
keeps timeout batch store = (store ++ batch ∷ [], false)

abbrev line : ℕ → LogLine
line n = record {
  pod = codes "web";
  namespace = codes "default";
  container = codes "app";
  timestamp = n;
  level = [];
  content = codes "hello";
}

abbrev fresh : BatchQueue (List (List LogLine))
fresh = new_batch_queue [] (pos 2) (pos 0) (pos 0) none

abbrev schedule : List Event
schedule =
    offers (line 1) 1 true
    ∷ offers (line 2) 2 true
    ∷ receives 5
    ∷ receives 5
    ∷ offers (line 3) 3 true
    ∷ closes
    ∷ shuts
    ∷ drains 5
    ∷ drains 5
    ∷ []

abbrev final : BatchQueue (List (List LogLine))
final = record {
  buf = [];
  size = 2;
  interval = 15 * second;
  insert_timeout = 30 * second;
  store = (line 1 ∷ line 2 ∷ []) ∷ (line 3 ∷ []) ∷ [];
  input = [];
  done = true;
  phase = stopped;
  metrics = none;
  dropped = 0;
  last_warned_at = 0;
  warnings = [];
}

run-schedule : run keeps schedule fresh ≡ some final
unfolding run step receive drain enqueue close shut flush new_batch_queue has_room
run-schedule = refl

run_conserves_example :
    (batches : List (List LogLine)) × (final.store ≡ insert_all keeps (timeout_of fresh) batches [])
    × (flatten batches ++ (final.buf ++ final.input) ≡ accepted keeps schedule fresh)
run_conserves_example =
    run_conserves keeps [] (pos 2) (pos 0) (pos 0) none schedule final run-schedule

run-IsBounded_example :
    (final.size ≡ batch_size (pos 2))
    × (length final.input ≤ batch_size (pos 2) * 4)
    × ((final.phase ≢ running) ⊎ (length final.buf < batch_size (pos 2)))
run-IsBounded_example =
    run-IsBounded keeps [] (pos 2) (pos 0) (pos 0) none schedule final run-schedule

-- A queue that holds one line, with another in its channel.
abbrev waiting : BatchQueue (List (List LogLine))
waiting = record final {
  buf = line 1 ∷ [];
  store = [];
  input = line 2 ∷ [];
  done = false;
  phase = running;
}

-- The select takes a line behind Close before it sees that the queue is closed.
abbrev before : List Work
before = received 5 ∷ ticked 5 ∷ []

abbrev after : List Work
after = drained 5 ∷ drained 5 ∷ []

close_ends_example :
    (q' : BatchQueue (List (List LogLine))) × (run keeps
        (closes ∷ (map case_of before ++ (shuts ∷ map case_of after)))
        waiting
      ≡ some q')
    × (q'.phase ≡ stopped)
    × (q'.input ≡ [])
    × (q'.buf ≡ [])
    × ((batches : List (List LogLine)) × (q'.store
          ≡ insert_all keeps (timeout_of waiting) batches waiting.store)
        × (flatten batches ≡ waiting.buf ++ waiting.input))
close_ends_example = close_ends keeps before after waiting refl refl (omega arith)

abbrev offering : List Event
offering = offers (line 1) 1 true ∷ receives 5 ∷ offers (line 2) 2 true ∷ []

abbrev closing : List Event
closing = closes ∷ shuts ∷ drains 5 ∷ drains 5 ∷ []

abbrev ended : BatchQueue (List (List LogLine))
ended = record final { store = (line 1 ∷ line 2 ∷ []) ∷ [] }

run-offering : run keeps offering fresh ≡ some waiting
unfolding run step receive drain enqueue close shut flush new_batch_queue has_room
run-offering = refl

run-closing : run keeps closing waiting ≡ some ended
unfolding run step receive drain enqueue close shut flush new_batch_queue has_room
run-closing = refl

close_loses_none_example :
    (batches : List (List LogLine)) × (ended.store ≡ insert_all keeps (timeout_of fresh) batches [])
    × (flatten batches ≡ accepted keeps offering fresh)
    × (ended.input ≡ [])
    × (ended.buf ≡ [])
close_loses_none_example =
    close_loses_none keeps [] (pos 2) (pos 0) (pos 0) none offering closing waiting ended
      run-offering (λ e. cc) (tt, (tt, (tt, (tt, tt)))) run-closing refl

-- Five lines for a channel of four, then one more in the window of the first warning and one behind.
abbrev crowd : List Event
crowd =
    offers (line 1) 1 true
    ∷ offers (line 2) 1 true
    ∷ offers (line 3) 1 true
    ∷ offers (line 4) 1 true
    ∷ offers (line 5) 1 true
    ∷ offers (line 6) 2 true
    ∷ offers (line 7) (6 * second) true
    ∷ []

abbrev crowded : BatchQueue (List (List LogLine))
crowded = record {
  buf = [];
  size = 1;
  interval = 15 * second;
  insert_timeout = 30 * second;
  store = [];
  input = line 1 ∷ line 2 ∷ line 3 ∷ line 4 ∷ [];
  done = false;
  phase = running;
  metrics = none;
  dropped = 0;
  last_warned_at = 6 * second;
  warnings = record { at = 6 * second; count = 2 } ∷ record { at = 1; count = 1 } ∷ [];
}

run-crowd : run keeps crowd (new_batch_queue [] (pos 1) (pos 0) (pos 0) none) ≡ some crowded
unfolding run step receive drain enqueue close shut flush new_batch_queue has_room record_drop
run-crowd = refl

drops_accounted_example :
    (length (accepted keeps crowd (new_batch_queue [] (pos 1) (pos 0) (pos 0) none))
        + (reported crowded.warnings + crowded.dropped)
      ≡ offered_in crowd)
    × (drops_counted crowded.metrics (reported crowded.warnings + crowded.dropped)
        ≡ drops_counted none 0 + (reported crowded.warnings + crowded.dropped))
drops_accounted_example =
    drops_accounted keeps [] (pos 1) (pos 0) (pos 0) none crowd crowded run-crowd
