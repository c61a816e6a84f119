-- ===== src/Server/Shutdown/Tests.antt =====
-- A process that tails one container, and is told to stop.
use grepod.Prelude.{◌≡◌, ◌⊎◌, true, false, Option, none, some, List, [], ◌∷◌, ◌++◌, codes, refl}
use grepod.Prelude.Int.{pos}
use grepod.Storage.Insert.{Store, group_of, close_all}
use grepod.Storage.Insert.Opened.{rows_of}
use grepod.Storage.Queue.{stopped, step, step_at, close, shut, drain, new_batch_queue}
use grepod.Storage.Queue.Owner.{received, drained, shut_down}
use grepod.Storage.Queue.Pipeline.{store_insert}
use grepod.Storage.Queue.Pipeline.Fine.{
  all_fine, all_fine-NoFaults, days_in, days_in-Distinct, days_in_covers, line, empty_store,
}
use grepod.Tailer.Manager.{Pod}
use grepod.Tailer.Run.{
  new_run, run_step, go_on, register, sync, adds, pod_obj, registers, notices, syncs, goes_on,
  exits,
}
use grepod.Server.Shutdown.{
  clean_store, accepted_in, Stage, ended, happen, main_step, manage, Process, Happening, main_goes,
  manages, tails, works, new_process, happen_all,
}
use grepod.Server.Shutdown.Known.{queue_closed}
use grepod.Server.Shutdown.Lines.{Spares}
use grepod.Storage.Retention.Cron.{Cleanup}
use grepod.Prelude.{All, arith}
use grepod.Server.Shutdown.Reaches.{shutdown_ends}
use grepod.Server.Shutdown.Stores.{SparesDay, shutdown_stores}

abbrev web : Pod
web = record {
  name = codes "web";
  init_container_statuses = [];
  container_statuses = record { name = codes "app"; restart_count = 0 } ∷ [];
}

-- A cleanup that finds an old file.
abbrev cleanup : Cleanup
cleanup = record {
  late = 0;
  took = 0;
  faults = all_fine;
  removes = λ date. true;
  entries = some (record { is_dir = false; name = codes "logs_2024-01-02.db" } ∷ []);
}

-- The manager starts, the container's tailer ingests two lines, and the signal comes.
abbrev schedule : List Happening
schedule =
    manages (registers true)
    ∷ manages (notices (adds (pod_obj web)))
    ∷ manages (syncs (true ∷ []))
    ∷ tails 0 (line 5) 1 true
    ∷ works (received 5)
    ∷ tails 0 (line 6) 2 true
    ∷ main_goes
    ∷ main_goes
    ∷ main_goes
    ∷ manages goes_on
    ∷ manages (exits 0)
    ∷ manages goes_on
    ∷ main_goes
    ∷ main_goes
    ∷ main_goes
    ∷ main_goes
    ∷ works shut_down
    ∷ works (drained 5)
    ∷ works (drained 5)
    ∷ main_goes
    ∷ main_goes
    ∷ []

all_spared : All (Spares (SparesDay (pos 7) 6)) schedule
all_spared = ground arith

abbrev begun : Process Store
begun = new_process (new_batch_queue empty_store (pos 2) (pos 0) (pos 0) none) false []

shutdown_stores_example :
    (p : Process Store) × (happen_all
        (store_insert all_fine days_in)
        close_all
        (clean_store (pos 7))
        schedule
        begun
      ≡ some p)
    × ((queue_closed p.stage ≡ false)
        ⊎ (rows_of (p.queue.store.files 6)
            ≡ rows_of (empty_store.files 6)
              ++ group_of 6 (
                  accepted_in
                    (store_insert all_fine days_in)
                    close_all
                    (clean_store (pos 7))
                    schedule
                    begun)))
shutdown_stores_example =
    shutdown_stores all_fine days_in all_fine-NoFaults
      (record { once = days_in-Distinct; covers = days_in_covers }) empty_store (pos 2) (pos 0)
      (pos 0) none (pos 7) 6 false [] schedule (record { ready = λ date c. absurd (cc) }) all_spared

abbrev idle : List Happening
idle =
    manages (registers true)
    ∷ manages (syncs (true ∷ []))
    ∷ main_goes
    ∷ main_goes
    ∷ main_goes
    ∷ manages goes_on
    ∷ manages goes_on
    ∷ main_goes
    ∷ main_goes
    ∷ main_goes
    ∷ main_goes
    ∷ works shut_down
    ∷ works (drained 5)
    ∷ main_goes
    ∷ main_goes
    ∷ []

abbrev stage_of : Option (Process Store) → Option Stage
stage_of none = none
stage_of (some p) = some p.stage

-- Nothing is left to do for a process that tails no container.
idle_ends :
    stage_of (happen_all (store_insert all_fine days_in) close_all (clean_store (pos 7)) idle begun)
    ≡ some ended
unfolding new_process new_run happen_all happen main_step manage run_step go_on register sync step
    step_at close shut drain new_batch_queue
idle_ends = refl

-- The signal has come, and a tailer still runs.
abbrev interrupted : List Happening
interrupted =
    manages (registers true)
    ∷ manages (notices (adds (pod_obj web)))
    ∷ tails 0 (line 5) 1 true
    ∷ main_goes
    ∷ []

shutdown_ends_example :
    (more : List Happening) × (p : Process Store) × (happen_all
        (store_insert all_fine days_in)
        close_all
        (clean_store (pos 7))
        (interrupted ++ more)
        (new_process (new_batch_queue empty_store (pos 2) (pos 0) (pos 0) none) false [])
      ≡ some p)
    × (p.stage ≡ ended)
    × (p.queue.phase ≡ stopped)
    × (p.run.running ≡ [])
shutdown_ends_example =
    shutdown_ends (store_insert all_fine days_in) close_all (clean_store (pos 7)) empty_store
      (pos 2) (pos 0) (pos 0) none false [] interrupted
