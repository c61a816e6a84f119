-- ===== src/Server/Shutdown.antt =====
-- cmd/server/main.go: main behind its setup, waitForShutdown and the deferred calls, with the goroutines
-- that run meanwhile: the manager, its tailers, the batch queue and the retention, of which a cleanup takes
-- effect at once when it is done, at any time. A process that a failure of its
-- setup or of ListenAndServe ends by os.Exit is not followed further.
pub mod Known
pub mod Main
pub mod Lines
pub mod Steps
pub mod Stores
pub mod Ending
pub mod Ends
pub mod Reaches
mod Tests
use grepod.Prelude.{
  ℕ, Bool, true, false, Option, none, some, List, [], ◌∷◌, ◌++◌, contains, if◌then◌else◌, Text,
  ◌>>=◌,
}
use grepod.Storage.Line.{LogLine, Time}
use grepod.Storage.Queue.{
  BatchQueue, Phase, running, draining, stopped, enqueue, step, close, offers,
}
use grepod.Storage.Queue.Given.{taken}
use grepod.Storage.Queue.Owner.{Work, case_of}
use grepod.Storage.Insert.{Store}
use grepod.Prelude.Int.{ℤ}
use grepod.Storage.Retention.{cleanup_old_dbs}
use grepod.Storage.Retention.Cron.{Cleanup}
use grepod.Tailer.Run.{Run, is_over, RunEvent, cancels, run_step, new_run}

-- Where main stands: at <-sigCh; at srv.Shutdown, behind cancel(); at <-mgrDone; and then before each of
-- the deferred calls close(stopCron), cancel() and queue.Close(), which waits for the goroutine of the
-- queue, and before store.Close(), behind which it ends.
pub data Stage : Type 0 where
  serving shutting_down awaiting stopping_cron cancelling closing_queue closing closing_store
        ended :
      Stage

-- The loop of StartRetentionCron: at its select, in CleanupOldDBs, or behind its return.
pub data CronPhase : Type 0 where
  sleeping cleaning returned : CronPhase

pub record Process (S : Type 0) : Type 0 where
  pub stage : Stage
  pub run : Run
  pub queue : BatchQueue S
  pub cron : CronPhase
  pub cron_stopped : Bool
  pub store_closed : Option S

-- What can happen: main goes on; something happens in the manager, but for the end of its context; a
-- tailer hands a line to the queue; the goroutine of the queue goes on; the timer of the retention fires, a
-- cleanup that began at some time is done, or the retention sees that it is stopped.
pub data Happening : Type 0 where
  main_goes : Happening
  manages : RunEvent → Happening
  tails : ℕ → LogLine → ℕ → Bool → Happening
  works : Work → Happening
  wakes : Happening
  cleans : Time → Cleanup → Happening
  sees_stop : Happening

abbrev pub is_stopped : Phase → Bool
is_stopped stopped = true
is_stopped _ = false

-- store.CleanupOldDBs as the retention calls it with its days, at the time when it begins.
unfoldable pub clean_store : ℤ → Time → Cleanup → Store → Store
clean_store retention now c s = (cleanup_old_dbs c.faults c.removes c.entries now retention s).0

module _ {S : Type 0} where
  unfoldable pub new_process : BatchQueue S → Bool → Text → Process S
  unfolding new_run
  new_process queue include_init self_pod = record {
    stage = serving;
    run = new_run include_init self_pod;
    queue = queue;
    cron = sleeping;
    cron_stopped = false;
    store_closed = none;
  }

  -- cancel()
  abbrev pub cancel : Process S → Process S
  cancel p = record p { run = run_step cancels p.run }

  -- `close_store` is what store.Close does.
  unfoldable pub main_step : (S → S) → Stage → Process S → Option (Process S)
  unfolding run_step
  main_step close_store serving p = some (record (cancel p) { stage = shutting_down })
  main_step close_store shutting_down p = some (record p { stage = awaiting })
  main_step close_store awaiting p =
      some (if is_over p.run.phase then record p { stage = stopping_cron } else p)
  main_step close_store stopping_cron p =
      some (record p { stage = cancelling; cron_stopped = true })
  main_step close_store cancelling p = some (record (cancel p) { stage = closing_queue })
  main_step close_store closing_queue p = do
    q ← close p.queue
    some (record p { stage = closing; queue = q })
  main_step close_store closing p =
      some (if is_stopped p.queue.phase then record p { stage = closing_store } else p)
  main_step close_store closing_store p =
      some (record p { stage = ended; store_closed = some (close_store p.queue.store) })
  main_step close_store ended p = some p

  -- The context of the manager is main's: only cancel() ends it.
  unfoldable pub manage : RunEvent → Process S → Process S
  unfolding run_step
  manage cancels p = p
  manage e p = record p { run = run_step e p.run }

  -- The select of the retention takes its timer, or the channel that main closes.
  abbrev pub wake : CronPhase → Process S → Process S
  wake sleeping p = record p { cron = cleaning }
  wake _ p = p

  abbrev pub return_if : Bool → Process S → Process S
  return_if true p = record p { cron = returned }
  return_if false p = p

  abbrev pub see_stop : CronPhase → Process S → Process S
  see_stop sleeping p = return_if p.cron_stopped p
  see_stop _ p = p

  -- A cleanup is done; it has changed the store that the queue writes to.
  abbrev pub clean : (S → S) → CronPhase → Process S → Process S
  clean change cleaning p = record p {
    cron = sleeping;
    queue = record p.queue { store = change p.queue.store };
  }
  clean change _ p = p

  -- Enqueue by a tailer that runs.
  unfoldable pub tail : ℕ → LogLine → ℕ → Bool → Process S → Process S
  tail c l now won p =
      if contains p.run.running c then record p { queue = enqueue l now won p.queue } else p

  -- The line that the channel takes when something happens.
  abbrev pub taken_by : Happening → Process S → List LogLine
  taken_by (tails c l now won) p =
      if contains p.run.running c then taken (offers l now won) p.queue else []
  taken_by _ p = []

module _ {S : Type 0} (insert_batch : Option ℕ → List LogLine → S → S × Bool) (close_store : S → S)
    (clean_up : Time → Cleanup → S → S) where
  unfoldable pub happen : Happening → Process S → Option (Process S)
  unfolding main_step manage tail
  happen main_goes p = main_step close_store p.stage p
  happen (manages e) p = some (manage e p)
  happen (tails c l now won) p = some (tail c l now won p)
  happen (works w) p = do q ← step insert_batch (case_of w) p.queue; some (record p { queue = q })
  happen wakes p = some (wake p.cron p)
  happen (cleans now c) p = some (clean (clean_up now c) p.cron p)
  happen sees_stop p = some (see_stop p.cron p)

  unfoldable pub happen_all : List Happening → Process S → Option (Process S)
  unfolding happen
  happen_all [] p = some p
  happen_all (h ∷ hs) p = happen h p >>= happen_all hs

  -- The lines that the channel takes over a list of what happens.
  unfoldable pub accepted_in : List Happening → Process S → List LogLine
  accepted_in [] p = []
  accepted_in (h ∷ hs) p =
      taken_by h p ++ elim (happen h p) [ none ↦ [] | some p' ↦ accepted_in hs p' ]
