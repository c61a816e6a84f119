-- ===== src/Server/Shutdown/Known.antt =====
-- What is known of a process at each stage of its shutdown.
use grepod.Prelude.{inl, ◌≡◌, ◌≢◌, refl, sym, ap, ◌∙◌, subst, Bool, true, false, []}
use grepod.Storage.Queue.{Phase, running, draining, stopped}
use grepod.Storage.Queue.Owner.{IsOpen}
use grepod.Tailer.Run.{is_over}
use grepod.Tailer.Run.Waits.{Waited, running_none}
use grepod.Server.Shutdown.{
  CronPhase, Stage, serving, shutting_down, awaiting, stopping_cron, cancelling, closing_queue,
  closing, closing_store, ended, Process, is_stopped,
}
use grepod.Storage.Queue.Shutdown.{IsEmptied}

-- Before queue.Close() is called; and behind <-mgrDone.
abbrev pub before_close : Stage → Bool
before_close closing = false
before_close closing_store = false
before_close ended = false
before_close _ = true

abbrev pub behind_manager : Stage → Bool
behind_manager serving = false
behind_manager shutting_down = false
behind_manager awaiting = false
behind_manager _ = true

abbrev pub queue_closed : Stage → Bool
queue_closed closing_store = true
queue_closed ended = true
queue_closed _ = false

pub is_stopped→≡ : (p : Phase) → is_stopped p ≡ true → p ≡ stopped
is_stopped→≡ stopped h = refl
is_stopped→≡ running h = cc
is_stopped→≡ draining h = cc

closed_before : (stage : Stage) → queue_closed stage ≡ true → before_close stage ≡ true → ⊥
closed_before closing_store h k = cc
closed_before ended h k = cc
closed_before serving h k = cc
closed_before shutting_down h k = cc
closed_before awaiting h k = cc
closed_before stopping_cron h k = cc
closed_before cancelling h k = cc
closed_before closing_queue h k = cc
closed_before closing h k = cc

-- Until the manager is done, Close has not been called.
pub still_before : (stage : Stage) → behind_manager stage ≡ false → before_close stage ≡ true
still_before serving h = refl
still_before shutting_down h = refl
still_before awaiting h = refl
still_before stopping_cron h = refl
still_before cancelling h = refl
still_before closing_queue h = refl
still_before closing h = cc
still_before closing_store h = cc
still_before ended h = cc

pub running-stopped : running ≢ stopped
running-stopped e = cc

module _ {S : Type 0} where
  -- What is known of a process at a stage.
  pub record Known (stage : Stage) (p : Process S) : Type 0 where
    pub waited : Waited p.run
    pub over : behind_manager stage ≡ true → is_over p.run.phase ≡ true
    pub is_open : before_close stage ≡ true → IsOpen p.queue
    pub is_closed : queue_closed stage ≡ true → p.queue.phase ≡ stopped
    pub emptied : IsEmptied p.queue

  -- No tailer runs behind <-mgrDone.
  pub none_running :
      (stage : Stage) (p : Process S)
      → Known stage p
      → behind_manager stage ≡ true
      → p.run.running ≡ []
  none_running stage p k h = running_none p.run k.waited (k.over h)

  -- Another stage of the same queue.
  pub moved :
      (a b : Stage) (p p' : Process S)
      → Known a p
      → Waited p'.run
      → (behind_manager b ≡ true → is_over p'.run.phase ≡ true)
      → (before_close b ≡ true → before_close a ≡ true)
      → (queue_closed b ≡ true → p.queue.phase ≡ stopped)
      → p'.queue ≡ p.queue
      → Known b p'
  moved a b p p' k w over before closed queue = record {
    waited = w;
    over = over;
    is_open = λ h. subst IsOpen (sym queue) (k.is_open (before h));
    is_closed = λ h. ap (λ x. x.phase) queue ∙ closed h;
    emptied = subst IsEmptied (sym queue) k.emptied;
  }

  -- Before Close, a step of the queue that leaves it open.
  pub step_open :
      (stage : Stage) (p p' : Process S)
      → Known stage p
      → before_close stage ≡ true
      → IsOpen p'.queue
      → p'.run ≡ p.run
      → Known stage p'
  step_open stage p p' k before still same_run = record {
    waited = subst Waited (sym same_run) k.waited;
    over = λ h. ap (λ r. is_over r.phase) same_run ∙ k.over h;
    is_open = λ h. still;
    is_closed = λ h. absurd (closed_before stage h before);
    emptied = inl (λ h. running-stopped (sym still.at_select ∙ h));
  }

  -- Behind the call of Close, a step of the queue.
  pub step_behind :
      (stage : Stage) (p p' : Process S)
      → Known stage p
      → before_close stage ≡ false
      → (p.queue.phase ≡ stopped → p'.queue.phase ≡ stopped)
      → IsEmptied p'.queue
      → p'.run ≡ p.run
      → Known stage p'
  step_behind stage p p' k behind stays emptied same_run = record {
    waited = subst Waited (sym same_run) k.waited;
    over = λ h. ap (λ r. is_over r.phase) same_run ∙ k.over h;
    is_open = λ h. absurd (cc (h, behind));
    is_closed = λ h. stays (k.is_closed h);
    emptied = emptied;
  }

  -- The retention changes the store alone.
  pub cleaned :
      (stage : Stage) (p : Process S) (cron : CronPhase) (store : S)
      → Known stage p
      → Known stage (record p { cron = cron; queue = record p.queue { store = store } })
  cleaned stage p cron store k = record {
    waited = k.waited;
    over = k.over;
    is_open =
        λ h. record { at_select = (k.is_open h).at_select; not_done = (k.is_open h).not_done };
    is_closed = k.is_closed;
    emptied = k.emptied;
  }
