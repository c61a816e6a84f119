-- ===== src/Server/Shutdown/Steps.antt =====
-- What is known of a process stays known, whatever happens.
use grepod.Prelude.{
  ℕ, ◌≡◌, refl, sym, subst, inl, inr, Bool, true, false, Option, some, List, [], ◌∷◌, contains,
  Text, arith, Bool-cases,
}
use grepod.Prelude.Int.{ℤ}
use grepod.Metrics.{Metrics}
use grepod.Storage.Line.{LogLine}
use grepod.Storage.Queue.{BatchQueue, new_batch_queue}
use grepod.Storage.Queue.Owner.{Work, case_of, enqueue-IsOpen, work}
use grepod.Tailer.Run.{RunEvent, registers, notices, syncs, cancels, goes_on, exits, run_step}
use grepod.Tailer.Run.Waits.{new_run-Waited, run_step-Waited, run_step-over}
use grepod.Server.Shutdown.{
  Process, Happening, main_goes, manages, tails, works, new_process, manage, tail, happen,
  happen_all,
}
use grepod.Server.Shutdown.Known.{
  before_close, behind_manager, Known, none_running, moved, step_open, step_behind, still_before,
  running-stopped,
}
use grepod.Server.Shutdown.Main.{Went, main_step-Known}
use grepod.Storage.Line.{Time}
use grepod.Storage.Retention.Cron.{Cleanup}
use grepod.Storage.Queue.Shutdown.{IsEmptied, step-IsEmptied}
use grepod.Storage.Queue.Closing.{case_of-IsQuiet}
use grepod.Prelude.{Ensures_of_eq}
use grepod.Server.Shutdown.{
  CronPhase, sleeping, cleaning, returned, wake, return_if, see_stop, clean, wakes, cleans,
  sees_stop,
}
use grepod.Server.Shutdown.Known.{cleaned}

module _ {S : Type 0} (insert_batch : Option ℕ → List LogLine → S → S × Bool) (close_store : S → S)
    (clean_up : Time → Cleanup → S → S) where
  not_behind :
      (c : ℕ) (p : Process S)
      → Known p.stage p
      → contains p.run.running c ≡ true
      → behind_manager p.stage ≡ false
  not_behind c p k h = elim (Bool-cases (behind_manager p.stage)) [
    | inr e ↦ e
    | inl e ↦ absurd (in_none (subst (λ xs. contains xs c ≡ true) (none_running p.stage p k e) h))
  ]
    where
      in_none : contains [] c ≡ true → ⊥
      in_none e = cc

  tail-Known :
      (c : ℕ) (l : LogLine) (now : ℕ) (won : Bool) (p : Process S)
      → Known p.stage p
      → Known p.stage (tail c l now won p)
  unfolding tail
  tail-Known c l now won p k = elim (Bool-cases (contains p.run.running c)) [
    | inr h ↦ simp h k
    | inl h ↦
        let before : before_close p.stage ≡ true = still_before p.stage (not_behind c p k h) in
        simp h (
          step_open p.stage p _ k before (enqueue-IsOpen l now won p.queue (k.is_open before)) refl)
  ]

  work-Known :
      (w : Work) (p : Process S)
      → Known p.stage p
      → Went close_store (happen insert_batch close_store clean_up (works w) p)
  unfolding happen
  work-Known w p k =
      let done_work = work insert_batch w p.queue in
      record {
        next = record p { queue = done_work.next };
        went = rw done_work.went refl;
        known = elim (Bool-cases (before_close p.stage)) [
          | inl before ↦
              step_open p.stage p _ k before (done_work.stays_open (k.is_open before)) refl
          | inr behind ↦
              step_behind p.stage p _ k behind done_work.stays_stopped
                (Ensures_of_eq IsEmptied _
                  (step-IsEmptied insert_batch (case_of w) p.queue (case_of-IsQuiet w) k.emptied)
                  done_work.went)
                refl
        ];
      }

  managed :
      (e : RunEvent) (p : Process S)
      → Known p.stage p
      → Known p.stage (record p { run = run_step e p.run })
  managed e p k =
      moved p.stage p.stage p _ k (run_step-Waited e p.run k.waited)
        (λ h. run_step-over e p.run (k.over h)) (λ h. h) k.is_closed refl

  manage-Known :
      (e : RunEvent) (p : Process S) → Known p.stage p → Went close_store (some (manage e p))
  unfolding manage
  manage-Known cancels p k = record { next = p; went = refl; known = k }
  manage-Known (registers ok) p k = record {
    next = _;
    went = refl;
    known = managed (registers ok) p k;
  }
  manage-Known (notices n) p k = record { next = _; went = refl; known = managed (notices n) p k }
  manage-Known (syncs oks) p k = record { next = _; went = refl; known = managed (syncs oks) p k }
  manage-Known goes_on p k = record { next = _; went = refl; known = managed goes_on p k }
  manage-Known (exits c) p k = record { next = _; went = refl; known = managed (exits c) p k }

  stage-tail :
      (c : ℕ) (l : LogLine) (now : ℕ) (won : Bool) (p : Process S)
      → (tail c l now won p).stage ≡ p.stage
  unfolding tail
  stage-tail c l now won p = ground arith

  -- The retention moves, and leaves all that is known.
  cron-Known :
      (p : Process S) (cron : CronPhase)
      → Known p.stage p
      → Known p.stage (record p { cron = cron })
  cron-Known p cron k = cleaned p.stage p cron p.queue.store k

  wake-Known : (c : CronPhase) (p : Process S) → Known p.stage p → Known (wake c p).stage (wake c p)
  wake-Known sleeping p k = cron-Known p cleaning k
  wake-Known cleaning p k = k
  wake-Known returned p k = k

  clean-Known :
      (c : CronPhase) (change : S → S) (p : Process S)
      → Known p.stage p
      → Known (clean change c p).stage (clean change c p)
  clean-Known cleaning change p k = cleaned p.stage p sleeping (change p.queue.store) k
  clean-Known sleeping change p k = k
  clean-Known returned change p k = k

  return_if-Known :
      (b : Bool) (p : Process S) → Known p.stage p → Known (return_if b p).stage (return_if b p)
  return_if-Known true p k = cron-Known p returned k
  return_if-Known false p k = k

  see_stop-Known :
      (c : CronPhase) (p : Process S) → Known p.stage p → Known (see_stop c p).stage (see_stop c p)
  see_stop-Known cleaning p k = k
  see_stop-Known returned p k = k
  see_stop-Known sleeping p k = return_if-Known p.cron_stopped p k

  happen-Known :
      (h : Happening) (p : Process S)
      → Known p.stage p
      → Went close_store (happen insert_batch close_store clean_up h p)
  happen-Known main_goes p k = unfold happen in main_step-Known close_store p.stage p refl k
  happen-Known (manages e) p k = unfold happen in manage-Known e p k
  happen-Known (tails c l now won) p k = record {
    next = tail c l now won p;
    went = unfold happen in refl;
    known =
        subst (λ stage. Known stage (tail c l now won p)) (sym (stage-tail c l now won p))
          (tail-Known c l now won p k);
  }
  happen-Known (works w) p k = work-Known w p k
  happen-Known wakes p k = record {
    next = wake p.cron p;
    went = unfold happen in refl;
    known = wake-Known p.cron p k;
  }
  happen-Known (cleans now c) p k = record {
    next = clean (clean_up now c) p.cron p;
    went = unfold happen in refl;
    known = clean-Known p.cron (clean_up now c) p k;
  }
  happen-Known sees_stop p k = record {
    next = see_stop p.cron p;
    went = unfold happen in refl;
    known = see_stop-Known p.cron p k;
  }

  pub happen_all-Known :
      (hs : List Happening) (p : Process S)
      → Known p.stage p
      → Went close_store (happen_all insert_batch close_store clean_up hs p)
  unfolding happen_all
  happen_all-Known [] p k = record { next = p; went = refl; known = k }
  happen_all-Known (h ∷ hs) p k =
      let w = happen-Known h p k in
      let ws = happen_all-Known hs w.next w.known in
      record { next = ws.next; went = rw w.went ws.went; known = ws.known }

module _ {S : Type 0} (store : S) (size interval timeout : ℤ) (m : Option Metrics) where
  abbrev pub fresh : BatchQueue S
  fresh = new_batch_queue store size interval timeout m

  pub new_process-Known :
      (include_init : Bool) (self_pod : Text)
      → Known
          (new_process fresh include_init self_pod).stage
          (new_process fresh include_init self_pod)
  unfolding new_process new_batch_queue
  new_process-Known include_init self_pod = record {
    waited = new_run-Waited include_init self_pod;
    over = λ h. cc;
    is_open = λ h. record { at_select = refl; not_done = refl };
    is_closed = λ h. cc;
    emptied = inl (λ h. running-stopped h);
  }
