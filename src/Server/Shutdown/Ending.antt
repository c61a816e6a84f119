-- ===== src/Server/Shutdown/Ending.antt =====
-- What stays of a shutdown that has begun: the context is done, and later the queue's `done` is closed.
use grepod.Prelude.{
  ℕ, ◌≡◌, refl, sym, subst, inl, inr, Bool, true, false, Option, List, [], ◌∷◌, contains,
  Bool-cases, Ensures, Ensures->>=,
}
use grepod.Storage.Line.{LogLine}
use grepod.Storage.Queue.{close}
use grepod.Storage.Queue.Owner.{work, enqueue-done}
use grepod.Tailer.Run.{
  is_over, RunEvent, registers, notices, syncs, cancels, goes_on, exits, run_step,
}
use grepod.Tailer.Run.Ends.{run_step-done}
use grepod.Server.Shutdown.{
  CronPhase, sleeping, cleaning, wake, return_if, see_stop, clean, wakes, cleans, sees_stop, Stage,
  serving, shutting_down, awaiting, stopping_cron, cancelling, closing_queue, closing,
  closing_store, ended, Process, Happening, main_goes, manages, tails, works, is_stopped, main_step,
  manage, tail, happen, happen_all,
}
use grepod.Server.Shutdown.Known.{before_close}
use grepod.Storage.Line.{Time}
use grepod.Storage.Retention.Cron.{Cleanup}

abbrev pub is_serving : Stage → Bool
is_serving serving = true
is_serving _ = false

module _ {S : Type 0} where
  pub record EndingAt (stage : Stage) (p : Process S) : Type 0 where
    pub cancelled : is_serving stage ≡ false → p.run.ctx_done ≡ true
    pub shut : before_close stage ≡ false → p.queue.done ≡ true

  abbrev pub Ending : Process S → Type 0
  Ending p = EndingAt p.stage p

  -- The context that cancel() ends.
  cancel-EndingAt :
      (a b : Stage) (p : Process S)
      → before_close b ≡ true
      → EndingAt b (record p { stage = a; run = run_step cancels p.run })
  unfolding run_step
  cancel-EndingAt a b p h = record { cancelled = λ x. refl; shut = λ x. absurd (cc (h, x)) }

module _ {S : Type 0} (insert_batch : Option ℕ → List LogLine → S → S × Bool) (close_store : S → S)
    (clean_up : Time → Cleanup → S → S) where
  close-Ending :
      (p : Process S)
      → EndingAt closing_queue p
      → Ensures Ending (main_step close_store closing_queue p)
  unfolding main_step close
  close-Ending p v = elim (Bool-cases p.queue.done) [
    | inl d ↦ simp d tt
    | inr d ↦ simp d (record { cancelled = λ x. v.cancelled refl; shut = λ x. refl })
  ]

  main_step-Ending :
      (stage : Stage) (p : Process S)
      → p.stage ≡ stage
      → EndingAt stage p
      → Ensures Ending (main_step close_store stage p)
  unfolding main_step
  main_step-Ending serving p e v = cancel-EndingAt shutting_down shutting_down p refl
  main_step-Ending shutting_down p e v = record {
    cancelled = λ x. v.cancelled refl;
    shut = λ x. cc;
  }
  main_step-Ending awaiting p e v = elim (Bool-cases (is_over p.run.phase)) [
    | inl h ↦ simp h (record { cancelled = λ x. v.cancelled refl; shut = λ x. cc })
    | inr h ↦ simp h (subst (λ x. EndingAt x p) (sym e) v)
  ]
  main_step-Ending stopping_cron p e v = record {
    cancelled = λ x. v.cancelled refl;
    shut = λ x. cc;
  }
  main_step-Ending cancelling p e v = cancel-EndingAt closing_queue closing_queue p refl
  main_step-Ending closing_queue p e v = close-Ending p v
  main_step-Ending closing p e v = elim (Bool-cases (is_stopped p.queue.phase)) [
    | inl h ↦ simp h (record { cancelled = λ x. v.cancelled refl; shut = λ x. v.shut refl })
    | inr h ↦ simp h (subst (λ x. EndingAt x p) (sym e) v)
  ]
  main_step-Ending closing_store p e v = record {
    cancelled = λ x. v.cancelled refl;
    shut = λ x. v.shut refl;
  }
  main_step-Ending ended p e v = subst (λ x. EndingAt x p) (sym e) v

  managed-Ending :
      (e : RunEvent) (p : Process S)
      → Ending p
      → EndingAt p.stage (record p { run = run_step e p.run })
  managed-Ending e p v = record {
    cancelled = λ x. run_step-done e p.run (v.cancelled x);
    shut = v.shut;
  }

  manage-Ending : (e : RunEvent) (p : Process S) → Ending p → Ending (manage e p)
  unfolding manage
  manage-Ending cancels p v = v
  manage-Ending (registers ok) p v = managed-Ending (registers ok) p v
  manage-Ending (notices n) p v = managed-Ending (notices n) p v
  manage-Ending (syncs oks) p v = managed-Ending (syncs oks) p v
  manage-Ending goes_on p v = managed-Ending goes_on p v
  manage-Ending (exits c) p v = managed-Ending (exits c) p v

  tail-Ending :
      (c : ℕ) (l : LogLine) (now : ℕ) (won : Bool) (p : Process S)
      → Ending p
      → Ending (tail c l now won p)
  unfolding tail
  tail-Ending c l now won p v = elim (Bool-cases (contains p.run.running c)) [
    | inl h ↦
        simp h (record {
          cancelled = v.cancelled;
          shut = λ x. enqueue-done l now won p.queue (v.shut x);
        })
    | inr h ↦ simp h v
  ]

  wake-Ending : (c : CronPhase) (p : Process S) → Ending p → Ending (wake c p)
  wake-Ending sleeping p v = record { cancelled = v.cancelled; shut = v.shut }
  wake-Ending _ p v = v

  clean-Ending :
      (c : CronPhase) (change : S → S) (p : Process S) → Ending p → Ending (clean change c p)
  clean-Ending cleaning change p v = record { cancelled = v.cancelled; shut = v.shut }
  clean-Ending _ change p v = v

  return_if-Ending : (b : Bool) (p : Process S) → Ending p → Ending (return_if b p)
  return_if-Ending true p v = record { cancelled = v.cancelled; shut = v.shut }
  return_if-Ending false p v = v

  see_stop-Ending : (c : CronPhase) (p : Process S) → Ending p → Ending (see_stop c p)
  see_stop-Ending sleeping p v = return_if-Ending p.cron_stopped p v
  see_stop-Ending _ p v = v

  happen-Ending :
      (h : Happening) (p : Process S)
      → Ending p
      → Ensures Ending (happen insert_batch close_store clean_up h p)
  unfolding happen
  happen-Ending main_goes p v = main_step-Ending p.stage p refl v
  happen-Ending (manages e) p v = manage-Ending e p v
  happen-Ending (tails c l now won) p v = tail-Ending c l now won p v
  happen-Ending (works w) p v =
      let done_work = work insert_batch w p.queue in
      rw done_work.went
        (record { cancelled = v.cancelled; shut = λ x. done_work.stays_done (v.shut x) })
  happen-Ending wakes p v = wake-Ending p.cron p v
  happen-Ending (cleans now c) p v = clean-Ending p.cron (clean_up now c) p v
  happen-Ending sees_stop p v = see_stop-Ending p.cron p v

  pub happen_all-Ending :
      (hs : List Happening) (p : Process S)
      → Ending p
      → Ensures Ending (happen_all insert_batch close_store clean_up hs p)
  unfolding happen_all
  happen_all-Ending [] p v = v
  happen_all-Ending (h ∷ hs) p v =
      Ensures->>= Ending Ending (happen insert_batch close_store clean_up h p)
        (happen_all insert_batch close_store clean_up hs) (happen-Ending h p v)
        (λ q e u. happen_all-Ending hs q u)
