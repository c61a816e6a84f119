-- ===== src/Server/Shutdown/Main.antt =====
-- What is known of a process stays known when main goes on.
use grepod.Prelude.{◌≡◌, refl, sym, subst, inl, inr, true, Option, some, Bool-cases}
use grepod.Storage.Queue.Owner.{close-IsOpen}
use grepod.Tailer.Run.{is_over, cancels}
use grepod.Tailer.Run.Waits.{run_step-Waited, run_step-over}
use grepod.Server.Shutdown.{
  Stage, serving, shutting_down, awaiting, stopping_cron, cancelling, closing_queue, closing,
  closing_store, ended, Process, is_stopped, main_step,
}
use grepod.Server.Shutdown.Known.{is_stopped→≡, Known, moved}

module _ {S : Type 0} (close_store : S → S) where
  pub record Went (o : Option (Process S)) : Type 0 where
    pub next : Process S
    pub went : o ≡ some next
    pub known : Known next.stage next

  -- queue.Close() is called.
  closes_queue :
      (p : Process S) → Known closing_queue p → Went (main_step close_store closing_queue p)
  unfolding main_step
  closes_queue p k =
      let shut = (k.is_open refl).not_done in
      record {
        next = record p { stage = closing; queue = record p.queue { done = true } };
        went = rw (close-IsOpen p.queue shut) refl;
        known = record {
          waited = k.waited;
          over = λ h. k.over refl;
          is_open = λ h. cc;
          is_closed = λ h. cc;
          emptied = k.emptied;
        };
      }

  pub main_step-Known :
      (stage : Stage) (p : Process S)
      → p.stage ≡ stage
      → Known stage p
      → Went (main_step close_store stage p)
  unfolding main_step
  main_step-Known serving p e k = record {
    next = _;
    went = refl;
    known =
        moved serving shutting_down p _ k (run_step-Waited cancels p.run k.waited) (λ h. cc)
          (λ h. refl) (λ h. cc) refl;
  }
  main_step-Known shutting_down p e k = record {
    next = _;
    went = refl;
    known = moved shutting_down awaiting p _ k k.waited (λ h. cc) (λ h. refl) (λ h. cc) refl;
  }
  main_step-Known awaiting p e k = elim (Bool-cases (is_over p.run.phase)) [
    | inl h ↦ simp h (record {
      next = record p { stage = stopping_cron };
      went = refl;
      known = moved awaiting stopping_cron p _ k k.waited (λ x. h) (λ x. refl) (λ x. cc) refl;
    })
    | inr h ↦ simp h (record { next = p; went = refl; known = subst (λ x. Known x p) (sym e) k })
  ]
  main_step-Known stopping_cron p e k = record {
    next = _;
    went = refl;
    known =
        moved stopping_cron cancelling p _ k k.waited (λ h. k.over refl) (λ h. refl) (λ h. cc) refl;
  }
  main_step-Known cancelling p e k = record {
    next = _;
    went = refl;
    known =
        moved cancelling closing_queue p _ k (run_step-Waited cancels p.run k.waited)
          (λ h. run_step-over cancels p.run (k.over refl)) (λ h. refl) (λ h. cc) refl;
  }
  main_step-Known closing_queue p e k = closes_queue p k
  main_step-Known closing p e k = elim (Bool-cases (is_stopped p.queue.phase)) [
    | inl h ↦ simp h (record {
      next = record p { stage = closing_store };
      went = refl;
      known =
          moved closing closing_store p _ k k.waited (λ x. k.over refl) (λ x. cc)
            (λ x. is_stopped→≡ p.queue.phase h) refl;
    })
    | inr h ↦ simp h (record { next = p; went = refl; known = subst (λ x. Known x p) (sym e) k })
  ]
  main_step-Known closing_store p e k = record {
    next = _;
    went = refl;
    known =
        moved closing_store ended p _ k k.waited (λ h. k.over refl) (λ h. cc)
          (λ h. k.is_closed refl) refl;
  }
  main_step-Known ended p e k = record {
    next = p;
    went = refl;
    known = subst (λ x. Known x p) (sym e) k;
  }
