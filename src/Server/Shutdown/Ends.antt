-- ===== src/Server/Shutdown/Ends.antt =====
-- The shutdown can always go on to its end.
use grepod.Prelude.{
  ℕ, ◌≡◌, ◌∙◌, refl, ap, Bool, true, false, Option, some, List, [], ◌∷◌, ◌++◌, map, if◌then◌else◌,
  >>=-eq-some, All,
}
use grepod.Storage.Line.{LogLine}
use grepod.Storage.Queue.{BatchQueue, step, run, stopped}
use grepod.Storage.Queue.Owner.{Work, case_of, close-IsOpen}
use grepod.Storage.Queue.Owner.Stops.{queue-Stops}
use grepod.Tailer.Run.{
  is_over, RunEvent, registers, notices, syncs, cancels, goes_on, exits, run_step,
}
use grepod.Tailer.Run.Ends.{run_all, is_own, run-Returns}
use grepod.Server.Shutdown.{
  Stage, serving, shutting_down, awaiting, stopping_cron, cancelling, closing_queue, closing,
  closing_store, ended, Process, Happening, main_goes, manages, works, is_stopped, main_step,
  manage, happen, happen_all,
}
use grepod.Storage.Line.{Time}
use grepod.Storage.Retention.Cron.{Cleanup}

module _ {S : Type 0} (insert_batch : Option ℕ → List LogLine → S → S × Bool) (close_store : S → S)
    (clean_up : Time → Cleanup → S → S) where
  -- What happens until main has ended.
  pub record Ends (p : Process S) : Type 0 where
    pub hs : List Happening
    pub last : Process S
    pub went : happen_all insert_batch close_store clean_up hs p ≡ some last
    pub at_end : last.stage ≡ ended

  pub happen_all-append :
      (hs hs' : List Happening) (p p' : Process S)
      → happen_all insert_batch close_store clean_up hs p ≡ some p'
      → happen_all insert_batch close_store clean_up (hs ++ hs') p
        ≡ happen_all insert_batch close_store clean_up hs' p'
  unfolding happen_all
  happen_all-append [] hs' p p' h =
      let same : p ≡ p' = cc in ap (happen_all insert_batch close_store clean_up hs') same
  happen_all-append (h ∷ hs) hs' p p' e =
      let (q, first, rest) =
        >>=-eq-some (happen insert_batch close_store clean_up h p)
          (happen_all insert_batch close_store clean_up hs) e in
      rw first (happen_all-append hs hs' q p' rest)

  happen_all-Ends :
      (hs : List Happening) (p p' : Process S)
      → happen_all insert_batch close_store clean_up hs p ≡ some p'
      → Ends p'
      → Ends p
  happen_all-Ends hs p p' h v = record {
    hs = hs ++ v.hs;
    last = v.last;
    went = happen_all-append hs v.hs p p' h ∙ v.went;
    at_end = v.at_end;
  }

  main_step-Ends :
      (stage : Stage) (p p' : Process S)
      → p.stage ≡ stage
      → main_step close_store stage p ≡ some p'
      → Ends p'
      → Ends p
  unfolding happen happen_all
  main_step-Ends stage p p' e h v = record {
    hs = main_goes ∷ v.hs;
    last = v.last;
    went = rw (ap (λ x. main_step close_store x p) e ∙ h) v.went;
    at_end = v.at_end;
  }

  -- Steps of the queue's goroutine alone, and of the manager alone.
  happen_all-works :
      (ws : List Work) (p : Process S) (q : BatchQueue S)
      → run insert_batch (map case_of ws) p.queue ≡ some q
      → happen_all insert_batch close_store clean_up (map works ws) p
        ≡ some (record p { queue = q })
  unfolding happen happen_all run
  happen_all-works [] p q h =
      let same : p.queue ≡ q = cc in ap (λ x. some (record p { queue = x })) same
  happen_all-works (w ∷ ws) p q h =
      let (q1, first, rest) =
        >>=-eq-some (step insert_batch (case_of w) p.queue) (run insert_batch (map case_of ws)) h in
      rw first (happen_all-works ws (record p { queue = q1 }) q rest)

  manage-own :
      (e : RunEvent) (p : Process S)
      → is_own e ≡ true
      → manage e p ≡ record p { run = run_step e p.run }
  unfolding manage
  manage-own cancels p h = cc
  manage-own (registers ok) p h = refl
  manage-own (notices n) p h = refl
  manage-own (syncs oks) p h = refl
  manage-own goes_on p h = refl
  manage-own (exits c) p h = refl

  happen_all-manages :
      (es : List RunEvent) (p : Process S)
      → All (λ e. is_own e ≡ true) es
      → happen_all insert_batch close_store clean_up (map manages es) p
        ≡ some (record p { run = run_all es p.run })
  unfolding happen happen_all
  happen_all-manages [] p o = refl
  happen_all-manages (e ∷ es) p o =
      ap (happen_all insert_batch close_store clean_up (map manages es)) (manage-own e p o.0)
      ∙ happen_all-manages es (record p { run = run_step e p.run }) o.1

  pub ended-Ends : (p : Process S) → p.stage ≡ ended → Ends p
  unfolding happen_all
  ended-Ends p e = record { hs = []; last = p; went = refl; at_end = e }

  pub closing_store-Ends : (p : Process S) → p.stage ≡ closing_store → Ends p
  unfolding main_step
  closing_store-Ends p e = main_step-Ends closing_store p _ e refl (ended-Ends _ refl)

  stopped-Ends : (p : Process S) → p.stage ≡ closing → p.queue.phase ≡ stopped → Ends p
  unfolding main_step
  stopped-Ends p e h =
      main_step-Ends closing p (record p { stage = closing_store }) e
        (ap (λ x. some (if is_stopped x then record p { stage = closing_store } else p)) h)
        (closing_store-Ends _ refl)

  pub closing-Ends : (p : Process S) → p.stage ≡ closing → p.queue.done ≡ true → Ends p
  closing-Ends p e d =
      let s = queue-Stops insert_batch p.queue d in
      happen_all-Ends (map works s.ws) p (record p { queue = s.last })
        (happen_all-works s.ws p s.last s.went)
        (stopped-Ends (record p { queue = s.last }) e s.at_end)

  pub closing_queue-Ends : (p : Process S) → p.stage ≡ closing_queue → p.queue.done ≡ false → Ends p
  unfolding main_step
  closing_queue-Ends p e d =
      main_step-Ends closing_queue p
        (record p { stage = closing; queue = record p.queue { done = true } }) e
        (rw (close-IsOpen p.queue d) refl) (closing-Ends _ refl refl)

  pub cancelling-Ends : (p : Process S) → p.stage ≡ cancelling → p.queue.done ≡ false → Ends p
  unfolding main_step
  cancelling-Ends p e d = main_step-Ends cancelling p _ e refl (closing_queue-Ends _ refl d)

  pub stopping_cron-Ends : (p : Process S) → p.stage ≡ stopping_cron → p.queue.done ≡ false → Ends p
  unfolding main_step
  stopping_cron-Ends p e d = main_step-Ends stopping_cron p _ e refl (cancelling-Ends _ refl d)

  over-Ends :
      (p : Process S)
      → p.stage ≡ awaiting
      → is_over p.run.phase ≡ true
      → p.queue.done ≡ false
      → Ends p
  unfolding main_step
  over-Ends p e h d =
      main_step-Ends awaiting p (record p { stage = stopping_cron }) e
        (ap (λ b. some (if b then record p { stage = stopping_cron } else p)) h)
        (stopping_cron-Ends _ refl d)

  pub awaiting-Ends :
      (p : Process S) → p.stage ≡ awaiting → p.run.ctx_done ≡ true → p.queue.done ≡ false → Ends p
  awaiting-Ends p e c d =
      let r = run-Returns p.run c in
      happen_all-Ends (map manages r.es) p (record p { run = run_all r.es p.run })
        (happen_all-manages r.es p r.own)
        (over-Ends (record p { run = run_all r.es p.run }) e r.over d)

  pub shutting_down-Ends :
      (p : Process S)
      → p.stage ≡ shutting_down
      → p.run.ctx_done ≡ true
      → p.queue.done ≡ false
      → Ends p
  unfolding main_step
  shutting_down-Ends p e c d = main_step-Ends shutting_down p _ e refl (awaiting-Ends _ refl c d)

  pub serving-Ends : (p : Process S) → p.stage ≡ serving → p.queue.done ≡ false → Ends p
  unfolding main_step run_step
  serving-Ends p e d = main_step-Ends serving p _ e refl (shutting_down-Ends _ refl refl d)
