-- ===== src/Server/Shutdown/Reaches.antt =====
-- From all that can happen, the shutdown can still come to its end.
use grepod.Prelude.{
  ℕ, ◌≡◌, ◌∙◌, refl, sym, ap, subst, Bool, Option, some, List, [], ◌++◌, Text, Ensures_of_eq,
}
use grepod.Prelude.Int.{ℤ}
use grepod.Metrics.{Metrics}
use grepod.Storage.Line.{LogLine}
use grepod.Storage.Queue.{new_batch_queue, stopped}
use grepod.Server.Shutdown.{
  Stage, serving, shutting_down, awaiting, stopping_cron, cancelling, closing_queue, closing,
  closing_store, ended, Process, Happening, new_process, happen_all,
}
use grepod.Server.Shutdown.Known.{Known, none_running}
use grepod.Server.Shutdown.Steps.{happen_all-Known, new_process-Known}
use grepod.Server.Shutdown.Ending.{Ending, happen_all-Ending}
use grepod.Server.Shutdown.Ends.{
  Ends, happen_all-append, ended-Ends, closing_store-Ends, closing-Ends, closing_queue-Ends,
  cancelling-Ends, stopping_cron-Ends, awaiting-Ends, shutting_down-Ends, serving-Ends,
}
use grepod.Storage.Line.{Time}
use grepod.Storage.Retention.Cron.{Cleanup}

module _ {S : Type 0} (insert_batch : Option ℕ → List LogLine → S → S × Bool) (close_store : S → S)
    (clean_up : Time → Cleanup → S → S) where
  stage-Ends :
      (stage : Stage) (p : Process S)
      → p.stage ≡ stage
      → Known stage p
      → Ending p
      → Ends insert_batch close_store clean_up p
  stage-Ends serving p e k v =
      serving-Ends insert_batch close_store clean_up p e (k.is_open refl).not_done
  stage-Ends shutting_down p e k v =
      shutting_down-Ends insert_batch close_store clean_up p e (v.cancelled (rw e refl))
        (k.is_open refl).not_done
  stage-Ends awaiting p e k v =
      awaiting-Ends insert_batch close_store clean_up p e (v.cancelled (rw e refl))
        (k.is_open refl).not_done
  stage-Ends stopping_cron p e k v =
      stopping_cron-Ends insert_batch close_store clean_up p e (k.is_open refl).not_done
  stage-Ends cancelling p e k v =
      cancelling-Ends insert_batch close_store clean_up p e (k.is_open refl).not_done
  stage-Ends closing_queue p e k v =
      closing_queue-Ends insert_batch close_store clean_up p e (k.is_open refl).not_done
  stage-Ends closing p e k v =
      closing-Ends insert_batch close_store clean_up p e (v.shut (rw e refl))
  stage-Ends closing_store p e k v = closing_store-Ends insert_batch close_store clean_up p e
  stage-Ends ended p e k v = ended-Ends insert_batch close_store clean_up p e

  ended-stopped :
      (p : Process S)
      → p.stage ≡ ended
      → Known p.stage p
      → (p.queue.phase ≡ stopped) × (p.run.running ≡ [])
  ended-stopped p e k =
      let at : Known ended p = subst (λ x. Known x p) e k in
      (at.is_closed refl, none_running ended p at refl)

module _ {S : Type 0} (insert_batch : Option ℕ → List LogLine → S → S × Bool) (close_store : S → S)
    (clean_up : Time → Cleanup → S → S) (store : S) (size interval timeout : ℤ)
    (m : Option Metrics) where
  same_answer : {p q : Process S} → some p ≡ some q → p ≡ q
  same_answer e = cc

  new_process-Ending :
      (include_init : Bool) (self_pod : Text)
      → Ending (new_process (new_batch_queue store size interval timeout m) include_init self_pod)
  unfolding new_process
  new_process-Ending include_init self_pod = record { cancelled = λ h. cc; shut = λ h. cc }

  -- Whatever has happened from the point where main waits for a signal, in any order, and whatever the
  -- store does with its batches and its cleanups: more can happen, that main goes on, the informer's cache syncs, tailers
  -- whose context is done return and the goroutine of the queue takes its steps, so that main comes
  -- to its end, and then the goroutine of the queue has returned and no tailer runs.
  pub shutdown_ends :
      (include_init : Bool) (self_pod : Text) (hs : List Happening)
      → (more : List Happening) × (p : Process S) × (happen_all insert_batch close_store clean_up
            (hs ++ more)
            (new_process (new_batch_queue store size interval timeout m) include_init self_pod)
          ≡ some p)
        × (p.stage ≡ ended)
        × (p.queue.phase ≡ stopped)
        × (p.run.running ≡ [])
  shutdown_ends include_init self_pod hs =
      let start = new_batch_queue store size interval timeout m in
      let p0 = new_process start include_init self_pod in
      let k0 = new_process-Known store size interval timeout m include_init self_pod in
      let w = happen_all-Known insert_batch close_store clean_up hs p0 k0 in
      let v =
        Ensures_of_eq Ending _
          (happen_all-Ending insert_batch close_store clean_up hs p0
            (new_process-Ending include_init self_pod))
          w.went in
      let ends = stage-Ends insert_batch close_store clean_up w.next.stage w.next refl w.known v in
      let w' = happen_all-Known insert_batch close_store clean_up ends.hs w.next w.known in
      let went =
        happen_all-append insert_batch close_store clean_up hs ends.hs p0 w.next w.went ∙ w'.went in
      let same : w'.next ≡ ends.last = same_answer (sym w'.went ∙ ends.went) in
      let stage : w'.next.stage ≡ ended = ap (λ x. x.stage) same ∙ ends.at_end in
      let (a, b) = ended-stopped insert_batch close_store clean_up w'.next stage w'.known in
      (ends.hs, w'.next, went, stage, a, b)
