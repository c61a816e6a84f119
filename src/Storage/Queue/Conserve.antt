-- ===== src/Storage/Queue/Conserve.antt =====
-- Every line that the channel took is, in its order, in a batch given to the store, in the buffer,
-- or still in the channel.
use mathlib.Core.List.{flatten}
use grepod.Prelude.{
  ℕ, ◌≡◌, refl, ap, ◌∙◌, Bool, Option, none, some, List, [], ◌∷◌, ◌++◌, append_assoc, append-nil,
  ◌>>=◌, Ensures, Ensures_of_eq, All, subst,
}
use grepod.Storage.Line.{LogLine}
use grepod.Metrics.{Metrics}
use grepod.Prelude.Int.{ℤ}
use grepod.Storage.Queue.{
  new_batch_queue, BatchQueue, Event, offers, receives, ticks, drains, shuts, closes, Phase,
  running, draining, run, step, step_at,
}
use grepod.Storage.Queue.Given.{
  taken, timeout_of, IsQuiet, accepted, accepted_quiet, insert_all, Conserved, flush-Conserved,
  receive-Conserved, drain-Conserved, shut-Conserved, close-Conserved, enqueue-Conserved,
}

module _ {S : Type 0} (insert_batch : Option ℕ → List LogLine → S → S × Bool) where
  module _ (t : Option ℕ) (s : S) where
    step_at-Conserved :
        (p : Phase) (e : Event) (acc : List LogLine) (q : BatchQueue S)
        → Conserved insert_batch t s acc q
        → Ensures (Conserved insert_batch t s (acc ++ taken e q)) (step_at insert_batch p e q)
    unfolding step_at taken
    step_at-Conserved p (offers l now won) acc q c =
        enqueue-Conserved insert_batch t s l now won acc q c
    step_at-Conserved p closes acc q c =
        rw (append-nil acc) (close-Conserved insert_batch t s acc q c)
    step_at-Conserved running (receives n) acc q c =
        rw (append-nil acc) (receive-Conserved insert_batch t s n acc q c)
    step_at-Conserved running (ticks n) acc q c =
        rw (append-nil acc) (flush-Conserved insert_batch t s n acc q c)
    step_at-Conserved running shuts acc q c =
        rw (append-nil acc) (shut-Conserved insert_batch t s acc q c)
    step_at-Conserved draining (drains n) acc q c =
        rw (append-nil acc) (drain-Conserved insert_batch t s n acc q c)
    step_at-Conserved _ _ acc q c = rw (append-nil acc) c

    pub run-Conserved :
        (es : List Event) (acc : List LogLine) (q : BatchQueue S)
        → Conserved insert_batch t s acc q
        → Ensures
            (Conserved insert_batch t s (acc ++ accepted insert_batch es q))
            (run insert_batch es q)
    unfolding run accepted
    run-Conserved [] acc q c = rw (append-nil acc) c
    run-Conserved (e ∷ es) acc q c =
        go (run-Conserved es (acc ++ taken e q)) (step insert_batch e q)
          (unfold step in step_at-Conserved q.phase e acc q c)
      where
        go :
            ((q' : BatchQueue S)
              → Conserved insert_batch t s (acc ++ taken e q) q'
              → Ensures
                  (Conserved insert_batch t s ((acc ++ taken e q) ++ accepted insert_batch es q'))
                  (run insert_batch es q'))
            → (m : Option (BatchQueue S))
            → Ensures (Conserved insert_batch t s (acc ++ taken e q)) m
            → Ensures
                (Conserved insert_batch t s (
                  acc
                  ++ (taken e q ++ elim m [ none ↦ [] | some q' ↦ accepted insert_batch es q' ])))
                (m >>= run insert_batch es)
        go rec none h = tt
        go rec (some q') h =
            rw (← append_assoc acc (taken e q) (accepted insert_batch es q')) (rec q' h)

module _ {S : Type 0} (insert_batch : Option ℕ → List LogLine → S → S × Bool) where
  module _ (store : S) (size interval timeout : ℤ) (m : Option Metrics) where
    abbrev start : BatchQueue S
    start = new_batch_queue store size interval timeout m

    begin-Conserved : Conserved insert_batch (timeout_of start) store [] start
    unfolding new_batch_queue insert_all flatten
    begin-Conserved = record { batches = []; timeout = refl; stored = refl; split = refl }

    pub run_start-Conserved :
        (es : List Event) (q : BatchQueue S)
        → run insert_batch es start ≡ some q
        → Conserved insert_batch (timeout_of start) store (accepted insert_batch es start) q
    run_start-Conserved es q =
        Ensures_of_eq _ _ (run-Conserved insert_batch _ store es [] start begin-Conserved)

    pub run_quiet-Conserved :
        (es fs : List Event) (q q' : BatchQueue S)
        → run insert_batch es start ≡ some q
        → All IsQuiet fs
        → run insert_batch fs q ≡ some q'
        → Conserved insert_batch (timeout_of start) store (accepted insert_batch es start) q'
    run_quiet-Conserved es fs q q' h u h' =
        subst (λ acc. Conserved insert_batch (timeout_of start) store acc q')
          (ap (λ t. accepted insert_batch es start ++ t) (accepted_quiet insert_batch fs q u)
            ∙ append-nil _)
          (Ensures_of_eq _ _
            (run-Conserved insert_batch (timeout_of start) store fs (accepted insert_batch es start)
              q (run_start-Conserved es q h))
            h')

    -- Over every schedule from a new queue: the store is what it was after some batches, inserted
    -- in order under the queue's timeout, and these batches, then the buffer, then the channel,
    -- hold exactly the lines that the channel took, in order.
    pub run_conserves :
        (es : List Event) (q : BatchQueue S)
        → run insert_batch es start ≡ some q
        → (batches : List (List LogLine)) × (q.store
            ≡ insert_all insert_batch (timeout_of start) batches store)
          × (flatten batches ++ (q.buf ++ q.input) ≡ accepted insert_batch es start)
    run_conserves es q h = let c = run_start-Conserved es q h in (c.batches, c.stored, c.split)
