-- ===== src/Storage/Queue/Owner/Stops.antt =====
-- The goroutine of a queue that is closed can always return.
use grepod.Prelude.{
  ℕ, ◌≡◌, ◌∙◌, refl, ap, Bool, true, Option, some, List, [], ◌∷◌, ◌++◌, map, if◌then◌else◌,
}
use grepod.Storage.Line.{LogLine}
use grepod.Storage.Queue.{
  BatchQueue, Phase, running, draining, stopped, run, step, step_at, shut, drain, flush,
}
use grepod.Storage.Queue.Owner.{Work, drained, shut_down, case_of}

module _ {S : Type 0} (insert_batch : Option ℕ → List LogLine → S → S × Bool) where
  -- What the goroutine does until it has returned.
  pub record Stops (q : BatchQueue S) : Type 0 where
    pub ws : List Work
    pub last : BatchQueue S
    pub went : run insert_batch (map case_of ws) q ≡ some last
    pub at_end : last.phase ≡ stopped

  step-Stops :
      (w : Work) (q q' : BatchQueue S)
      → step insert_batch (case_of w) q ≡ some q'
      → Stops q'
      → Stops q
  unfolding run
  step-Stops w q q' h v = record {
    ws = w ∷ v.ws;
    last = v.last;
    went = rw h v.went;
    at_end = v.at_end;
  }

  stopped-Stops : (q : BatchQueue S) → q.phase ≡ stopped → Stops q
  unfolding run
  stopped-Stops q e = record { ws = []; last = q; went = refl; at_end = e }

  -- A round of the drain by what the channel holds.
  round : BatchQueue S → List LogLine → Option (BatchQueue S)
  round q ls = some (elim ls [
    | [] ↦ record (flush insert_batch 0 q) { phase = stopped }
    | l ∷ rest ↦ record q { input = rest; buf = q.buf ++ l ∷ [] }
  ])

  step-draining :
      (q : BatchQueue S)
      → q.phase ≡ draining
      → step insert_batch (case_of (drained 0)) q ≡ round q q.input
  unfolding step step_at drain round
  step-draining q e = ap (λ p. step_at insert_batch p (case_of (drained 0)) q) e

  drains_last :
      (q : BatchQueue S)
      → q.phase ≡ draining
      → q.input ≡ []
      → step insert_batch (case_of (drained 0)) q
        ≡ some (record (flush insert_batch 0 q) { phase = stopped })
  unfolding round
  drains_last q e i = step-draining q e ∙ ap (round q) i

  drains_one :
      (l : LogLine) (rest : List LogLine) (q : BatchQueue S)
      → q.phase ≡ draining
      → q.input ≡ l ∷ rest
      → step insert_batch (case_of (drained 0)) q
        ≡ some (record q { input = rest; buf = q.buf ++ l ∷ [] })
  unfolding round
  drains_one l rest q e i = step-draining q e ∙ ap (round q) i

  draining-Stops :
      (ls : List LogLine) (q : BatchQueue S) → q.phase ≡ draining → q.input ≡ ls → Stops q
  draining-Stops [] q e i =
      step-Stops (drained 0) q _ (drains_last q e i)
        (stopped-Stops (record (flush insert_batch 0 q) { phase = stopped }) refl)
  draining-Stops (l ∷ rest) q e i =
      step-Stops (drained 0) q _ (drains_one l rest q e i)
        (draining-Stops rest (record q { input = rest; buf = q.buf ++ l ∷ [] }) e refl)

  sees_done :
      (q : BatchQueue S)
      → q.phase ≡ running
      → q.done ≡ true
      → step insert_batch (case_of shut_down) q ≡ some (record q { phase = draining })
  unfolding step step_at shut
  sees_done q e d =
      ap (λ p. step_at insert_batch p (case_of shut_down) q) e
      ∙ ap (λ b. some (if b then record q { phase = draining } else q)) d

  phase-Stops : (p : Phase) (q : BatchQueue S) → q.phase ≡ p → q.done ≡ true → Stops q
  phase-Stops running q e d =
      step-Stops shut_down q _ (sees_done q e d)
        (draining-Stops q.input (record q { phase = draining }) refl refl)
  phase-Stops draining q e d = draining-Stops q.input q e refl
  phase-Stops stopped q e d = stopped-Stops q e

  pub queue-Stops : (q : BatchQueue S) → q.done ≡ true → Stops q
  queue-Stops q d = phase-Stops q.phase q refl d
