-- ===== src/Storage/Queue/Shutdown.antt =====
-- What has reached the store when the goroutine has stopped.
use mathlib.Core.List.{flatten}
use grepod.Prelude.{
  ℕ, ◌≡◌, refl, sym, ◌∙◌, ◌≢◌, ◌⊎◌, Bool, true, false, Option, none, some, List, [], ◌∷◌, ◌++◌,
  append-nil, inl, inr, arith, Ensures, Ensures_of_eq, Ensures->>=, if◌then◌else◌, All,
}
use grepod.Prelude.Int.{ℤ}
use grepod.Metrics.{Metrics}
use grepod.Storage.Line.{LogLine}
use grepod.Storage.Queue.{
  new_batch_queue, BatchQueue, Event, offers, receives, ticks, drains, shuts, closes, Phase,
  running, draining, stopped, run, step, step_at, flush, receive, shut, drain, close,
}
use grepod.Storage.Queue.Given.{Conserved, accepted, insert_all, timeout_of, IsQuiet}
use grepod.Storage.Queue.Conserve.{run_quiet-Conserved}

pub only_batches :
    {A : Type 0} (xs b i : List A) {acc : List A}
    → b ≡ []
    → i ≡ []
    → xs ++ (b ++ i) ≡ acc
    → xs ≡ acc
only_batches xs b i eb ei h = sym (append-nil xs) ∙ (rw (eb, ei) at h)

-- Once the goroutine has stopped, nothing is left behind.
abbrev pub IsEmptied : {S : Type 0} → BatchQueue S → Type 0
IsEmptied q = (q.phase ≢ stopped) ⊎ ((q.input ≡ []) × (q.buf ≡ []))

module _ {S : Type 0} (insert_batch : Option ℕ → List LogLine → S → S × Bool) where
  phase-flush : (n : ℕ) (q : BatchQueue S) → (flush insert_batch n q).phase ≡ q.phase
  unfolding flush
  phase-flush n q = ground arith

  phase-receive : (n : ℕ) (q : BatchQueue S) → (receive insert_batch n q).phase ≡ q.phase
  unfolding receive flush
  phase-receive n q = ground arith

  drain-IsEmptied :
      (n : ℕ) (q : BatchQueue S) → q.phase ≡ draining → IsEmptied (drain insert_batch n q)
  unfolding drain flush
  drain-IsEmptied n q p = ground arith

  close-IsEmptied : (q : BatchQueue S) → IsEmptied q → Ensures IsEmptied (close q)
  unfolding close
  close-IsEmptied q x =
      elim q.done
        as (λ b. Ensures IsEmptied (if b then none else some (record q { done = true }))) [
          | true ↦ tt
          | false ↦ x
        ]

  step_at-IsEmptied :
      (p : Phase) (e : Event) (q : BatchQueue S)
      → q.phase ≡ p
      → IsQuiet e
      → IsEmptied q
      → Ensures IsEmptied (step_at insert_batch p e q)
  unfolding step_at
  step_at-IsEmptied p (offers l now won) q h u x = absurd u
  step_at-IsEmptied p closes q h u x = close-IsEmptied q x
  step_at-IsEmptied running (receives n) q h u x = inl (ground (arith, phase-receive n q))
  step_at-IsEmptied running (ticks n) q h u x = inl (ground (arith, phase-flush n q))
  step_at-IsEmptied running shuts q h u x = inl (unfold shut in ground arith)
  step_at-IsEmptied draining (drains n) q h u x = drain-IsEmptied n q h
  step_at-IsEmptied _ _ q h u x = x

  pub step-IsEmptied :
      (e : Event) (q : BatchQueue S)
      → IsQuiet e
      → IsEmptied q
      → Ensures IsEmptied (step insert_batch e q)
  unfolding step
  step-IsEmptied e q u x = step_at-IsEmptied q.phase e q refl u x

  pub run-IsEmptied :
      (es : List Event) (q : BatchQueue S)
      → All IsQuiet es
      → IsEmptied q
      → Ensures IsEmptied (run insert_batch es q)
  unfolding run
  run-IsEmptied [] q u x = x
  run-IsEmptied (e ∷ es) q u x =
      Ensures->>= IsEmptied IsEmptied (step insert_batch e q) (run insert_batch es)
        (step-IsEmptied e q u.0 x) λ q' _ x'. run-IsEmptied es q' u.1 x'

  module _ (store : S) (size interval timeout : ℤ) (m : Option Metrics) where
    abbrev start : BatchQueue S
    start = new_batch_queue store size interval timeout m

    -- After any schedule, once no more line is offered and the goroutine has stopped: every line
    -- that the channel ever took has been given to the store, in order, in the batches that made
    -- the store what it is, and none is left in the channel or the buffer. (The goroutine has not
    -- stopped where the quiet part begins.)
    pub close_loses_none :
        (es fs : List Event) (q q' : BatchQueue S)
        → run insert_batch es start ≡ some q
        → q.phase ≢ stopped
        → All IsQuiet fs
        → run insert_batch fs q ≡ some q'
        → q'.phase ≡ stopped
        → (batches : List (List LogLine)) × (q'.store
            ≡ insert_all insert_batch (timeout_of start) batches store)
          × (flatten batches ≡ accepted insert_batch es start)
          × (q'.input ≡ [])
          × (q'.buf ≡ [])
    close_loses_none es fs q q' h live u h' ended =
        elim (Ensures_of_eq IsEmptied _ (run-IsEmptied fs q u (inl live)) h') [
          | inl still ↦ absurd (still ended)
          | inr (i, b) ↦ (c.batches, c.stored, only_batches _ _ _ b i c.split, i, b)
        ]
      where
        c : Conserved insert_batch (timeout_of start) store (accepted insert_batch es start) q'
        c = run_quiet-Conserved insert_batch store size interval timeout m es fs q q' h u h'
