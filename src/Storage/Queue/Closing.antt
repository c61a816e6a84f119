-- ===== src/Storage/Queue/Closing.antt =====
-- Close comes to its end, whatever the goroutine's select takes meanwhile.
use mathlib.Core.List.{flatten}
use grepod.Prelude.{
  ℕ, ◌+◌, ◌≤◌, ◌<◌, ◌≡◌, refl, ap, ◌∙◌, subst, ◌⊎◌, inl, inr, Bool, true, false, Option, some, List,
  [], ◌∷◌, ◌++◌, append-nil, length, map, All, All-append, arith, Ensures, Ensures_of_eq,
  >>=-eq-some,
}
use grepod.Storage.Line.{LogLine}
use grepod.Storage.Queue.{
  BatchQueue, Phase, running, draining, stopped, Event, closes, shuts, run, step, step_at, flush,
  receive, shut, drain,
}
use grepod.Storage.Queue.Given.{Conserved, accepted_quiet, insert_all, timeout_of, IsQuiet}
use grepod.Storage.Queue.Conserve.{run-Conserved}
use grepod.Storage.Queue.Owner.{
  Work, received, ticked, drained, shut_down, case_of, work, step-closes,
}
use grepod.Storage.Queue.Shutdown.{IsEmptied, run-IsEmptied, only_batches}

-- The rounds of the drain among what the goroutine does.
abbrev drains : Work → ℕ
drains (drained n) = 1
drains _ = 0

abbrev pub drains_in : List Work → ℕ
drains_in [] = 0
drains_in (w ∷ ws) = drains w + drains_in ws

-- The goroutine has stopped, or drains a channel that holds less than `n` lines.
abbrev IsNear : {S : Type 0} → ℕ → BatchQueue S → Type 0
IsNear n q = (q.phase ≡ stopped) ⊎ ((q.phase ≡ draining) × (length q.input < n))

pub case_of-IsQuiet : (w : Work) → IsQuiet (case_of w)
case_of-IsQuiet (received n) = tt
case_of-IsQuiet (ticked n) = tt
case_of-IsQuiet (drained n) = tt
case_of-IsQuiet shut_down = tt

cases-IsQuiet : (ws : List Work) → All IsQuiet (map case_of ws)
cases-IsQuiet [] = tt
cases-IsQuiet (w ∷ ws) = (case_of-IsQuiet w, cases-IsQuiet ws)

module _ {S : Type 0} (insert_batch : Option ℕ → List LogLine → S → S × Bool) where
  run_behind :
      (es fs : List Event) (q q' : BatchQueue S)
      → run insert_batch es q ≡ some q'
      → run insert_batch (es ++ fs) q ≡ run insert_batch fs q'
  unfolding run
  run_behind [] fs q q' h = let same : q ≡ q' = cc in ap (run insert_batch fs) same
  run_behind (e ∷ es) fs q q' h =
      let (q1, first, rest) = >>=-eq-some (step insert_batch e q) (run insert_batch es) h in
      rw first (run_behind es fs q1 q' rest)

  shrinks_at :
      (p : Phase) (w : Work) (q : BatchQueue S)
      → Ensures (λ q'. length q'.input ≤ length q.input) (step_at insert_batch p (case_of w) q)
  unfolding step_at receive flush drain shut
  shrinks_at running (received n) q = ground arith
  shrinks_at running (ticked n) q = ground arith
  shrinks_at running (drained n) q = omega arith
  shrinks_at running shut_down q = ground arith
  shrinks_at draining (received n) q = omega arith
  shrinks_at draining (ticked n) q = omega arith
  shrinks_at draining (drained n) q = ground arith
  shrinks_at draining shut_down q = omega arith
  shrinks_at stopped (received n) q = omega arith
  shrinks_at stopped (ticked n) q = omega arith
  shrinks_at stopped (drained n) q = omega arith
  shrinks_at stopped shut_down q = omega arith

  nearer_at :
      (p : Phase) (w : Work) (n : ℕ) (q : BatchQueue S)
      → q.phase ≡ p
      → IsNear (drains w + n) q
      → Ensures (IsNear n) (step_at insert_batch p (case_of w) q)
  unfolding step_at drain flush
  nearer_at running w n q e (inl h) = absurd (cc (e, h))
  nearer_at running w n q e (inr h) = absurd (cc (e, h.0))
  nearer_at draining w n q e (inl h) = absurd (cc (e, h))
  nearer_at draining (received k) n q e (inr h) = inr (h.0, omega (arith, h.1))
  nearer_at draining (ticked k) n q e (inr h) = inr (h.0, omega (arith, h.1))
  nearer_at draining shut_down n q e (inr h) = inr (h.0, omega (arith, h.1))
  nearer_at draining (drained k) n q e (inr h) = ground (arith, h.0, h.1)
  nearer_at stopped (received k) n q e h = inl e
  nearer_at stopped (ticked k) n q e h = inl e
  nearer_at stopped (drained k) n q e h = inl e
  nearer_at stopped shut_down n q e h = inl e

  shrinks :
      (w : Work) (q : BatchQueue S)
      → Ensures (λ q'. length q'.input ≤ length q.input) (step insert_batch (case_of w) q)
  unfolding step
  shrinks w q = shrinks_at q.phase w q

  nearer :
      (w : Work) (n : ℕ) (q : BatchQueue S)
      → IsNear (drains w + n) q
      → Ensures (IsNear n) (step insert_batch (case_of w) q)
  unfolding step
  nearer w n q h = nearer_at q.phase w n q refl h

  -- Behind the select that saw `done`.
  after_stops :
      (ws : List Work) (q : BatchQueue S)
      → IsNear (drains_in ws) q
      → (q' : BatchQueue S) × (run insert_batch (map case_of ws) q ≡ some q') × (q'.phase ≡ stopped)
  unfolding run
  after_stops [] q (inl h) = (q, refl, h)
  after_stops [] q (inr h) = absurd (omega (arith, h.1))
  after_stops (w ∷ ws) q h =
      let v = work insert_batch w q in
      let near : IsNear (drains_in ws) v.next =
        Ensures_of_eq (IsNear (drains_in ws)) _ (nearer w (drains_in ws) q h) v.went in
      let (q', went, ended) = after_stops ws v.next near in (q', rw v.went went, ended)

  -- Before it.
  before_goes :
      (ws : List Work) (q : BatchQueue S)
      → q.done ≡ true
      → (q' : BatchQueue S) × (run insert_batch (map case_of ws) q ≡ some q')
        × (q'.done ≡ true)
        × (length q'.input ≤ length q.input)
  unfolding run
  before_goes [] q d = (q, refl, d, omega arith)
  before_goes (w ∷ ws) q d =
      let v = work insert_batch w q in
      let less : length v.next.input ≤ length q.input =
        Ensures_of_eq (λ q'. length q'.input ≤ length q.input) _ (shrinks w q) v.went in
      let (q', went, done, short) = before_goes ws v.next (v.stays_done d) in
      (q', rw v.went went, done, omega (arith, less, short))

  sees_done_at :
      (p : Phase) (n : ℕ) (q : BatchQueue S)
      → q.phase ≡ p
      → q.done ≡ true
      → length q.input < n
      → Ensures (IsNear n) (step_at insert_batch p shuts q)
  unfolding step_at shut
  sees_done_at running n q e d h = simp d (inr (refl, h))
  sees_done_at draining n q e d h = inr (e, h)
  sees_done_at stopped n q e d h = inl e

  sees_done :
      (n : ℕ) (q : BatchQueue S)
      → q.done ≡ true
      → length q.input < n
      → Ensures (IsNear n) (step insert_batch shuts q)
  unfolding step
  sees_done n q d h = sees_done_at q.phase n q refl d h

  closed_stops :
      (before after : List Work) (q : BatchQueue S)
      → q.done ≡ true
      → length q.input < drains_in after
      → (q' : BatchQueue S) × (run insert_batch
            (map case_of before ++ (shuts ∷ map case_of after))
            q
          ≡ some q')
        × (q'.phase ≡ stopped)
  closed_stops before after q d h =
      let (q1, went, d1, short) = before_goes before q d in
      let v = work insert_batch shut_down q1 in
      let near : IsNear (drains_in after) v.next =
        Ensures_of_eq (IsNear (drains_in after)) _
          (sees_done (drains_in after) q1 d1 (omega (arith, h, short))) v.went in
      let (q2, rest, ended) = after_stops after v.next near in
      (
        q2,
        run_behind (map case_of before) (shuts ∷ map case_of after) q q1 went
            ∙ (unfold run in rw v.went rest),
        ended,
      )

  -- A queue that is closed while its goroutine runs, with no line arriving any more: whatever the
  -- goroutine's select takes before it sees that the queue is closed, lines or the ticker, and whatever
  -- comes between the rounds of the drain, once it has seen it and there was a round for each line in the
  -- channel and one more, the goroutine has stopped, the channel and the buffer are empty, and what
  -- they held was given to the store, in order, in some batches.
  pub close_ends :
      (before after : List Work) (q : BatchQueue S)
      → q.phase ≡ running
      → q.done ≡ false
      → length q.input < drains_in after
      → (q' : BatchQueue S) × (run insert_batch
            (closes ∷ (map case_of before ++ (shuts ∷ map case_of after)))
            q
          ≡ some q')
        × (q'.phase ≡ stopped)
        × (q'.input ≡ [])
        × (q'.buf ≡ [])
        × ((batches : List (List LogLine)) × (q'.store
              ≡ insert_all insert_batch (timeout_of q) batches q.store)
            × (flatten batches ≡ q.buf ++ q.input))
  close_ends before after q p d h =
      let es = closes ∷ (map case_of before ++ (shuts ∷ map case_of after)) in
      let quiet : All IsQuiet es = (
        tt,
        All-append IsQuiet (map case_of before) _ (cases-IsQuiet before) (tt, cases-IsQuiet after),
      ) in
      let (q', rest, ended) = closed_stops before after (record q { done = true }) refl h in
      let went : run insert_batch es q ≡ some q' =
        unfold run in rw (step-closes insert_batch q d) rest in
      let c : Conserved insert_batch (timeout_of q) q.store (q.buf ++ q.input) q' =
        subst (λ acc. Conserved insert_batch (timeout_of q) q.store acc q')
          (ap (λ t. (q.buf ++ q.input) ++ t) (accepted_quiet insert_batch es q quiet)
            ∙ append-nil _)
          (Ensures_of_eq _ _
            (run-Conserved insert_batch (timeout_of q) q.store es (q.buf ++ q.input) q (begin q))
            went) in
      elim (Ensures_of_eq IsEmptied _ (run-IsEmptied insert_batch es q quiet (inl (live q p)))
        went) [
          | inl still ↦ absurd (still ended)
          | inr (i, b) ↦
              (q', went, ended, i, b, (c.batches, c.stored, only_batches _ _ _ b i c.split))
        ]
    where
      begin :
          (q : BatchQueue S) → Conserved insert_batch (timeout_of q) q.store (q.buf ++ q.input) q
      begin q =
          unfold insert_all flatten in
          record { batches = []; timeout = refl; stored = refl; split = refl }

      live : (q : BatchQueue S) → q.phase ≡ running → q.phase ≡ stopped → ⊥
      live q p e = cc (p, e)
