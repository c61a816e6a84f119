-- ===== src/Storage/Queue/Bounds.antt =====
-- The memory that the queue holds, and when it can panic.
use grepod.Prelude.{
  ℕ, zero, suc, ◌+◌, ◌*◌, ◌≤◌, ◌<◌, ◌≡◌, refl, ◌∙◌, ◌≢◌, ◌⊎◌, inl, inr, Bool, true, false, Option,
  none, some, List, [], ◌∷◌, length, length-append, Bool-cases, if◌then◌else◌, arith, Ensures,
  Ensures_of_eq,
}
use grepod.Prelude.Int.{ℤ, pos, negsuc}
use grepod.Metrics.{Metrics}
use grepod.Storage.Line.{LogLine}
use grepod.Storage.Queue.{
  new_batch_queue, or_default, BatchQueue, Event, offers, receives, ticks, drains, shuts, closes,
  Phase, running, draining, run, step, step_at, flush, receive, shut, drain, enqueue, close,
  has_room, record_drop,
}
use grepod.Storage.Queue.Runs.{run_inv}

-- The channel is within its capacity, and the goroutine, while it runs, holds less than a batch.
pub record IsBounded {S : Type 0} (q : BatchQueue S) : Type 0 where
  pub positive : 0 < q.size
  pub room : length q.input ≤ q.size * 4
  pub short : (q.phase ≢ running) ⊎ (length q.buf < q.size)

-- The lines of a batch, by the size that is asked for.
abbrev pub batch_size : ℤ → ℕ
batch_size (pos zero) = 200
batch_size (pos (suc n)) = suc n
batch_size (negsuc n) = 200

or_default-size : (n : ℤ) → or_default n 200 ≡ batch_size n
or_default-size (pos zero) = refl
or_default-size (pos (suc n)) = refl
or_default-size (negsuc n) = refl

or_default_pos : (n : ℤ) → 0 < or_default n 200
or_default_pos (pos zero) = omega arith
or_default_pos (pos (suc n)) = omega arith
or_default_pos (negsuc n) = omega arith

module _ {S : Type 0} (insert_batch : Option ℕ → List LogLine → S → S × Bool) where
  enqueue-IsBounded :
      (l : LogLine) (now : ℕ) (won : Bool) (q : BatchQueue S)
      → IsBounded q
      → IsBounded (enqueue l now won q)
  unfolding enqueue has_room record_drop
  enqueue-IsBounded l now won q v = record {
    positive = ground arith;
    room = ground (arith, length-append q.input (l ∷ []));
    short = ground arith;
  }

  flush-IsBounded : (n : ℕ) (q : BatchQueue S) → IsBounded q → IsBounded (flush insert_batch n q)
  unfolding flush
  flush-IsBounded n q v = ground arith

  phase-receive : (n : ℕ) (q : BatchQueue S) → (receive insert_batch n q).phase ≡ q.phase
  unfolding receive flush
  phase-receive n q = ground arith

  receive-IsBounded :
      (n : ℕ) (q : BatchQueue S) → IsBounded q → IsBounded (receive insert_batch n q)
  unfolding receive flush
  receive-IsBounded n q v = record {
    positive = ground arith;
    room = ground arith;
    short = ground (arith, phase-receive n q);
  }

  size-enqueue :
      (l : LogLine) (now : ℕ) (won : Bool) (q : BatchQueue S) → (enqueue l now won q).size ≡ q.size
  unfolding enqueue record_drop
  size-enqueue l now won q = ground arith

  size-flush : (n : ℕ) (q : BatchQueue S) → (flush insert_batch n q).size ≡ q.size
  unfolding flush
  size-flush n q = ground arith

  size-receive : (n : ℕ) (q : BatchQueue S) → (receive insert_batch n q).size ≡ q.size
  unfolding receive flush
  size-receive n q = ground arith

  size-drain : (n : ℕ) (q : BatchQueue S) → (drain insert_batch n q).size ≡ q.size
  unfolding drain flush
  size-drain n q = ground arith

  drain-IsBounded :
      (n : ℕ) (q : BatchQueue S)
      → q.phase ≡ draining
      → IsBounded q
      → IsBounded (drain insert_batch n q)
  unfolding drain flush
  drain-IsBounded n q p v = record {
    positive = ground arith;
    room = ground arith;
    short = inl (ground arith);
  }

  shut-IsBounded : (q : BatchQueue S) → IsBounded q → IsBounded (shut q)
  unfolding shut
  shut-IsBounded q v = ground arith

  close-IsBounded : (q : BatchQueue S) → IsBounded q → Ensures IsBounded (close q)
  unfolding close
  close-IsBounded q v =
      elim q.done
        as (λ b. Ensures IsBounded (if b then none else some (record q { done = true }))) [
          | true ↦ tt
          | false ↦ record { positive = v.positive; room = v.room; short = v.short }
        ]

  step_at-IsBounded :
      (p : Phase) (e : Event) (q : BatchQueue S)
      → q.phase ≡ p
      → IsBounded q
      → Ensures IsBounded (step_at insert_batch p e q)
  unfolding step_at
  step_at-IsBounded p (offers l now won) q h v = enqueue-IsBounded l now won q v
  step_at-IsBounded p closes q h v = close-IsBounded q v
  step_at-IsBounded running (receives n) q h v = receive-IsBounded n q v
  step_at-IsBounded running (ticks n) q h v = flush-IsBounded n q v
  step_at-IsBounded running shuts q h v = shut-IsBounded q v
  step_at-IsBounded draining (drains n) q h v = drain-IsBounded n q h v
  step_at-IsBounded _ _ q h v = v

  module _ (store : S) (size interval timeout : ℤ) (m : Option Metrics) where
    new-IsBounded : IsBounded (new_batch_queue store size interval timeout m)
    unfolding new_batch_queue
    new-IsBounded = record {
      positive = or_default_pos size;
      room = omega arith;
      short = inr (or_default_pos size);
    }

    size-step_at :
        (p : Phase) (e : Event) (q : BatchQueue S)
        → q.size ≡ batch_size size
        → Ensures (λ q'. q'.size ≡ batch_size size) (step_at insert_batch p e q)
    unfolding step_at close shut
    size-step_at p (offers l now won) q h = size-enqueue l now won q ∙ h
    size-step_at p closes q h = elim (Bool-cases q.done) [ inl d ↦ simp d tt | inr d ↦ simp d h ]
    size-step_at running (receives n) q h = size-receive n q ∙ h
    size-step_at running (ticks n) q h = size-flush n q ∙ h
    size-step_at running shuts q h = ground (arith, h)
    size-step_at draining (drains n) q h = size-drain n q ∙ h
    size-step_at _ _ q h = h

    size-new : (new_batch_queue store size interval timeout m).size ≡ batch_size size
    unfolding new_batch_queue
    size-new = or_default-size size

    -- A batch has as many lines as NewBatchQueue is asked for, or 200 where that is not positive.
    -- After every schedule from a new queue, this is still its size, the channel holds at most four
    -- times as many lines, and the buffer less, as long as the goroutine runs, between two of its steps.
    pub run-IsBounded :
        (es : List Event) (q : BatchQueue S)
        → run insert_batch es (new_batch_queue store size interval timeout m) ≡ some q
        → (q.size ≡ batch_size size)
          × (length q.input ≤ batch_size size * 4)
          × ((q.phase ≢ running) ⊎ (length q.buf < batch_size size))
    run-IsBounded es q went =
        let v : IsBounded q =
          Ensures_of_eq IsBounded _
            (run_inv insert_batch IsBounded
              (λ e q' v. unfold step in step_at-IsBounded q'.phase e q' refl v) es _ new-IsBounded)
            went in
        let same : q.size ≡ batch_size size =
          Ensures_of_eq (λ q'. q'.size ≡ batch_size size) _
            (run_inv insert_batch (λ q'. q'.size ≡ batch_size size)
              (λ e q' h. unfold step in size-step_at q'.phase e q' h) es _ size-new)
            went in
        (same, rw (← same) v.room, rw (← same) v.short)

-- How often a schedule closes the queue.
abbrev closings : Event → ℕ
closings closes = 1
closings _ = 0

abbrev pub closings_in : List Event → ℕ
closings_in [] = 0
closings_in (e ∷ es) = closings e + closings_in es

spent : {S : Type 0} → BatchQueue S → ℕ
spent q = if q.done then 1 else 0

module _ {S : Type 0} (insert_batch : Option ℕ → List LogLine → S → S × Bool) where
  -- A step panics only if it is a second closing.
  step_at_goes :
      (p : Phase) (e : Event) (q : BatchQueue S)
      → closings e + spent q ≤ 1
      → (q' : BatchQueue S) × (step_at insert_batch p e q ≡ some q')
        × (spent q' ≡ closings e + spent q)
  unfolding step_at spent enqueue record_drop close receive flush drain shut
  step_at_goes p (offers l now won) q h = (_, refl, ground arith)
  step_at_goes p closes q h = (record q { done = true }, ground arith, ground arith)
  step_at_goes running (receives n) q h = (_, refl, ground arith)
  step_at_goes running (ticks n) q h = (_, refl, ground arith)
  step_at_goes running shuts q h = (_, refl, ground arith)
  step_at_goes draining (drains n) q h = (_, refl, ground arith)
  step_at_goes _ _ q h = (_, refl, ground arith)

  step_goes :
      (e : Event) (q : BatchQueue S)
      → closings e + spent q ≤ 1
      → (q' : BatchQueue S) × (step insert_batch e q ≡ some q') × (spent q' ≡ closings e + spent q)
  unfolding step
  step_goes e q h = step_at_goes q.phase e q h

  run_goes :
      (es : List Event) (q : BatchQueue S)
      → closings_in es + spent q ≤ 1
      → (q' : BatchQueue S) × (run insert_batch es q ≡ some q')
  unfolding run
  run_goes [] q h = (q, refl)
  run_goes (e ∷ es) q h =
      let (q', stepped, cost) = step_goes e q (omega arith) in
      let (q'', ran) = run_goes es q' (omega arith) in (q'', rw stepped ran)

  -- A schedule that closes a new queue at most once never panics.
  pub run_never_panics :
      (store : S) (size interval timeout : ℤ) (m : Option Metrics) (es : List Event)
      → closings_in es ≤ 1
      → run insert_batch es (new_batch_queue store size interval timeout m) ≢ none
  unfolding spent new_batch_queue
  run_never_panics store size interval timeout m es h e =
      let (q, ran) = run_goes es (new_batch_queue store size interval timeout m) (omega arith) in cc
