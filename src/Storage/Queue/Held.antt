-- ===== src/Storage/Queue/Held.antt =====
-- What the store holds while the queue works, where something else may change the store between the
-- batches: `Holds` says of a store that it holds some lines, and an insert adds a batch to them.
use grepod.Prelude.{
  ℕ, ◌≡◌, refl, Bool, true, false, Option, none, some, List, [], ◌∷◌, ◌++◌, append_assoc,
  append-nil, length, leb, if◌then◌else◌, inl, inr, Bool-cases, Ensures, arith,
}
use grepod.Storage.Line.{LogLine}
use grepod.Storage.Queue.{
  BatchQueue, Phase, running, draining, stopped, offers, step, step_at, flush, deliver, receive,
  shut, drain, enqueue, close, has_room, record_drop,
}
use grepod.Storage.Queue.Given.{taken}
use grepod.Storage.Queue.Owner.{Work, received, ticked, drained, shut_down, case_of}

-- The lines `acc` are in the store, and then in the buffer and the channel.
pub record Held {S : Type 0} (Holds : List LogLine → S → Type 0) (acc : List LogLine)
    (q : BatchQueue S) : Type 0 where
  pub flushed : List LogLine
  pub holds : Holds flushed q.store
  pub split : flushed ++ (q.buf ++ q.input) ≡ acc

module _ {S : Type 0} (Holds : List LogLine → S → Type 0) where
  record_drop-Held :
      (now : ℕ) (won : Bool) (acc : List LogLine) (q : BatchQueue S)
      → Held Holds acc q
      → Held Holds acc (record_drop now won q)
  unfolding record_drop
  record_drop-Held now won acc q c = record {
    flushed = c.flushed;
    holds = ground (arith, c.holds);
    split = ground (arith, c.split);
  }

  pub enqueue-Held :
      (l : LogLine) (now : ℕ) (won : Bool) (acc : List LogLine) (q : BatchQueue S)
      → Held Holds acc q
      → Held Holds (acc ++ taken (offers l now won) q) (enqueue l now won q)
  unfolding enqueue taken
  enqueue-Held l now won acc q c = elim (Bool-cases (has_room q)) [
    | inl room ↦ rw room (record {
      flushed = c.flushed;
      holds = c.holds;
      split = rw (← c.split) (simp append_assoc);
    })
    | inr full ↦ rw (full, append-nil acc) (record_drop-Held now won acc q c)
  ]

  pub close-Held :
      (acc : List LogLine) (q : BatchQueue S)
      → Held Holds acc q
      → Ensures (Held Holds acc) (close q)
  unfolding close
  close-Held acc q c =
      elim q.done
        as (λ b. Ensures (Held Holds acc) (if b then none else some (record q { done = true }))) [
          | true ↦ tt
          | false ↦ record { flushed = c.flushed; holds = c.holds; split = c.split }
        ]

  shut-Held : (acc : List LogLine) (q : BatchQueue S) → Held Holds acc q → Held Holds acc (shut q)
  unfolding shut
  shut-Held acc q c = elim (Bool-cases q.done) [
    | inl e ↦ simp e (record { flushed = c.flushed; holds = c.holds; split = c.split })
    | inr e ↦ simp e c
  ]

module _ {S : Type 0} (insert_batch : Option ℕ → List LogLine → S → S × Bool)
    (Holds : List LogLine → S → Type 0)
    (grows : (t : Option ℕ) (b f : List LogLine) (s : S)
      → Holds f s
      → Holds (f ++ b) (insert_batch t b s).0) where
  flush-Held :
      (n : ℕ) (acc : List LogLine) (q : BatchQueue S)
      → Held Holds acc q
      → Held Holds acc (flush insert_batch n q)
  unfolding flush
  flush-Held n acc q c = go q.buf refl
    where
      go :
          (b : List LogLine)
          → q.buf ≡ b
          → Held Holds acc (elim b [ [] ↦ q | l ∷ ls ↦ deliver insert_batch n (l ∷ ls) q ])
      go [] e = c
      go (l ∷ ls) e = record {
        flushed = c.flushed ++ (l ∷ ls);
        holds = grows _ (l ∷ ls) c.flushed q.store c.holds;
        split = cc (e, c.split, append_assoc c.flushed (l ∷ ls) q.input);
      }

  -- A line moves from the channel's head to the buffer's end.
  move-Held :
      (acc : List LogLine) (q : BatchQueue S) (l : LogLine) (rest : List LogLine)
      → q.input ≡ l ∷ rest
      → Held Holds acc q
      → Held Holds acc (record q { input = rest; buf = q.buf ++ l ∷ [] })
  move-Held acc q l rest e c = record {
    flushed = c.flushed;
    holds = c.holds;
    split = cc (e, c.split, append_assoc q.buf (l ∷ []) rest);
  }

  receive-Held :
      (n : ℕ) (acc : List LogLine) (q : BatchQueue S)
      → Held Holds acc q
      → Held Holds acc (receive insert_batch n q)
  unfolding receive
  receive-Held n acc q c = go q.input refl
    where
      go :
          (i : List LogLine)
          → q.input ≡ i
          → Held Holds acc (elim i [
            | [] ↦ q
            | l ∷ rest ↦
                let q' = record q { input = rest; buf = q.buf ++ l ∷ [] } in
                if leb q.size (length q'.buf) then flush insert_batch n q' else q'
          ])
      go [] e = c
      go (l ∷ rest) e =
          let moved = move-Held acc q l rest e c in
          elim (leb q.size (length (q.buf ++ l ∷ [])))
            as (λ b. Held Holds acc (
              if b
              then flush insert_batch n (record q { input = rest; buf = q.buf ++ l ∷ [] })
              else record q { input = rest; buf = q.buf ++ l ∷ [] })) [
                | true ↦ flush-Held n acc _ moved
                | false ↦ moved
              ]

  drain-Held :
      (n : ℕ) (acc : List LogLine) (q : BatchQueue S)
      → Held Holds acc q
      → Held Holds acc (drain insert_batch n q)
  unfolding drain
  drain-Held n acc q c = go q.input refl
    where
      go :
          (i : List LogLine)
          → q.input ≡ i
          → Held Holds acc (elim i [
            | [] ↦ record (flush insert_batch n q) { phase = stopped }
            | l ∷ rest ↦ record q { input = rest; buf = q.buf ++ l ∷ [] }
          ])
      go [] e =
          let flushed = flush-Held n acc q c in
          record { flushed = flushed.flushed; holds = flushed.holds; split = flushed.split }
      go (l ∷ rest) e = move-Held acc q l rest e c

  work_at-Held :
      (p : Phase) (w : Work) (acc : List LogLine) (q : BatchQueue S)
      → Held Holds acc q
      → Ensures (Held Holds acc) (step_at insert_batch p (case_of w) q)
  unfolding step_at
  work_at-Held running (received n) acc q c = receive-Held n acc q c
  work_at-Held running (ticked n) acc q c = flush-Held n acc q c
  work_at-Held running (drained n) acc q c = c
  work_at-Held running shut_down acc q c = shut-Held Holds acc q c
  work_at-Held draining (received n) acc q c = c
  work_at-Held draining (ticked n) acc q c = c
  work_at-Held draining (drained n) acc q c = drain-Held n acc q c
  work_at-Held draining shut_down acc q c = c
  work_at-Held stopped (received n) acc q c = c
  work_at-Held stopped (ticked n) acc q c = c
  work_at-Held stopped (drained n) acc q c = c
  work_at-Held stopped shut_down acc q c = c

  pub work-Held :
      (w : Work) (acc : List LogLine) (q : BatchQueue S)
      → Held Holds acc q
      → Ensures (Held Holds acc) (step insert_batch (case_of w) q)
  unfolding step
  work-Held w acc q c = work_at-Held q.phase w acc q c
