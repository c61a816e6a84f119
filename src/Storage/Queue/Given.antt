-- ===== src/Storage/Queue/Given.antt =====
-- Where the lines are that the channel took: in the batches given to the store, the buffer and the
-- channel. Each operation keeps account of them.
use mathlib.Core.List.{flatten}
use grepod.Prelude.{
  ℕ, ◌≡◌, refl, Bool, true, false, Option, none, some, List, [], ◌∷◌, ◌++◌, append_assoc,
  append-nil, length, ltb, leb, if◌then◌else◌, inl, inr, Bool-cases, Ensures, All, arith,
}
use grepod.Storage.Line.{LogLine}
use grepod.Storage.Queue.{
  BatchQueue, Event, offers, closes, stopped, step, flush, deliver, receive, shut, drain, enqueue,
  close, has_room, record_drop,
}

flatten_snoc {ℓ} :
    {A : Type ℓ} (bs : List (List A)) (b : List A) → flatten (bs ++ b ∷ []) ≡ flatten bs ++ b
unfolding flatten
flatten_snoc [] b = append-nil b
flatten_snoc (c ∷ bs) b = simp (flatten_snoc bs b, append_assoc)

-- The line that an event puts into the channel.
unfoldable pub taken : {S : Type 0} → Event → BatchQueue S → List LogLine
taken (offers l now won) q = if has_room q then l ∷ [] else []
taken _ q = []

-- The bound on the context of an insert, none for context.Background().
abbrev pub timeout_of : {S : Type 0} → BatchQueue S → Option ℕ
timeout_of q = if ltb 0 q.insert_timeout then some q.insert_timeout else none

-- No line is offered.
abbrev pub IsQuiet : Event → Type 0
IsQuiet (offers l now won) = ⊥
IsQuiet _ = Unit {0}

taken_quiet : {S : Type 0} (e : Event) (q : BatchQueue S) → IsQuiet e → taken e q ≡ []
unfolding taken
taken_quiet (offers l now won) q u = absurd u
taken_quiet closes q u = refl
taken_quiet _ q u = refl

module _ {S : Type 0} (insert_batch : Option ℕ → List LogLine → S → S × Bool) where
  -- The lines that the channel takes over a schedule, in order.
  unfoldable pub accepted : List Event → BatchQueue S → List LogLine
  accepted [] q = []
  accepted (e ∷ es) q =
      taken e q ++ elim (step insert_batch e q) [ none ↦ [] | some q' ↦ accepted es q' ]

  pub accepted_quiet : (es : List Event) (q : BatchQueue S) → All IsQuiet es → accepted es q ≡ []
  unfolding accepted
  accepted_quiet [] q u = refl
  accepted_quiet (e ∷ es) q u =
      rw (taken_quiet e q u.0) (go (λ q'. accepted_quiet es q' u.1) (step insert_batch e q))
    where
      go :
          ((q' : BatchQueue S) → accepted es q' ≡ [])
          → (m : Option (BatchQueue S)) → elim m [ none ↦ [] | some q' ↦ accepted es q' ] ≡ []
      go rec none = refl
      go rec (some q') = rec q'

  -- The store after some batches, each inserted under the queue's timeout.
  unfoldable pub insert_all : Option ℕ → List (List LogLine) → S → S
  insert_all t [] s = s
  insert_all t (b ∷ bs) s = insert_all t bs (insert_batch t b s).0

  insert_all-append :
      (t : Option ℕ) (bs : List (List LogLine)) (b : List LogLine) (s : S)
      → insert_all t (bs ++ b ∷ []) s ≡ (insert_batch t b (insert_all t bs s)).0
  unfolding insert_all
  insert_all-append t [] b s = refl
  insert_all-append t (c ∷ bs) b s = insert_all-append t bs b (insert_batch t c s).0

  -- Where the lines `acc` are, when the store began as `s`.
  pub record Conserved (t : Option ℕ) (s : S) (acc : List LogLine) (q : BatchQueue S) : Type 0 where
    pub batches : List (List LogLine)
    pub timeout : timeout_of q ≡ t
    pub stored : q.store ≡ insert_all t batches s
    pub split : flatten batches ++ (q.buf ++ q.input) ≡ acc

  module _ (t : Option ℕ) (s : S) where
    pub flush-Conserved :
        (n : ℕ) (acc : List LogLine) (q : BatchQueue S)
        → Conserved t s acc q
        → Conserved t s acc (flush insert_batch n q)
    unfolding flush
    flush-Conserved n acc q c = go q.buf refl
      where
        go :
            (b : List LogLine)
            → q.buf ≡ b
            → Conserved t s acc (elim b [ [] ↦ q | l ∷ ls ↦ deliver insert_batch n (l ∷ ls) q ])
        go [] e = c
        go (l ∷ ls) e = record {
          batches = c.batches ++ (l ∷ ls) ∷ [];
          timeout = c.timeout;
          stored = cc (c.timeout, c.stored, insert_all-append t c.batches (l ∷ ls) s);
          split = cc (
            e,
            c.split,
            flatten_snoc c.batches (l ∷ ls),
            append_assoc (flatten c.batches) (l ∷ ls) q.input,
          );
        }

    -- A line moves from the channel's head to the buffer's end.
    move-Conserved :
        (acc : List LogLine) (q : BatchQueue S) (l : LogLine) (rest : List LogLine)
        → q.input ≡ l ∷ rest
        → Conserved t s acc q
        → Conserved t s acc (record q { input = rest; buf = q.buf ++ l ∷ [] })
    move-Conserved acc q l rest e c = record {
      batches = c.batches;
      timeout = c.timeout;
      stored = c.stored;
      split = cc (e, c.split, append_assoc q.buf (l ∷ []) rest);
    }

    pub receive-Conserved :
        (n : ℕ) (acc : List LogLine) (q : BatchQueue S)
        → Conserved t s acc q
        → Conserved t s acc (receive insert_batch n q)
    unfolding receive
    receive-Conserved n acc q c = go q.input refl
      where
        go :
            (i : List LogLine)
            → q.input ≡ i
            → Conserved t s acc (elim i [
              | [] ↦ q
              | l ∷ rest ↦
                  let q' = record q { input = rest; buf = q.buf ++ l ∷ [] } in
                  if leb q.size (length q'.buf) then flush insert_batch n q' else q'
            ])
        go [] e = c
        go (l ∷ rest) e =
            let moved = move-Conserved acc q l rest e c in
            elim (leb q.size (length (q.buf ++ l ∷ [])))
              as (λ b. Conserved t s acc (
                if b
                then flush insert_batch n (record q { input = rest; buf = q.buf ++ l ∷ [] })
                else record q { input = rest; buf = q.buf ++ l ∷ [] })) [
                  | true ↦ flush-Conserved n acc _ moved
                  | false ↦ moved
                ]

    pub drain-Conserved :
        (n : ℕ) (acc : List LogLine) (q : BatchQueue S)
        → Conserved t s acc q
        → Conserved t s acc (drain insert_batch n q)
    unfolding drain
    drain-Conserved n acc q c = go q.input refl
      where
        go :
            (i : List LogLine)
            → q.input ≡ i
            → Conserved t s acc (elim i [
              | [] ↦ record (flush insert_batch n q) { phase = stopped }
              | l ∷ rest ↦ record q { input = rest; buf = q.buf ++ l ∷ [] }
            ])
        go [] e =
            let flushed = flush-Conserved n acc q c in
            record {
              batches = flushed.batches;
              timeout = flushed.timeout;
              stored = flushed.stored;
              split = flushed.split;
            }
        go (l ∷ rest) e = move-Conserved acc q l rest e c

    pub record_drop-Conserved :
        (now : ℕ) (won : Bool) (acc : List LogLine) (q : BatchQueue S)
        → Conserved t s acc q
        → Conserved t s acc (record_drop now won q)
    unfolding record_drop
    record_drop-Conserved now won acc q c = record {
      batches = c.batches;
      timeout = ground arith;
      stored = ground arith;
      split = ground arith;
    }

    pub shut-Conserved :
        (acc : List LogLine) (q : BatchQueue S) → Conserved t s acc q → Conserved t s acc (shut q)
    unfolding shut
    shut-Conserved acc q c = record {
      batches = c.batches;
      timeout = ground arith;
      stored = ground arith;
      split = ground arith;
    }

    pub close-Conserved :
        (acc : List LogLine) (q : BatchQueue S)
        → Conserved t s acc q
        → Ensures (Conserved t s acc) (close q)
    unfolding close
    close-Conserved acc q c =
        elim q.done
          as (λ b.
            Ensures (Conserved t s acc) (if b then none else some (record q { done = true }))) [
              | true ↦ tt
              | false ↦ record {
                batches = c.batches;
                timeout = c.timeout;
                stored = c.stored;
                split = c.split;
              }
            ]

    pub enqueue-Conserved :
        (l : LogLine) (now : ℕ) (won : Bool) (acc : List LogLine) (q : BatchQueue S)
        → Conserved t s acc q
        → Conserved t s (acc ++ taken (offers l now won) q) (enqueue l now won q)
    unfolding enqueue taken
    enqueue-Conserved l now won acc q c = elim (Bool-cases (has_room q)) [
      | inl room ↦ rw room (record {
        batches = c.batches;
        timeout = c.timeout;
        stored = c.stored;
        split = rw (← c.split) (simp append_assoc);
      })
      | inr full ↦ rw (full, append-nil acc) (record_drop-Conserved now won acc q c)
    ]
