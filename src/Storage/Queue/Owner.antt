-- ===== src/Storage/Queue/Owner.antt =====
-- The queue as its owner sees it: steps of the goroutine, lines that are offered, and Close.
pub mod Stops
use grepod.Prelude.{
  ℕ, ◌≡◌, refl, ◌∙◌, ap, Bool, true, false, Option, some, List, [], ◌∷◌, ◌++◌, arith, >>=-eq-some,
  sym,
}
use grepod.Storage.Line.{LogLine}
use grepod.Storage.Queue.{
  BatchQueue, Event, offers, receives, ticks, drains, shuts, closes, Phase, running, draining,
  stopped, run, step, step_at, flush, receive, shut, drain, enqueue, close, record_drop,
}

-- A case of the goroutine's select, or a round of its drain.
pub data Work : Type 0 where
  received ticked drained : ℕ → Work
  shut_down : Work

abbrev pub case_of : Work → Event
case_of (received n) = receives n
case_of (ticked n) = ticks n
case_of (drained n) = drains n
case_of shut_down = shuts

module _ {S : Type 0} where
  -- The goroutine is at its select, and Close has not been called.
  pub record IsOpen (q : BatchQueue S) : Type 0 where
    pub at_select : q.phase ≡ running
    pub not_done : q.done ≡ false

  pub close-IsOpen : (q : BatchQueue S) → q.done ≡ false → close q ≡ some (record q { done = true })
  unfolding close
  close-IsOpen q h = simp h refl

  pub enqueue-IsOpen :
      (l : LogLine) (now : ℕ) (won : Bool) (q : BatchQueue S)
      → IsOpen q
      → IsOpen (enqueue l now won q)
  unfolding enqueue record_drop
  enqueue-IsOpen l now won q v = record {
    at_select = ground (arith, v.at_select);
    not_done = ground (arith, v.not_done);
  }

pub enqueue-done :
    {S : Type 0} (l : LogLine) (now : ℕ) (won : Bool) (q : BatchQueue S)
    → q.done ≡ true
    → (enqueue l now won q).done ≡ true
unfolding enqueue record_drop
enqueue-done l now won q d = ground (arith, d)

running-draining : running ≡ draining → ⊥
running-draining e = cc

module _ {S : Type 0} (insert_batch : Option ℕ → List LogLine → S → S × Bool) where
  pub step-closes :
      (q : BatchQueue S)
      → q.done ≡ false
      → step insert_batch closes q ≡ some (record q { done = true })
  unfolding step step_at close
  step-closes q h = simp h refl

  phase-flush : (n : ℕ) (q : BatchQueue S) → (flush insert_batch n q).phase ≡ q.phase
  unfolding flush
  phase-flush n q = ground arith

  -- A step of the goroutine from a phase.
  record WorkedAt (p : Phase) (w : Work) (q : BatchQueue S) : Type 0 where
    next : BatchQueue S
    went : step_at insert_batch p (case_of w) q ≡ some next
    stays_open : IsOpen q → IsOpen next
    stays_stopped : p ≡ stopped → next ≡ q
    stays_done : q.done ≡ true → next.done ≡ true

  idle :
      (p : Phase) (w : Work) (q : BatchQueue S)
      → step_at insert_batch p (case_of w) q ≡ some q
      → WorkedAt p w q
  idle p w q e = record {
    next = q;
    went = e;
    stays_open = λ v. v;
    stays_stopped = λ h. refl;
    stays_done = λ h. h;
  }

  work_at : (p : Phase) (w : Work) (q : BatchQueue S) → q.phase ≡ p → WorkedAt p w q
  unfolding step_at
  work_at running (received n) q e = record {
    next = receive insert_batch n q;
    went = refl;
    stays_open = λ v.
        unfold receive flush in
        record { at_select = ground (arith, v.at_select); not_done = ground (arith, v.not_done) };
    stays_stopped = λ h. cc;
    stays_done = λ h. unfold receive flush in ground (arith, h);
  }
  work_at running (ticked n) q e = record {
    next = flush insert_batch n q;
    went = refl;
    stays_open = λ v.
        unfold flush in
        record { at_select = ground (arith, v.at_select); not_done = ground (arith, v.not_done) };
    stays_stopped = λ h. cc;
    stays_done = λ h. unfold flush in ground (arith, h);
  }
  work_at running (drained n) q e = idle running (drained n) q refl
  work_at running shut_down q e = record {
    next = shut q;
    went = refl;
    stays_open = λ v.
        unfold shut in
        record {
          at_select = ground (arith, v.at_select, v.not_done);
          not_done = ground (arith, v.not_done);
        };
    stays_stopped = λ h. cc;
    stays_done = λ h. unfold shut in ground (arith, h);
  }
  work_at draining (received n) q e = idle draining (received n) q refl
  work_at draining (ticked n) q e = idle draining (ticked n) q refl
  work_at draining (drained n) q e = record {
    next = drain insert_batch n q;
    went = refl;
    stays_open = λ v. absurd (running-draining (sym v.at_select ∙ e));
    stays_stopped = λ h. cc;
    stays_done = λ h. unfold drain flush in ground (arith, h);
  }
  work_at draining shut_down q e = idle draining shut_down q refl
  work_at stopped (received n) q e = idle stopped (received n) q refl
  work_at stopped (ticked n) q e = idle stopped (ticked n) q refl
  work_at stopped (drained n) q e = idle stopped (drained n) q refl
  work_at stopped shut_down q e = idle stopped shut_down q refl

  -- A step of the goroutine, in any phase.
  pub record Worked (w : Work) (q : BatchQueue S) : Type 0 where
    pub next : BatchQueue S
    pub went : step insert_batch (case_of w) q ≡ some next
    pub stays_open : IsOpen q → IsOpen next
    pub stays_stopped : q.phase ≡ stopped → next.phase ≡ stopped
    pub stays_done : q.done ≡ true → next.done ≡ true

  pub work : (w : Work) (q : BatchQueue S) → Worked w q
  work w q =
      let at = work_at q.phase w q refl in
      record {
        next = at.next;
        went = unfold step in at.went;
        stays_open = at.stays_open;
        stays_stopped = λ h. ap (λ x. x.phase) (at.stays_stopped h) ∙ h;
        stays_done = at.stays_done;
      }
