-- ===== src/Server/Shutdown/Lines.antt =====
-- Where the lines are that the queue's channel takes, whatever happens: in the store, the buffer or the
-- channel. `Holds` says of a store that it holds some lines, and the cleanups at hand leave them.
use grepod.Prelude.{
  ℕ, Bool, true, false, Option, none, some, List, [], ◌∷◌, ◌++◌, append_assoc, append-nil, contains,
  inl, inr, Bool-cases, Ensures, All, ◌>>=◌,
}
use grepod.Storage.Line.{LogLine, Time}
use grepod.Storage.Queue.{BatchQueue, close, step}
use grepod.Storage.Queue.Held.{Held, enqueue-Held, close-Held, work-Held}
use grepod.Storage.Queue.Owner.{Work, case_of}
use grepod.Storage.Retention.Cron.{Cleanup}
use grepod.Tailer.Run.{is_over, RunEvent, registers, notices, syncs, cancels, goes_on, exits}
use grepod.Server.Shutdown.{
  Stage, serving, shutting_down, awaiting, stopping_cron, cancelling, closing_queue, closing,
  closing_store, ended, CronPhase, sleeping, cleaning, Process, Happening, main_goes, manages,
  tails, works, wakes, cleans, sees_stop, is_stopped, main_step, manage, wake, see_stop, return_if,
  clean, tail, happen, happen_all, taken_by, accepted_in,
}

-- What is asked of the cleanups among what happens.
abbrev pub Spares : (Time → Cleanup → Type 0) → Happening → Type 0
Spares Spared (cleans now c) = Spared now c
Spares Spared _ = Unit

module _ {S : Type 0} (insert_batch : Option ℕ → List LogLine → S → S × Bool) (close_store : S → S)
    (clean_up : Time → Cleanup → S → S) (Holds : List LogLine → S → Type 0)
    (grows : (t : Option ℕ) (b f : List LogLine) (s : S)
      → Holds f s
      → Holds (f ++ b) (insert_batch t b s).0)
    (Spared : Time → Cleanup → Type 0)
    (stays : (now : Time) (c : Cleanup) (f : List LogLine) (s : S)
      → Spared now c
      → Holds f s
      → Holds f (clean_up now c s)) where
  abbrev HeldIn : List LogLine → Process S → Type 0
  HeldIn acc p = Held Holds acc p.queue

  main_step-Held :
      (stage : Stage) (acc : List LogLine) (p : Process S)
      → HeldIn acc p
      → Ensures (HeldIn acc) (main_step close_store stage p)
  unfolding main_step
  main_step-Held serving acc p c = c
  main_step-Held shutting_down acc p c = c
  main_step-Held awaiting acc p c = elim (Bool-cases (is_over p.run.phase)) [
    | inl h ↦ simp h c
    | inr h ↦ simp h c
  ]
  main_step-Held stopping_cron acc p c = c
  main_step-Held cancelling acc p c = c
  main_step-Held closing_queue acc p c = go (close p.queue) (close-Held Holds acc p.queue c)
    where
      go :
          (o : Option (BatchQueue S))
          → Ensures (Held Holds acc) o
          → Ensures (HeldIn acc) (do q ← o; some (record p { stage = closing; queue = q }))
      go none h = tt
      go (some q) h = h
  main_step-Held closing acc p c = elim (Bool-cases (is_stopped p.queue.phase)) [
    | inl h ↦ simp h c
    | inr h ↦ simp h c
  ]
  main_step-Held closing_store acc p c = c
  main_step-Held ended acc p c = c

  manage-Held :
      (e : RunEvent) (acc : List LogLine) (p : Process S) → HeldIn acc p → HeldIn acc (manage e p)
  unfolding manage
  manage-Held cancels acc p c = c
  manage-Held (registers ok) acc p c = c
  manage-Held (notices n) acc p c = c
  manage-Held (syncs oks) acc p c = c
  manage-Held goes_on acc p c = c
  manage-Held (exits k) acc p c = c

  tail-Held :
      (k : ℕ) (l : LogLine) (now : ℕ) (won : Bool) (acc : List LogLine) (p : Process S)
      → HeldIn acc p
      → HeldIn (acc ++ taken_by (tails k l now won) p) (tail k l now won p)
  unfolding tail
  tail-Held k l now won acc p c = elim (Bool-cases (contains p.run.running k)) [
    | inl h ↦ simp h (enqueue-Held Holds l now won acc p.queue c)
    | inr h ↦ simp (h, append-nil acc) c
  ]

  wake-Held :
      (k : CronPhase) (acc : List LogLine) (p : Process S) → HeldIn acc p → HeldIn acc (wake k p)
  wake-Held sleeping acc p c = c
  wake-Held _ acc p c = c

  return_if-Held :
      (b : Bool) (acc : List LogLine) (p : Process S) → HeldIn acc p → HeldIn acc (return_if b p)
  return_if-Held true acc p c = c
  return_if-Held false acc p c = c

  see_stop-Held :
      (k : CronPhase) (acc : List LogLine) (p : Process S)
      → HeldIn acc p
      → HeldIn acc (see_stop k p)
  see_stop-Held sleeping acc p c = return_if-Held p.cron_stopped acc p c
  see_stop-Held _ acc p c = c

  clean-Held :
      (k : CronPhase) (now : Time) (x : Cleanup) (acc : List LogLine) (p : Process S)
      → Spared now x
      → HeldIn acc p
      → HeldIn acc (clean (clean_up now x) k p)
  clean-Held cleaning now x acc p h c = record {
    flushed = c.flushed;
    holds = stays now x c.flushed p.queue.store h c.holds;
    split = c.split;
  }
  clean-Held _ now x acc p h c = c

  works-Held :
      (w : Work) (acc : List LogLine) (p : Process S)
      → HeldIn acc p
      → Ensures (HeldIn acc) (happen insert_batch close_store clean_up (works w) p)
  unfolding happen
  works-Held w acc p c =
      go (step insert_batch (case_of w) p.queue)
        (work-Held insert_batch Holds grows w acc p.queue c)
    where
      go :
          (o : Option (BatchQueue S))
          → Ensures (Held Holds acc) o
          → Ensures (HeldIn acc) (do q ← o; some (record p { queue = q }))
      go none h = tt
      go (some q) h = h

  happen-Held :
      (h : Happening) (acc : List LogLine) (p : Process S)
      → Spares Spared h
      → HeldIn acc p
      → Ensures (HeldIn (acc ++ taken_by h p)) (happen insert_batch close_store clean_up h p)
  happen-Held main_goes acc p s c =
      rw (append-nil acc) (unfold happen in main_step-Held p.stage acc p c)
  happen-Held (manages e) acc p s c = rw (append-nil acc) (unfold happen in manage-Held e acc p c)
  happen-Held (tails k l now won) acc p s c = unfold happen in tail-Held k l now won acc p c
  happen-Held (works w) acc p s c = rw (append-nil acc) (works-Held w acc p c)
  happen-Held wakes acc p s c = rw (append-nil acc) (unfold happen in wake-Held p.cron acc p c)
  happen-Held (cleans now x) acc p s c =
      rw (append-nil acc) (unfold happen in clean-Held p.cron now x acc p s c)
  happen-Held sees_stop acc p s c =
      rw (append-nil acc) (unfold happen in see_stop-Held p.cron acc p c)

  pub happen_all-Held :
      (hs : List Happening) (acc : List LogLine) (p : Process S)
      → All (Spares Spared) hs
      → HeldIn acc p
      → Ensures
          (HeldIn (acc ++ accepted_in insert_batch close_store clean_up hs p))
          (happen_all insert_batch close_store clean_up hs p)
  unfolding happen_all accepted_in
  happen_all-Held [] acc p s c = rw (append-nil acc) c
  happen_all-Held (h ∷ hs) acc p s c =
      go (λ q v. happen_all-Held hs (acc ++ taken_by h p) q s.1 v)
        (happen insert_batch close_store clean_up h p) (happen-Held h acc p s.0 c)
    where
      go :
          ((q : Process S)
            → HeldIn (acc ++ taken_by h p) q
            → Ensures
                (HeldIn
                  ((acc ++ taken_by h p) ++ accepted_in insert_batch close_store clean_up hs q))
                (happen_all insert_batch close_store clean_up hs q))
          → (m : Option (Process S)) → Ensures (HeldIn (acc ++ taken_by h p)) m
          → Ensures
              (HeldIn (
                acc
                ++ (taken_by h p ++ elim m [
                  | none ↦ []
                  | some q ↦ accepted_in insert_batch close_store clean_up hs q
                ])))
              (m >>= happen_all insert_batch close_store clean_up hs)
      go rec none v = tt
      go rec (some q) v =
          rw
            (← append_assoc acc (taken_by h p) (accepted_in insert_batch close_store clean_up hs q))
            (rec q v)
