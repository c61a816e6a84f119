-- ===== src/Storage/Queue/Pipeline/Stored.antt =====
-- Every line that the queue took is in the shard of its day once the queue has been closed.
use mathlib.Core.List.{flatten}
use grepod.Prelude.{
  ℕ, ◌≡◌, ◌≢◌, refl, sym, ap, ◌∙◌, Bool, true, false, Option, some, List, [], ◌∷◌, ◌++◌,
  append_assoc, append-nil, contains, keep, nat_beq, Distinct, All, inl, inr, Bool-cases,
}
use grepod.Prelude.Int.{ℤ}
use grepod.Metrics.{Metrics}
use grepod.Storage.Line.{LogLine}
use grepod.Storage.Shards.{day_of}
use grepod.Storage.Insert.{Store, Faults, group_of}
use grepod.Storage.Insert.Opened.{rows_of, IsReady}
use grepod.Storage.Insert.Atomic.{insert_batch_stores}
use grepod.Storage.Insert.Works.{NoFaults, insert_batch_works}
use grepod.Storage.Queue.{BatchQueue, Event, run, new_batch_queue, stopped}
use grepod.Storage.Queue.Given.{accepted, insert_all, IsQuiet}
use grepod.Storage.Queue.Shutdown.{close_loses_none}
use grepod.Storage.Queue.Pipeline.{store_insert}

pub keep-append {ℓ} :
    {A : Type ℓ} (p : A → Bool) (xs ys : List A) → keep p (xs ++ ys) ≡ keep p xs ++ keep p ys
keep-append p [] ys = refl
keep-append p (x ∷ xs) ys = elim (Bool-cases (p x)) [
  | inl e ↦ rw e (ap (λ t. x ∷ t) (keep-append p xs ys))
  | inr e ↦ rw e (keep-append p xs ys)
]

-- The days of a batch, each once: the keys of `byDate`.
pub record DaysOf (days : List LogLine → List ℕ) : Type 0 where
  pub once : (lines : List LogLine) → Distinct (days lines)
  pub covers :
      (lines : List LogLine) → All (λ l. contains (days lines) (day_of l.timestamp) ≡ true) lines

module _ (faults : Faults) (days : List LogLine → List ℕ) (fine : NoFaults faults)
    (keys : DaysOf days) where
  pub batch_stored :
      (t : Option ℕ) (b : List LogLine) (s : Store)
      → IsReady s
      → IsReady (store_insert faults days t b s).0
        × ((date : ℕ)
            → rows_of ((store_insert faults days t b s).0.files date)
              ≡ rows_of (s.files date) ++ group_of date b)
  unfolding store_insert
  batch_stored t b s v =
      insert_batch_stores faults false (days b) b s (keys.once b) (keys.covers b) v
        (insert_batch_works faults fine (days b) b s)

  batches_stored :
      (t : Option ℕ) (bs : List (List LogLine)) (s : Store)
      → IsReady s
      → (date : ℕ)
      → rows_of ((insert_all (store_insert faults days) t bs s).files date)
        ≡ rows_of (s.files date) ++ group_of date (flatten bs)
  unfolding insert_all flatten
  batches_stored t [] s v date = sym (append-nil _)
  batches_stored t (b ∷ bs) s v date =
      let (v', grown) = batch_stored t b s v in
      batches_stored t bs _ v' date
      ∙ (ap (λ r. r ++ group_of date (flatten bs)) (grown date)
          ∙ (append_assoc (rows_of (s.files date)) (group_of date b) (group_of date (flatten bs))
              ∙ ap (λ r. rows_of (s.files date) ++ r)
                  (sym (keep-append (λ l. nat_beq (day_of l.timestamp) date) b (flatten bs)))))

  -- Where SQLite refuses nothing, no insert's context has ended, the days of each batch are taken
  -- once each, in any order, and the handles of the store stand for files with the table: after any
  -- schedule from a new queue, once no more line is offered and the goroutine has stopped, the shard of
  -- each day holds what it held before, and behind it all the lines of that day that the channel ever
  -- took, in their order. (The goroutine has not stopped where the quiet part begins.)
  pub accepted_stored :
      (store : Store) (size interval timeout : ℤ) (m : Option Metrics) (es fs : List Event)
      (q q' : BatchQueue Store)
      → IsReady store
      → run (store_insert faults days) es (new_batch_queue store size interval timeout m) ≡ some q
      → q.phase ≢ stopped
      → All IsQuiet fs
      → run (store_insert faults days) fs q ≡ some q'
      → q'.phase ≡ stopped
      → (date : ℕ)
      → rows_of (q'.store.files date)
        ≡ rows_of (store.files date)
          ++ group_of date (
              accepted
                (store_insert faults days)
                es
                (new_batch_queue store size interval timeout m))
  accepted_stored store size interval timeout m es fs q q' v h live quiet h' ended date =
      let (bs, stored, whole, input, buf) =
        close_loses_none (store_insert faults days) store size interval timeout m es fs q q' h live
          quiet h' ended in
      ap (λ s. rows_of (s.files date)) stored
      ∙ (batches_stored _ bs store v date
          ∙ ap (λ ls. rows_of (store.files date) ++ group_of date ls) whole)
