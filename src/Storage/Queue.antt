-- ===== src/Storage/Queue.antt =====
-- internal/storage/queue.go: the batch queue between the tailers and the store.
-- The channel `q.in` is a list of at most `size * 4` lines, the oldest first. The goroutine `run`
-- is a program counter with one handler for each case of its select; `step` takes one event of a
-- schedule, and leaves the state as it was where the select would not take that case. Closing a
-- closed channel panics, which is `none`. The store is a parameter: `insert_batch` is given the
-- timeout of its context, and returns the new store and whether it failed.
pub mod Given
pub mod Conserve
pub mod Shutdown
pub mod Owner
pub mod Closing
pub mod Held
pub mod Bounds
pub mod Drops
pub mod Warnings
pub mod Pipeline
mod Runs
mod Tests
use grepod.Prelude.{
  ℕ, suc, ◌+◌, ◌*◌, ◌≡◌, Bool, true, false, Option, none, some, List, [], ◌∷◌, ◌++◌, length, ltb,
  leb, nat_beq, if◌then◌else◌, not, ◌&&◌, ◌>>=◌,
}
use grepod.Prelude.Int.{ℤ, is_positive, magnitude}
use grepod.Metrics.{Metrics}
use grepod.Storage.Line.{LogLine, Time}

-- Nanoseconds in a second.
abbrev pub second : ℕ
second = 1_000_000_000

abbrev pub drop_warn_interval : ℕ
drop_warn_interval = 5 * second

abbrev pub default_insert_timeout : ℕ
default_insert_timeout = 30 * second

abbrev pub default_batch_interval : ℕ
default_batch_interval = 15 * second

-- Where the goroutine `run` stands.
pub data Phase : Type 0 where
  running draining stopped : Phase

-- A "queue full" warning: when it was logged, and the count that it reports.
pub record Warning : Type 0 where
  pub at : ℕ
  pub count : ℕ

pub record BatchQueue (S : Type 0) : Type 0 where
  pub buf : List LogLine
  pub size : ℕ
  pub interval : ℕ
  pub insert_timeout : ℕ
  pub store : S
  pub input : List LogLine
  pub done : Bool
  pub phase : Phase
  pub metrics : Option Metrics
  pub dropped : ℕ
  pub last_warned_at : ℕ
  pub warnings : List Warning

abbrev pub or_default : ℤ → ℕ → ℕ
or_default n d = if is_positive n then magnitude n else d

unfoldable pub new_batch_queue : {S : Type 0} → S → ℤ → ℤ → ℤ → Option Metrics → BatchQueue S
new_batch_queue store size interval insert_timeout m = record {
  buf = [];
  size = or_default size 200;
  interval = or_default interval default_batch_interval;
  insert_timeout = or_default insert_timeout default_insert_timeout;
  store = store;
  input = [];
  done = false;
  phase = running;
  metrics = m;
  dropped = 0;
  last_warned_at = 0;
  warnings = [];
}

count_drop : Option Metrics → Option Metrics
count_drop none = none
count_drop (some m) = some (record m { lines_dropped_total = m.lines_dropped_total + 1 })

count_insert : Bool → ℕ → Option Metrics → Option Metrics
count_insert failed elapsed none = none
count_insert failed elapsed (some m) = some (record m {
  insert_requests_total = m.insert_requests_total + 1;
  insert_duration = elapsed ∷ m.insert_duration;
  insert_errors_total = if failed then m.insert_errors_total + 1 else m.insert_errors_total;
})

module _ {S : Type 0} where
  -- `last` is the time that the goroutine loaded, and `won` whether its CompareAndSwap succeeds.
  -- `now - last` is signed in Go: the test is on the sum.
  pub record_drop : ℕ → Bool → BatchQueue S → BatchQueue S
  unfolding count_drop
  record_drop now won q =
      let counted = record q { dropped = q.dropped + 1; metrics = count_drop q.metrics } in
      if not (nat_beq q.last_warned_at 0) && ltb now (q.last_warned_at + drop_warn_interval)
      then counted
      else if won
      then record counted {
        last_warned_at = now;
        dropped = 0;
        warnings = record { at = now; count = counted.dropped } ∷ q.warnings;
      }
      else counted

  pub has_room : BatchQueue S → Bool
  has_room q = ltb (length q.input) (q.size * 4)

  pub enqueue : LogLine → ℕ → Bool → BatchQueue S → BatchQueue S
  enqueue l now won q =
      if has_room q then record q { input = q.input ++ l ∷ [] } else record_drop now won q

  -- case <-q.done
  unfoldable pub shut : BatchQueue S → BatchQueue S
  shut q = if q.done then record q { phase = draining } else q

  unfoldable pub close : BatchQueue S → Option (BatchQueue S)
  close q = if q.done then none else some (record q { done = true })

module _ {S : Type 0} (insert_batch : Option ℕ → List LogLine → S → S × Bool) where
  -- The part of `flush` behind its guard: the buffer is taken, and the batch inserted. A batch that
  -- the store refuses is logged, and not kept.
  pub deliver : ℕ → List LogLine → BatchQueue S → BatchQueue S
  unfolding count_insert
  deliver elapsed batch q =
      let timeout = if ltb 0 q.insert_timeout then some q.insert_timeout else none in
      let (store', failed) = insert_batch timeout batch q.store in
      record q { buf = []; store = store'; metrics = count_insert failed elapsed q.metrics }

  pub flush : ℕ → BatchQueue S → BatchQueue S
  unfolding deliver
  flush elapsed q = elim q.buf [ [] ↦ q | l ∷ ls ↦ deliver elapsed (l ∷ ls) q ]

  -- case l := <-q.in
  pub receive : ℕ → BatchQueue S → BatchQueue S
  receive elapsed q = elim q.input [
    | [] ↦ q
    | l ∷ rest ↦
        let q' = record q { input = rest; buf = q.buf ++ l ∷ [] } in
        if leb q.size (length q'.buf) then flush elapsed q' else q'
  ]

  -- One round of `drainChannel`; when the channel is empty, the last flush follows.
  unfoldable pub drain : ℕ → BatchQueue S → BatchQueue S
  drain elapsed q = elim q.input [
    | [] ↦ record (flush elapsed q) { phase = stopped }
    | l ∷ rest ↦ record q { input = rest; buf = q.buf ++ l ∷ [] }
  ]

-- What can happen next: a tailer offers a line, the goroutine takes a case of its select or a round
-- of the drain, or the owner closes the queue. The numbers are clock readings and durations.
pub data Event : Type 0 where
  offers : LogLine → ℕ → Bool → Event
  receives ticks drains : ℕ → Event
  shuts closes : Event

module _ {S : Type 0} (insert_batch : Option ℕ → List LogLine → S → S × Bool) where
  unfoldable pub step_at : Phase → Event → BatchQueue S → Option (BatchQueue S)
  step_at p (offers l now won) q = some (enqueue l now won q)
  step_at p closes q = close q
  step_at running (receives n) q = some (receive insert_batch n q)
  step_at running (ticks n) q = some (flush insert_batch n q)
  step_at running shuts q = some (shut q)
  step_at draining (drains n) q = some (drain insert_batch n q)
  step_at _ _ q = some q

  unfoldable pub step : Event → BatchQueue S → Option (BatchQueue S)
  unfolding step_at
  step e q = step_at q.phase e q

  unfoldable pub run : List Event → BatchQueue S → Option (BatchQueue S)
  run [] q = some q
  run (e ∷ es) q = step e q >>= run es
