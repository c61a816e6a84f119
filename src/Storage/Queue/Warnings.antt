-- ===== src/Storage/Queue/Warnings.antt =====
-- The "queue full" warnings of recordDrop are spaced in time.
use grepod.Prelude.{
  ℕ, ◌+◌, ◌≤◌, ◌≡◌, ◌⊎◌, Bool, true, false, Option, none, some, List, [], ◌∷◌, if◌then◌else◌, arith,
  subst, refl, ◌++◌, Ensures, Ensures_of_eq,
}
use grepod.Prelude.Int.{ℤ}
use grepod.Metrics.{Metrics}
use grepod.Storage.Line.{LogLine}
use grepod.Storage.Queue.{
  new_batch_queue, BatchQueue, Warning, Event, offers, receives, ticks, drains, shuts, closes,
  Phase, running, draining, run, step, step_at, flush, receive, shut, drain, enqueue, close,
  record_drop, has_room, drop_warn_interval,
}
use grepod.Storage.Queue.Runs.{run_inv}

-- Each warning comes at least an interval after the one before it, unless that one came at the
-- epoch, which stands for never.
abbrev pub IsSpaced : List Warning → Type 0
IsSpaced [] = Unit
IsSpaced (w ∷ []) = Unit
IsSpaced (w ∷ v ∷ ws) = ((v.at ≡ 0) ⊎ (v.at + drop_warn_interval ≤ w.at)) × IsSpaced (v ∷ ws)

-- The time of the last warning, 0 where there was none.
abbrev latest : List Warning → ℕ
latest [] = 0
latest (w ∷ ws) = w.at

record IsQuietLog {S : Type 0} (q : BatchQueue S) : Type 0 where
  spaced : IsSpaced q.warnings
  remembered : q.last_warned_at ≡ latest q.warnings

module _ {S : Type 0} (insert_batch : Option ℕ → List LogLine → S → S × Bool) where
  record_drop-IsQuietLog :
      (now : ℕ) (won : Bool) (q : BatchQueue S) → IsQuietLog q → IsQuietLog (record_drop now won q)
  unfolding record_drop
  record_drop-IsQuietLog now won q v = go q.warnings v.spaced v.remembered
    where
      go :
          (ws : List Warning)
          → IsSpaced ws
          → q.last_warned_at ≡ latest ws
          → IsQuietLog (record_drop now won (record q { warnings = ws }))
      go [] spaced e = record { spaced = ground arith; remembered = ground arith }
      go (w ∷ ws) spaced e = record { spaced = ground arith; remembered = ground arith }

  flush-IsQuietLog : (n : ℕ) (q : BatchQueue S) → IsQuietLog q → IsQuietLog (flush insert_batch n q)
  unfolding flush
  flush-IsQuietLog n q v = record {
    spaced = subst IsSpaced (ground arith) v.spaced;
    remembered = ground arith;
  }

  receive-IsQuietLog :
      (n : ℕ) (q : BatchQueue S) → IsQuietLog q → IsQuietLog (receive insert_batch n q)
  unfolding receive flush
  receive-IsQuietLog n q v = record {
    spaced = subst IsSpaced (ground arith) v.spaced;
    remembered = ground arith;
  }

  drain-IsQuietLog : (n : ℕ) (q : BatchQueue S) → IsQuietLog q → IsQuietLog (drain insert_batch n q)
  unfolding drain flush
  drain-IsQuietLog n q v = record {
    spaced = subst IsSpaced (ground arith) v.spaced;
    remembered = ground arith;
  }

  shut-IsQuietLog : (q : BatchQueue S) → IsQuietLog q → IsQuietLog (shut q)
  unfolding shut
  shut-IsQuietLog q v = record {
    spaced = subst IsSpaced (ground arith) v.spaced;
    remembered = ground arith;
  }

  enqueue-IsQuietLog :
      (l : LogLine) (now : ℕ) (won : Bool) (q : BatchQueue S)
      → IsQuietLog q
      → IsQuietLog (enqueue l now won q)
  unfolding enqueue
  enqueue-IsQuietLog l now won q v =
      elim (has_room q)
        as (λ b.
          IsQuietLog
            (if b then record q { input = q.input ++ l ∷ [] } else record_drop now won q)) [
              | true ↦ record { spaced = v.spaced; remembered = v.remembered }
              | false ↦ record_drop-IsQuietLog now won q v
            ]

  close-IsQuietLog : (q : BatchQueue S) → IsQuietLog q → Ensures IsQuietLog (close q)
  unfolding close
  close-IsQuietLog q v =
      elim q.done
        as (λ b. Ensures IsQuietLog (if b then none else some (record q { done = true }))) [
          | true ↦ tt
          | false ↦ record { spaced = v.spaced; remembered = v.remembered }
        ]

  step_at-IsQuietLog :
      (p : Phase) (e : Event) (q : BatchQueue S)
      → IsQuietLog q
      → Ensures IsQuietLog (step_at insert_batch p e q)
  unfolding step_at
  step_at-IsQuietLog p (offers l now won) q v = enqueue-IsQuietLog l now won q v
  step_at-IsQuietLog p closes q v = close-IsQuietLog q v
  step_at-IsQuietLog running (receives n) q v = receive-IsQuietLog n q v
  step_at-IsQuietLog running (ticks n) q v = flush-IsQuietLog n q v
  step_at-IsQuietLog running shuts q v = shut-IsQuietLog q v
  step_at-IsQuietLog draining (drains n) q v = drain-IsQuietLog n q v
  step_at-IsQuietLog _ _ q v = v

  -- After every schedule from a new queue, any two successive "queue full" warnings are at least
  -- five seconds apart, unless the earlier was logged at the epoch.
  pub warnings-IsSpaced :
      (store : S) (size interval timeout : ℤ) (m : Option Metrics) (es : List Event)
      (q : BatchQueue S)
      → run insert_batch es (new_batch_queue store size interval timeout m) ≡ some q
      → IsSpaced q.warnings
  unfolding new_batch_queue
  warnings-IsSpaced store size interval timeout m es q h =
      (Ensures_of_eq IsQuietLog _
        (run_inv insert_batch IsQuietLog
          (λ e q' v. unfold step in step_at-IsQuietLog q'.phase e q' v) es
          (new_batch_queue store size interval timeout m)
          (record { spaced = tt; remembered = refl }))
        h).spaced
