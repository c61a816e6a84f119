-- ===== src/Storage/Queue/Drops.antt =====
-- Lines that a full channel turns away: they are counted, and reported at most once in an interval.
use grepod.Prelude.{
  ℕ, ◌+◌, ◌≡◌, Bool, true, false, Option, none, some, List, [], ◌∷◌, ◌++◌, length, length-append,
  ◌>>=◌, if◌then◌else◌, arith, Ensures, Ensures_of_eq,
}
use grepod.Prelude.Int.{ℤ}
use grepod.Metrics.{Metrics}
use grepod.Storage.Line.{LogLine}
use grepod.Storage.Queue.{
  new_batch_queue, BatchQueue, Warning, Event, offers, receives, ticks, drains, shuts, closes,
  Phase, running, draining, run, step, step_at, flush, receive, shut, drain, enqueue, close,
  has_room, record_drop,
}
use grepod.Storage.Queue.Given.{accepted, taken}

-- The number of drops that warnings have reported.
abbrev pub reported : List Warning → ℕ
reported [] = 0
reported (w ∷ ws) = w.count + reported ws

-- The lines that a schedule offers.
abbrev offered : Event → ℕ
offered (offers l now won) = 1
offered _ = 0

abbrev pub offered_in : List Event → ℕ
offered_in [] = 0
offered_in (e ∷ es) = offered e + offered_in es

-- The counter of dropped lines, where metrics are kept.
abbrev pub drops_counted : Option Metrics → ℕ → ℕ
drops_counted none n = n
drops_counted (some m) n = m.lines_dropped_total

pub record DropsAdd {S : Type 0} (before : BatchQueue S) (turned : ℕ) (after : BatchQueue S)
    : Type 0 where
  pub told :
      reported after.warnings + after.dropped ≡ reported before.warnings + before.dropped + turned
  pub counted :
      drops_counted after.metrics (reported after.warnings + after.dropped)
      ≡ drops_counted before.metrics (reported before.warnings + before.dropped) + turned

module _ {S : Type 0} (insert_batch : Option ℕ → List LogLine → S → S × Bool) where
  enqueue-DropsAdd :
      (l : LogLine) (now : ℕ) (won : Bool) (q : BatchQueue S)
      → DropsAdd q (if has_room q then 0 else 1) (enqueue l now won q)
  unfolding enqueue record_drop has_room
  enqueue-DropsAdd l now won q = ground arith

  flush-DropsAdd : (n : ℕ) (q : BatchQueue S) → DropsAdd q 0 (flush insert_batch n q)
  unfolding flush
  flush-DropsAdd n q = ground arith

  receive-DropsAdd : (n : ℕ) (q : BatchQueue S) → DropsAdd q 0 (receive insert_batch n q)
  unfolding receive flush
  receive-DropsAdd n q = ground arith

  drain-DropsAdd : (n : ℕ) (q : BatchQueue S) → DropsAdd q 0 (drain insert_batch n q)
  unfolding drain flush
  drain-DropsAdd n q = ground arith

  shut-DropsAdd : (q : BatchQueue S) → DropsAdd q 0 (shut q)
  unfolding shut
  shut-DropsAdd q = ground arith

  close-DropsAdd : (q : BatchQueue S) → Ensures (DropsAdd q 0) (close q)
  unfolding close
  close-DropsAdd q =
      elim q.done
        as (λ b. Ensures (DropsAdd q 0) (if b then none else some (record q { done = true }))) [
          | true ↦ tt
          | false ↦ record { told = omega arith; counted = omega arith }
        ]

  -- What became of the lines of a schedule: taken by the channel, or turned away and counted.
  abbrev Accounted : BatchQueue S → ℕ → List LogLine → BatchQueue S → Type 0
  Accounted q total kept q' = (turned : ℕ) × (length kept + turned ≡ total) × DropsAdd q turned q'

  step_at-Accounted :
      (p : Phase) (e : Event) (q : BatchQueue S)
      → Ensures (Accounted q (offered e) (taken e q)) (step_at insert_batch p e q)
  unfolding step_at taken
  step_at-Accounted p (offers l now won) q =
      (if has_room q then 0 else 1, ground arith, enqueue-DropsAdd l now won q)
  step_at-Accounted p closes q = close_accounted (close q) (close-DropsAdd q)
    where
      close_accounted :
          (m : Option (BatchQueue S)) → Ensures (DropsAdd q 0) m → Ensures (Accounted q 0 []) m
      close_accounted none d = tt
      close_accounted (some q') d = (0, omega arith, d)
  step_at-Accounted running (receives n) q = (0, omega arith, receive-DropsAdd n q)
  step_at-Accounted running (ticks n) q = (0, omega arith, flush-DropsAdd n q)
  step_at-Accounted running shuts q = (0, omega arith, shut-DropsAdd q)
  step_at-Accounted draining (drains n) q = (0, omega arith, drain-DropsAdd n q)
  step_at-Accounted _ _ q = (0, omega arith, record { told = omega arith; counted = omega arith })

  run-Accounted :
      (es : List Event) (q : BatchQueue S)
      → Ensures (Accounted q (offered_in es) (accepted insert_batch es q)) (run insert_batch es q)
  unfolding run accepted
  run-Accounted [] q = (0, omega arith, record { told = omega arith; counted = omega arith })
  run-Accounted (e ∷ es) q =
      go (run-Accounted es) (step insert_batch e q) (unfold step in step_at-Accounted q.phase e q)
    where
      go :
          ((q' : BatchQueue S)
            → Ensures
                (Accounted q' (offered_in es) (accepted insert_batch es q'))
                (run insert_batch es q'))
          → (m : Option (BatchQueue S)) → Ensures (Accounted q (offered e) (taken e q)) m
          → Ensures
              (Accounted q
                (offered e + offered_in es)
                (taken e q ++ elim m [ none ↦ [] | some q' ↦ accepted insert_batch es q' ]))
              (m >>= run insert_batch es)
      go rec none a = tt
      go rec (some q') (n, sum, add) = chain (run insert_batch es q') (rec q')
        where
          chain :
              (r : Option (BatchQueue S))
              → Ensures (Accounted q' (offered_in es) (accepted insert_batch es q')) r
              → Ensures
                  (Accounted q
                    (offered e + offered_in es)
                    (taken e q ++ accepted insert_batch es q'))
                  r
          chain none b = tt
          chain (some r) (k, sum', add') = (
            n + k,
            omega (arith, length-append (taken e q) (accepted insert_batch es q')),
            record {
              told = omega (arith, add.told, add'.told);
              counted = omega (arith, add.counted, add'.counted);
            },
          )

  module _ (store : S) (size interval timeout : ℤ) (m : Option Metrics) where
    abbrev start : BatchQueue S
    start = new_batch_queue store size interval timeout m

    -- After every schedule from a new queue: each line that was offered was either taken by the
    -- channel or turned away, the lines turned away are those that warnings have reported and those
    -- counted for the next warning, and the metric, where there are metrics, has grown by as many.
    pub drops_accounted :
        (es : List Event) (q : BatchQueue S)
        → run insert_batch es start ≡ some q
        → (length (accepted insert_batch es start) + (reported q.warnings + q.dropped)
            ≡ offered_in es)
          × (drops_counted q.metrics (reported q.warnings + q.dropped)
              ≡ drops_counted m 0 + (reported q.warnings + q.dropped))
    unfolding new_batch_queue
    drops_accounted es q h =
        let (n, sum, add) =
          Ensures_of_eq (Accounted start (offered_in es) (accepted insert_batch es start)) _
            (run-Accounted es start) h in
        (omega (arith, add.told), omega (arith, add.told, add.counted))
