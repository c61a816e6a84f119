-- ===== src/Storage/Retention/Cron/Daily.antt =====
-- The daily loop runs each day at three o'clock.
use grepod.Prelude.{ℕ, zero, suc, ◌+◌, ◌%◌, ◌≤◌, ◌<◌, ◌≡◌, refl, ap, ◌∙◌, List, [], ◌∷◌, arith, All}
use grepod.Prelude.Int.{ℤ}
use grepod.Storage.Line.{Time}
use grepod.Storage.Shards.{day_length}
use grepod.Storage.Insert.{Store}
use grepod.Storage.Retention.{cleanup_old_dbs}
use grepod.Storage.Retention.Cron.{
  three_hours, next_three_am, Wake, fires, stops, start_retention_cron,
}

-- The next three o'clock is ahead, by a day at most.
pub next_three_am-bounds :
    (now : Time)
    → (now < next_three_am now)
      × (next_three_am now ≤ now + day_length)
      × (next_three_am now % day_length ≡ three_hours)
unfolding next_three_am
next_three_am-bounds now = ground arith

-- Within a day of three o'clock, the next one is that of the next day.
next_three_am-next :
    (now x : ℕ)
    → x < day_length
    → next_three_am (next_three_am now + x) ≡ next_three_am now + day_length
unfolding next_three_am
next_three_am-next now x h = ground arith

-- A cleanup that is over before the next one is due.
abbrev pub IsPrompt : Wake → Type 0
IsPrompt stops = Unit
IsPrompt (fires c) = c.late + c.took < day_length

-- The cleanups before the loop is stopped.
abbrev pub rounds : List Wake → ℕ
rounds [] = 0
rounds (stops ∷ wakes) = 0
rounds (fires c ∷ wakes) = suc (rounds wakes)

-- The same time of day on so many days.
abbrev pub daily : Time → ℕ → List Time
daily first zero = []
daily first (suc k) = first ∷ daily (first + day_length) k

-- Where each cleanup is over within a day of the time it was due, the timers of StartRetentionCron fire
-- once a day, at the time of the first one, until it is stopped.
pub cron_daily :
    (n : ℤ) (now : Time) (wakes : List Wake) (s : Store)
    → All IsPrompt wakes
    → (start_retention_cron n now wakes s).1 ≡ daily (next_three_am now) (rounds wakes)
unfolding start_retention_cron
cron_daily n now [] s h = refl
cron_daily n now (stops ∷ wakes) s h = refl
cron_daily n now (fires c ∷ wakes) s h =
    let next = next_three_am now in
    let again =
      cron_daily n (next + c.late + c.took) wakes
        (cleanup_old_dbs c.faults c.removes c.entries (next + c.late) n s).0 h.1 in
    ap (λ t. next ∷ t)
      (again
        ∙ ap (λ t. daily t (rounds wakes))
            (ap next_three_am (omega arith) ∙ next_three_am-next now (c.late + c.took) h.0))
