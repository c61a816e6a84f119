-- ===== src/Storage/Retention/Cron.antt =====
-- internal/storage/sqlite.go: StartRetentionCron and nextThreeAM, on a clock in UTC.
pub mod Daily
pub mod Removal
use grepod.Prelude.{ℕ, ◌+◌, ◌*◌, Bool, true, false, Option, List, [], ◌∷◌, ltb, if◌then◌else◌}
use grepod.Prelude.Int.{ℤ}
use grepod.Storage.Line.{Time}
use grepod.Storage.Shards.{day_length, day_of}
use grepod.Storage.Insert.{Store, Faults}
use grepod.Storage.Retention.{Entry, cleanup_old_dbs}

abbrev pub three_hours : ℕ
three_hours = 10_800_000_000_000

unfoldable pub next_three_am : Time → Time
next_three_am now =
    let next = day_of now * day_length + three_hours in
    if ltb now next then next else next + day_length

-- A cleanup: how late after the time of its timer it begins, how long it takes, and what the file
-- system and SQLite answer in it.
pub record Cleanup : Type 0 where
  pub late : ℕ
  pub took : ℕ
  pub faults : Faults
  pub removes : ℕ → Bool
  pub entries : Option (List Entry)

-- What ends the wait of a round: the timer, or the closed channel `stop`.
pub data Wake : Type 0 where
  fires : Cleanup → Wake
  stops : Wake

-- The loop from the time `now` on: the store behind it, and the times for which its timers were set
-- and fired. An error of CleanupOldDBs is logged.
unfoldable pub start_retention_cron : ℤ → Time → List Wake → Store → Store × List Time
unfolding next_three_am
start_retention_cron n now [] s = (s, [])
start_retention_cron n now (stops ∷ wakes) s = (s, [])
start_retention_cron n now (fires c ∷ wakes) s =
    let next = next_three_am now in
    let began = next + c.late in
    let s' = (cleanup_old_dbs c.faults c.removes c.entries began n s).0 in
    let (s'', times) = start_retention_cron n (began + c.took) wakes s' in (s'', next ∷ times)
