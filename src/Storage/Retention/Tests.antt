-- ===== src/Storage/Retention/Tests.antt =====
-- A cleanup of internal/storage/sqlite.go on the tenth day, which keeps seven.
use grepod.Prelude.{
  ℕ, ◌*◌, ◌≡◌, refl, Bool, true, false, some, [], ◌∷◌, contains, if◌then◌else◌, codes, List, ◌+◌,
  ◌⊎◌, false, arith,
}
use grepod.Prelude.Int.{pos}
use grepod.Storage.Line.{LogLine, Time}
use grepod.Storage.Shards.{day_length}
use grepod.Storage.Insert.{table, Store, Faults}
use grepod.Storage.Insert.Opened.{rows_of, IsReady}
use grepod.Storage.Dates.{format_date}
use grepod.Storage.Dates.Parse.{parse_date}
use grepod.Storage.Retention.{
  retention_days, is_expired, cleanup_old_dbs, Entry, shard_days, db_name,
}
use grepod.Storage.Retention.Cron.{next_three_am, Cleanup, Wake, fires, stops, start_retention_cron}
use grepod.Storage.Retention.Cron.Daily.{rounds, daily, cron_daily}
use grepod.Storage.Retention.Cron.Removal.{cron_removes}
use grepod.Storage.Retention.Expired.{cleanup_old_dbs_lem}

abbrev line : LogLine
line = record {
  pod = codes "web";
  namespace = codes "default";
  container = codes "app";
  timestamp = 0;
  level = [];
  content = codes "hello";
}

-- A shard for each day, none of them open.
abbrev full : Store
full = record { files = λ date. some (table true (line ∷ [])); dbs = [] }

abbrev now : Time
now = 10 * day_length

-- No vacuum succeeds.
abbrev locked : Faults
locked = record {
  opens = λ date. false;
  inits = λ date. true;
  checks = λ date. true;
  drops = λ date. true;
  recreates = λ date. true;
  begins = λ date. true;
  prepares = λ date. true;
  executes = λ date l. true;
  commits = λ date. true;
}

abbrev removable : ℕ → Bool
removable date = true

-- The shards of two days, a shard of no day, and a directory.
abbrev pub listed : List Entry
listed =
    record { is_dir = false; name = codes "logs_0001-01-02.db" }
    ∷ record { is_dir = false; name = codes "logs_0001-01-02.db-wal" }
    ∷ record { is_dir = false; name = codes "logs_0001-01-10.db" }
    ∷ record { is_dir = true; name = codes "logs_0001-01-03.db" }
    ∷ []

names_read :
    (shard_days listed ≡ 1 ∷ 9 ∷ []) × (db_name (format_date 9) ≡ codes "logs_0001-01-10.db")
unfolding shard_days db_name format_date parse_date
names_read = (refl, refl)

cleanup_old_dbs_lem_example :
    let s' = (cleanup_old_dbs locked removable (some listed) now (pos 7) full).0 in
    IsReady s'
    × ((d : ℕ)
        → rows_of (s'.files d) ≡ (
            if contains (shard_days listed) d
            then (if is_expired now (retention_days (pos 7)) d then [] else rows_of (full.files d))
            else rows_of (full.files d)))
cleanup_old_dbs_lem_example =
    cleanup_old_dbs_lem locked removable listed now (pos 7) full (λ date. refl)
      (record { ready = λ date c. absurd (cc) })

-- The second day, at noon, with two cleanups before the loop is stopped.
abbrev noon : Time
noon = day_length + 43_200_000_000_000

abbrev cleanup : Cleanup
cleanup = record {
  late = 5;
  took = 1000;
  faults = locked;
  removes = removable;
  entries = some listed;
}

abbrev wakes : List Wake
wakes = fires cleanup ∷ stops ∷ []

cron_daily_example :
    (start_retention_cron (pos 7) noon (fires cleanup ∷ wakes) full).1
    ≡ daily (next_three_am noon) (rounds (fires cleanup ∷ wakes))
cron_daily_example =
    cron_daily (pos 7) noon (fires cleanup ∷ wakes) full (omega arith, (omega arith, (tt, tt)))

-- The tenth day, at noon: the cleanup of the eleventh removes the shard of the second.
cron_removes_example :
    let later = now + 43_200_000_000_000 in
    let s' = (start_retention_cron (pos 7) later (fires cleanup ∷ wakes) full).0 in
    ((d : ℕ)
      → contains (shard_days listed) d ≡ true
      → is_expired (next_three_am later + cleanup.late) (retention_days (pos 7)) d ≡ true
      → rows_of (s'.files d) ≡ [])
    × ((d : ℕ) → (rows_of (s'.files d) ≡ []) ⊎ (rows_of (s'.files d) ≡ rows_of (full.files d)))
cron_removes_example =
    cron_removes (pos 7) (now + 43_200_000_000_000) cleanup wakes full listed
      ((λ date. refl), ((λ date. refl), (tt, tt))) (record { ready = λ date c. absurd (cc) }) refl
