-- ===== src/Storage/LastSeen/Tests.antt =====
-- LastSeen of internal/storage/sqlite.go on a small store.
use grepod.Prelude.{
  ℕ, ◌+◌, ◌*◌, ◌≡◌, refl, true, Option, none, some, [], ◌∷◌, nat_beq, if◌then◌else◌, codes, arith,
  Bool-cases, inl, inr, text_ltb,
}
use grepod.Storage.Line.{LogLine, Time}
use grepod.Storage.Shards.{day_length}
use grepod.Storage.Times.{format_time, parse_time}
use grepod.Storage.Dates.{format_date}
use grepod.Storage.Dates.Parse.{parse_date}
use grepod.Storage.Insert.{File, table, Store}
use grepod.Storage.LastSeen.{seen, never, marker_lookback_days, last_seen}
use grepod.Storage.LastSeen.Shard.{IsDated}
use grepod.Storage.LastSeen.Newest.{Verdict, last_seen_lem}

abbrev line : Time → LogLine
line t = record {
  pod = codes "web";
  namespace = codes "default";
  container = codes "app";
  timestamp = t;
  level = [];
  content = codes "hello";
}

-- Two lines on the third day, in the same second.
abbrev earlier : Time
earlier = 2 * day_length + 100_000_000

abbrev later : Time
later = 2 * day_length + 120_000_000

abbrev files : ℕ → Option File
files d = if nat_beq d 2 then some (table true (line earlier ∷ line later ∷ [])) else none

abbrev store : Store
store = record { files = files; dbs = [] }

abbrev now : Time
now = 5 * day_length

files-IsDated : (d : ℕ) → IsDated d (files d)
unfolding IsDated
files-IsDated d = elim (Bool-cases (nat_beq d 2)) [
  | inl e ↦ rw e (ground (arith, e), (ground (arith, e), tt))
  | inr e ↦ rw e tt
]

last_seen_lem_example :
    Verdict
      (codes "web")
      (codes "app")
      5
      store
      marker_lookback_days
      (last_seen (λ d. true) now (codes "web") (codes "app") store)
last_seen_lem_example =
    last_seen_lem (codes "web") (codes "app") now store (λ d h. files-IsDated d) (omega arith)

-- The text of the earlier of the two lines is the larger one, so that it is taken.
earlier_taken :
    (last_seen (λ d. true) now (codes "web") (codes "app") store ≡ seen earlier)
    × (text_ltb (format_time later) (format_time earlier) ≡ true)
    × (last_seen (λ d. true) now (codes "web") (codes "db") store ≡ never)
unfolding last_seen format_time parse_time parse_date format_date
earlier_taken = (refl, refl, refl)
