-- ===== src/Storage/LastSeen.antt =====
-- internal/storage/sqlite.go: LastSeen and lastSeenInShard, over the shard files. `answers` says of a
-- day whether SQLite opens its file and answers the query.
mod Largest
pub mod Shard
pub mod Newest
mod Tests
use grepod.Prelude.{
  ℕ, zero, suc, ◌+◌, ◌-◌, Bool, true, false, Option, none, some, List, [], ◌∷◌, map, keep, ltb,
  ◌&&◌, if◌then◌else◌, Text, text_beq, text_ltb,
}
use grepod.Storage.Line.{LogLine, Time}
use grepod.Storage.Shards.{day_of}
use grepod.Storage.Times.{format_time, parse_time}
use grepod.Storage.Insert.{File, no_table, table, Store}

-- The answer: a timestamp, none, or an error.
pub data Seen : Type 0 where
  seen : Time → Seen
  never : Seen
  failed : Seen

abbrev pub marker_lookback_days : ℕ
marker_lookback_days = 30

abbrev pub is_of : Text → Text → LogLine → Bool
is_of pod container l = text_beq l.pod pod && text_beq l.container container

-- MAX of a column of texts: NULL where there is no row.
abbrev pub max_text : List Text → Option Text
max_text [] = none
max_text (t ∷ ts) = elim (max_text ts) [
  | none ↦ some t
  | some u ↦ some (if text_ltb u t then t else u)
]

-- The parsed maximum.
unfoldable pub seen_raw : Option Text → Seen
seen_raw none = never
seen_raw (some raw) = elim (parse_time raw) [ none ↦ failed | some ts ↦ seen ts ]

abbrev pub stamps : Text → Text → List LogLine → List Text
stamps pod container rows = map (λ l. format_time l.timestamp) (keep (is_of pod container) rows)

unfoldable pub last_seen_in_shard : Bool → Text → Text → File → Seen
unfolding seen_raw
last_seen_in_shard answers pod container no_table = failed
last_seen_in_shard answers pod container (table has_level rows) =
    if answers then seen_raw (max_text (stamps pod container rows)) else failed

-- The rounds of the loop from `i` days back. No shard is older than January 1 of year 1.
unfoldable pub last_seen_from : (ℕ → Bool) → ℕ → Text → Text → Store → ℕ → ℕ → Seen
unfolding last_seen_in_shard
last_seen_from answers today pod container s zero i = never
last_seen_from answers today pod container s (suc left) i =
    let rest = last_seen_from answers today pod container s left (i + 1) in
    let here : Seen = elim (s.files (today - i)) [
      | none ↦ rest
      | some f ↦ elim (last_seen_in_shard (answers (today - i)) pod container f) [
        | seen ts ↦ seen ts
        | never ↦ rest
        | failed ↦ failed
      ]
    ] in
    if ltb today i then rest else here

unfoldable pub last_seen : (ℕ → Bool) → Time → Text → Text → Store → Seen
unfolding last_seen_from
last_seen answers now pod container s =
    last_seen_from answers (day_of now) pod container s marker_lookback_days 0
