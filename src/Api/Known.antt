-- ===== src/Api/Known.antt =====
-- internal/api/handler.go: handleKnown. `reason` is the text of an error.
pub mod Recent
mod Tests
use grepod.Prelude.{
  ℕ, ◌+◌, ◌-◌, ◌*◌, ◌%◌, Bool, true, false, Option, none, some, ◌++◌, leb, if◌then◌else◌, Text,
  codes, is_empty,
}
use grepod.Prelude.Int.{ℤ, pos, is_positive, magnitude}
use grepod.Prelude.Decimal.{parse_int}
use grepod.Storage.Line.{Time}
use grepod.Storage.Shards.{day_length}
use grepod.Storage.Known.{KnownFilters, KnownEngine, known_pods}
use grepod.Api.{Response, write_json, write_json_error}

-- The days that are asked for, none where they are no positive number.
unfoldable pub days_of : Text → Option ℕ
days_of raw = if is_empty raw then some 1 else elim (parse_int raw) [
  | none ↦ none
  | some n ↦ if is_positive n then some (magnitude n) else none
]

-- `n` days before `now`, or, since no shard is older, the same time on January 1 of year 1.
unfoldable pub days_ago : ℕ → Time → Time
days_ago n now = if leb (n * day_length) now then now - n * day_length else now % day_length

-- What is behind the call of KnownPods.
abbrev pub answer : Text → Option KnownFilters → Response KnownFilters
answer reason none = write_json_error 500 (codes "known-pods lookup failed: " ++ reason)
answer reason (some filters) = write_json 200 filters

unfoldable pub handle_known : KnownEngine → Text → Time → (Text → Text) → Response KnownFilters
unfolding days_of days_ago
handle_known engine reason now get = elim (days_of (get (codes "days"))) [
  | none ↦ write_json_error 400 (codes "invalid days, expected a positive integer")
  | some days ↦ answer reason (known_pods engine (days_ago (days - 1) now) now)
]
