-- ===== src/Server.antt =====
-- cmd/server/main.go: the settings, and the sink that main wires in.
-- The environment is a function; an unset variable reads as the empty text, as os.Getenv has it.
pub mod Settings
pub mod Fanout
pub mod Shutdown
mod Tests
use grepod.Prelude.{
  ℕ, ◌≡◌, refl, Bool, true, false, Option, none, some, List, [], ◌∷◌, ◌||◌, if◌then◌else◌, Text,
  codes, text_beq, is_empty, ◌>>=◌,
}
use grepod.Prelude.Int.{ℤ, is_positive}
use grepod.Prelude.Decimal.{parse_int}
use grepod.Storage.Line.{LogLine}
use grepod.Storage.Queue.{BatchQueue, enqueue}
use grepod.Storage.Broadcast.{Broadcaster, publish}

pub data Level : Type 0 where
  level_debug level_info level_warn level_error : Level

pub parse_log_level : Text → Level
parse_log_level v =
    if text_beq v (codes "debug")
    then level_debug
    else if text_beq v (codes "warn")
    then level_warn
    else if text_beq v (codes "error")
    then level_error
    else level_info

-- strconv.ParseBool.
pub parse_bool : Text → Option Bool
parse_bool s =
    if text_beq s (codes "1")
      || text_beq s (codes "t")
      || text_beq s (codes "T")
      || text_beq s (codes "true")
      || text_beq s (codes "TRUE")
      || text_beq s (codes "True")
    then some true
    else if text_beq s (codes "0")
        || text_beq s (codes "f")
        || text_beq s (codes "F")
        || text_beq s (codes "false")
        || text_beq s (codes "FALSE")
        || text_beq s (codes "False")
    then some false
    else none

-- A value that was parsed, unless it is missing or not positive.
abbrev positive_or : ℤ → Option ℤ → ℤ
positive_or default none = default
positive_or default (some n) = if is_positive n then n else default

module _ (getenv : Text → Text) where
  pub env_or : Text → Text → Text
  env_or key default = if is_empty (getenv key) then default else getenv key

  pub env_int : Text → ℤ → ℤ
  env_int key default =
      if is_empty (getenv key) then default else positive_or default (parse_int (getenv key))

  -- `parse_duration` is time.ParseDuration, in nanoseconds.
  pub env_duration : (Text → Option ℤ) → Text → ℤ → ℤ
  env_duration parse_duration key default =
      if is_empty (getenv key) then default else positive_or default (parse_duration (getenv key))

  pub env_bool : Text → Bool → Bool
  env_bool key default =
      if is_empty (getenv key)
      then default
      else elim (parse_bool (getenv key)) [ none ↦ default | some b ↦ b ]

pub record FanoutSink (S : Type 0) : Type 0 where
  pub queue : BatchQueue S
  pub broadcaster : Broadcaster

-- Enqueue: first the queue, then the broadcaster; `now` and `won` are for the queue, `race` for the
-- broadcaster.
pub sink_enqueue :
    {S : Type 0} → ℕ → Bool → (ℕ → ℕ × ℕ) → LogLine → FanoutSink S → Option (FanoutSink S)
sink_enqueue now won race l sink = do
  b ← publish race l sink.broadcaster
  some (record { queue = enqueue l now won sink.queue; broadcaster = b })
