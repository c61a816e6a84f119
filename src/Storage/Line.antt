-- ===== src/Storage/Line.antt =====
-- The type LogLine of internal/storage/queue.go.
use grepod.Prelude.{ℕ, Text}

-- A time is the number of nanoseconds since Go's zero time.
abbrev pub Time : Type 0
Time = ℕ

pub record LogLine : Type 0 where
  pub pod : Text
  pub namespace : Text
  pub container : Text
  pub timestamp : Time
  pub level : Text
  pub content : Text
