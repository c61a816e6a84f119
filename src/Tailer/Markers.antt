-- ===== src/Tailer/Markers.antt =====
-- internal/tailer/manager.go: the markers of containers, from which a reconnect resumes.
pub mod Laws
use grepod.Prelude.{
  ℕ, ◌≡◌, Bool, true, false, Option, none, some, List, [], ◌∷◌, ltb, if◌then◌else◌, Text,
}
use grepod.Prelude.Maps.{lookup, insert, delete}
use grepod.Storage.Line.{Time}
pub use grepod.Storage.LastSeen.{Seen, seen, never, failed}
use grepod.Tailer.Key.{ContainerKey, key_eq}

pub record Marker : Type 0 where
  pub ts : Time
  pub resolved : Bool

abbrev pub Markers : Type 0
Markers = List (ContainerKey × Marker)

abbrev zero_marker : Marker
zero_marker = record { ts = 0; resolved = false }

-- The entry that a missing key reads as.
abbrev pub entry : ContainerKey → Markers → Marker
entry key markers = elim (lookup key markers) [ none ↦ zero_marker | some mk ↦ mk ]

-- The marker that a lookup in the store gives, by MarkerStore.LastSeen; a nil store gives none.
looked_up : Option (ContainerKey → Seen) → ContainerKey → Marker
looked_up none key = record { ts = 0; resolved = true }
looked_up (some last_seen) key = elim (last_seen key) [
  | seen ts ↦ record { ts = ts; resolved = true }
  | never ↦ record { ts = 0; resolved = true }
  | failed ↦ record { ts = 0; resolved = true }
]

-- A known marker returns at once. The store is asked without the lock: `meanwhile` are the markers
-- when the lock is taken again.
pub resolve_marker : Option (ContainerKey → Seen) → ContainerKey → Markers → Markers → Markers
unfolding looked_up
resolve_marker store key markers meanwhile = elim (lookup key markers) [
  | some mk ↦ markers
  | none ↦ elim (lookup key meanwhile) [
    | some mk ↦ meanwhile
    | none ↦ insert key (looked_up store key) meanwhile
  ]
]

unfoldable pub marker_since : ContainerKey → Markers → Time
marker_since key markers = (entry key markers).ts

unfoldable pub set_marker : ContainerKey → Time → Markers → Markers
set_marker key ts markers =
    let cur = entry key markers in
    insert key (record { ts = if ltb cur.ts ts then ts else cur.ts; resolved = true }) markers

unfoldable pub delete_marker : ContainerKey → Markers → Markers
delete_marker key markers = delete key markers
