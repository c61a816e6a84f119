-- ===== src/Tailer/Markers/Laws.antt =====
-- Markers only advance, and a resolved marker is not resolved again.
use grepod.Prelude.{◌≡◌, refl, true, Option, none, some, ltb, if◌then◌else◌, arith, max}
use grepod.Prelude.Maps.{lookup, lookup-insert, lookup-insert_self}
use grepod.Storage.Line.{Time}
use grepod.Tailer.Key.{ContainerKey, key_eq, key_beq, key_beq_iff}
use grepod.Tailer.Markers.{
  Marker, Markers, Seen, seen, never, failed, entry, looked_up, resolve_marker, marker_since,
  set_marker,
}

-- setMarker leaves the later of two times, and the other containers alone.
pub marker_since-set_marker :
    (key k : ContainerKey) (ts : Time) (markers : Markers)
    → marker_since k (set_marker key ts markers)
      ≡ (if key_beq key k then max (marker_since k markers) ts else marker_since k markers)
unfolding marker_since set_marker
marker_since-set_marker key k ts markers =
    let cur = entry key markers in
    let mk : Marker = record { ts = if ltb cur.ts ts then ts else cur.ts; resolved = true } in
    ground (arith, lookup-insert key k mk markers, (key_beq_iff key k).0)

-- The time that the store has for a container, 0 where it has none or fails.
abbrev pub stored_time : Option (ContainerKey → Seen) → ContainerKey → Time
stored_time none key = 0
stored_time (some last_seen) key = elim (last_seen key) [ seen ts ↦ ts | never ↦ 0 | failed ↦ 0 ]

looked_up_time :
    (store : Option (ContainerKey → Seen)) (key : ContainerKey)
    → (looked_up store key).ts ≡ stored_time store key
unfolding looked_up
looked_up_time none key = refl
looked_up_time (some last_seen) key = ground arith

-- A known marker stays, and so does one that was set while the store was asked; else the store's
-- answer is taken. Either way the container then has a marker, so that resolving it again changes
-- nothing, whatever a store would answer.
pub resolve_marker_once :
    (store again : Option (ContainerKey → Seen)) (key : ContainerKey) (markers meanwhile : Markers)
    → let resolved = resolve_marker store key markers meanwhile in
      ((mk : Marker) → lookup key markers ≡ some mk → resolved ≡ markers)
      × ((mk : Marker)
          → lookup key markers ≡ none
          → lookup key meanwhile ≡ some mk
          → resolved ≡ meanwhile)
      × (lookup key markers ≡ none
          → lookup key meanwhile ≡ none
          → marker_since key resolved ≡ stored_time store key)
      × ((later : Markers) → resolve_marker again key resolved later ≡ resolved)
unfolding resolve_marker marker_since
resolve_marker_once store again key markers meanwhile =
    let mk = looked_up store key in
    (
      (λ mk' e. ground arith),
      (λ mk' e f. ground arith),
      (λ e f. ground (arith, lookup-insert_self key mk meanwhile, looked_up_time store key)),
      λ later. ground (arith, lookup-insert_self key mk meanwhile),
    )
