-- ===== src/Tailer/Ingest/Stamps.antt =====
-- What ingest enqueues, and where it leaves the markers.
use grepod.Prelude.{ℕ, ◌+◌, ◌≡◌, refl, ap, Bool, List, [], ◌∷◌, max, if◌then◌else◌, Text, arith}
use grepod.Storage.Line.{LogLine, Time}
use grepod.Tailer.Key.{ContainerKey, key_beq}
use grepod.Tailer.Level.{detect_level}
use grepod.Tailer.Markers.{Markers, set_marker, marker_since}
use grepod.Tailer.Markers.Laws.{marker_since-set_marker}
use grepod.Tailer.Ingest.{ingest, ingest_lines, scan_lines}

-- The later of a time and the times of some lines.
abbrev pub newest : Time → List LogLine → Time
newest t [] = t
newest t (l ∷ ls) = newest (max t l.timestamp) ls

abbrev pub contents : List LogLine → List Text
contents [] = []
contents (l ∷ ls) = l.content ∷ contents ls

abbrev pub levels_of : List Text → List Text
levels_of [] = []
levels_of (t ∷ ts) = detect_level t ∷ levels_of ts

abbrev pub levels : List LogLine → List Text
levels [] = []
levels (l ∷ ls) = l.level ∷ levels ls

module _ (track : Bool) (namespace : Text) (key : ContainerKey) (clock : ℕ → Time) where
  lines_of : ℕ → List Text → Markers → List LogLine
  lines_of i ts markers = (ingest_lines track namespace key clock i ts markers).0

  left : ℕ → List Text → Markers → Markers
  left i ts markers = (ingest_lines track namespace key clock i ts markers).1

  contents-ingest :
      (i : ℕ) (ts : List Text) (markers : Markers) → contents (lines_of i ts markers) ≡ ts
  unfolding lines_of ingest_lines
  contents-ingest i [] markers = refl
  contents-ingest i (t ∷ ts) markers = ap (λ r. t ∷ r) (contents-ingest (i + 1) ts _)

  levels-ingest :
      (i : ℕ) (ts : List Text) (markers : Markers) → levels (lines_of i ts markers) ≡ levels_of ts
  unfolding lines_of ingest_lines
  levels-ingest i [] markers = refl
  levels-ingest i (t ∷ ts) markers = ap (λ r. detect_level t ∷ r) (levels-ingest (i + 1) ts _)

  marker-ingest :
      (i : ℕ) (ts : List Text) (markers : Markers) (k : ContainerKey)
      → marker_since k (left i ts markers) ≡ (
          if track
          then if key_beq key k
            then newest (marker_since k markers) (lines_of i ts markers)
            else marker_since k markers
          else marker_since k markers)
  unfolding left lines_of ingest_lines
  marker-ingest i [] markers k = ground arith
  marker-ingest i (t ∷ ts) markers k = ground (
    arith,
    marker-ingest (i + 1) ts (if track then set_marker key (clock i) markers else markers) k,
    marker_since-set_marker key k (clock i) markers,
  )

-- ingest enqueues the lines that the scanner returns, all of them and in order, each with the level
-- detected in it. With tracking, the container's marker becomes the latest of what it was and the
-- times of these lines; without, and for any other container, no marker moves.
pub ingest_lem :
    (track : Bool) (namespace : Text) (key : ContainerKey) (clock : ℕ → Time) (stream : Text)
    (markers : Markers)
    → let result = ingest track namespace key clock stream markers in
      (contents result.0 ≡ scan_lines stream)
      × (levels result.0 ≡ levels_of (scan_lines stream))
      × ((k : ContainerKey)
          → marker_since k result.1 ≡ (
              if track
              then if key_beq key k
                then newest (marker_since k markers) result.0
                else marker_since k markers
              else marker_since k markers))
unfolding ingest lines_of left
ingest_lem track namespace key clock stream markers =
    let lines = scan_lines stream in
    (
      contents-ingest track namespace key clock 0 lines markers,
      levels-ingest track namespace key clock 0 lines markers,
      marker-ingest track namespace key clock 0 lines markers,
    )
