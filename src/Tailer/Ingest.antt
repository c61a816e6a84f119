-- ===== src/Tailer/Ingest.antt =====
-- internal/tailer/manager.go: ingest, and the line scanner of package bufio that it reads with.
-- The times of the clock are an argument: `clock i` is the reading for the line with index `i`.
pub mod Scan
pub mod Stamps
use grepod.Prelude.{
  ℕ, suc, ◌+◌, ◌*◌, ◌<◌, Bool, true, false, List, [], ◌∷◌, ◌++◌, ltb, nat_beq, if◌then◌else◌, Text,
  is_empty,
}
use grepod.Storage.Line.{LogLine, Time}
use grepod.Tailer.Key.{ContainerKey}
use grepod.Tailer.Level.{detect_level}
use grepod.Tailer.Markers.{Markers, set_marker}

-- The bytes of a character in UTF-8.
abbrev pub width : ℕ → ℕ
width c = if ltb c 0x80 then 1 else if ltb c 0x800 then 2 else if ltb c 0x10000 then 3 else 4

abbrev pub byte_length : Text → ℕ
byte_length [] = 0
byte_length (c ∷ s) = width c + byte_length s

abbrev pub newline : ℕ
newline = b'\n'

abbrev pub carriage_return : ℕ
carriage_return = b'\r'

-- The size of the scanner's buffer at most: a line with its newline must fit.
abbrev pub max_token : ℕ
max_token = 1024 * 1024

abbrev pub fits : Text → Bool
fits line = ltb (byte_length line) max_token

-- bufio.ScanLines drops one carriage return at the end of a line.
abbrev pub drop_return : Text → Text
drop_return [] = []
drop_return (c ∷ []) = if nat_beq c carriage_return then [] else c ∷ []
drop_return (c ∷ d ∷ s) = c ∷ drop_return (d ∷ s)

-- The lines that Scan returns: `line` is what was read of the current one. A line that does not fit
-- ends the scan, and so does the end of the stream, behind a last line that is not empty.
pub scan_from : Text → Text → List Text
scan_from line [] = if is_empty line then [] else if fits line then drop_return line ∷ [] else []
scan_from line (c ∷ s) =
    let next = scan_from [] s in
    let more = scan_from (line ++ c ∷ []) s in
    if nat_beq c newline then (if fits line then drop_return line ∷ next else []) else more

pub scan_lines : Text → List Text
unfolding scan_from
scan_lines s = scan_from [] s

-- What the loop does with the lines: those that are enqueued, in order, and the markers.
pub ingest_lines :
    Bool → Text → ContainerKey → (ℕ → Time) → ℕ → List Text → Markers → List LogLine × Markers
ingest_lines track namespace key clock i [] markers = ([], markers)
ingest_lines track namespace key clock i (line ∷ rest) markers =
    let ts = clock i in
    let l : LogLine = record {
      pod = key.pod;
      namespace = namespace;
      container = key.container;
      timestamp = ts;
      level = detect_level line;
      content = line;
    } in
    let (ls, markers') =
      ingest_lines track namespace key clock (i + 1) rest
        (if track then set_marker key ts markers else markers) in
    (l ∷ ls, markers')

pub ingest : Bool → Text → ContainerKey → (ℕ → Time) → Text → Markers → List LogLine × Markers
ingest track namespace key clock stream markers =
    ingest_lines track namespace key clock 0 (scan_lines stream) markers
