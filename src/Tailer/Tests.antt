-- ===== src/Tailer/Tests.antt =====
-- The tailer of internal/tailer on concrete pods, streams and answers.
use grepod.Prelude.{
  ℕ, zero, suc, ◌+◌, ◌≤◌, ◌≡◌, ◌⊎◌, refl, true, false, some, List, [], ◌∷◌, ◌++◌, Text, codes,
  length, if◌then◌else◌, is_empty, arith,
}
use grepod.Metrics.{Metrics, new}
use grepod.Storage.Line.{Time}
use grepod.Tailer.Key.{ContainerKey, key_beq, key_eq}
use grepod.Tailer.Level.{detect_level}
use grepod.Tailer.Level.Tokens.{Stands, detect_level_first_token}
use grepod.Tailer.Markers.{Markers, Seen, seen, marker_since, resolve_marker}
use grepod.Tailer.Ingest.{scan_lines, byte_length, drop_return, ingest, newline}
use grepod.Tailer.Ingest.Scan.{IsOneLine, unlines, drop_returns}
use grepod.Tailer.Ingest.Stamps.{newest, contents, levels, levels_of, ingest_lem}
use grepod.Tailer.Tail.{
  Attempt, cancelled_streaming, completes, refused, streamed, stream_logs, tail_container,
}
use grepod.Tailer.Tail.Streams.{stream_logs-unlines, stream_logs_too_long}
use grepod.Tailer.Tail.Laws.{waits_of, timers, Resumes, refusals, tail_container_rounds}

abbrev app : ContainerKey
app = record { pod = codes "web"; container = codes "app" }

-- Levels.

abbrev warned : Text
warned = codes "information: level=warning"

detect_level_first_token_example :
    ((detect_level warned ≡ [])
      × ((p m r level : Text) → warned ≡ p ++ (m ++ r) → Stands p m r level → ⊥))
    ⊎ ((p m r : Text) × (warned ≡ p ++ (m ++ r))
        × Stands p m r (detect_level warned)
        × ((p' m' r' level : Text)
            → warned ≡ p' ++ (m' ++ r')
            → Stands p' m' r' level
            → length p ≤ length p'))
detect_level_first_token_example = detect_level_first_token warned

-- Streams.

abbrev marked : Markers
marked = (app, record { ts = 7; resolved = true }) ∷ []

abbrev last_seen : ContainerKey → Seen
last_seen k = seen 3

-- One reading of the clock for each line.
abbrev clock : ℕ → Time
clock i = 10 + i

abbrev two_lines : List Text
two_lines = codes "one\r" ∷ codes "INFO two" ∷ []

stream_logs-unlines_example :
    let result =
      stream_logs
        (codes "default")
        app
        (streamed (unlines two_lines ++ codes "three") clock)
        marked in
    let lines =
      drop_returns two_lines
      ++ (if is_empty (codes "three") then [] else drop_return (codes "three") ∷ []) in
    (contents result.0 ≡ lines) × (levels result.0 ≡ levels_of lines) × (result.1 ≡ false)
stream_logs-unlines_example =
    stream_logs-unlines (codes "default") app clock marked two_lines (codes "three") (ground arith)
      (ground arith) (omega arith)

-- A line of a's.
a_line : ℕ → Text
a_line zero = []
a_line (suc n) = b'a' ∷ a_line n

byte_length-a_line : (n : ℕ) → byte_length (a_line n) ≡ n
unfolding a_line
byte_length-a_line zero = refl
byte_length-a_line (suc n) = omega (arith, byte_length-a_line n)

a_line-IsOneLine : (n : ℕ) → IsOneLine (a_line n)
unfolding a_line
a_line-IsOneLine zero = tt
a_line-IsOneLine (suc n) = (λ e. omega arith, a_line-IsOneLine n)

stream_logs_too_long_example :
    let stream = unlines two_lines ++ (a_line 1_048_576 ++ (newline ∷ codes "lost")) in
    let result = stream_logs (codes "default") app (streamed stream clock) marked in
    (contents result.0 ≡ drop_returns two_lines)
    × (levels result.0 ≡ levels_of (drop_returns two_lines))
    × (result.1 ≡ false)
stream_logs_too_long_example =
    stream_logs_too_long (codes "default") app clock marked two_lines (a_line 1_048_576)
      (codes "lost") (ground arith) (a_line-IsOneLine 1_048_576)
      (omega (arith, byte_length-a_line 1_048_576))

ingest_lem_example :
    let result = ingest true (codes "default") app clock (codes "a\nERROR b\n") marked in
    (contents result.0 ≡ scan_lines (codes "a\nERROR b\n"))
    × (levels result.0 ≡ levels_of (scan_lines (codes "a\nERROR b\n")))
    × ((k : ContainerKey)
        → marker_since k result.1 ≡ (
            if true
            then if key_beq app k
              then newest (marker_since k marked) result.0
              else marker_since k marked
            else marker_since k marked))
ingest_lem_example = ingest_lem true (codes "default") app clock (codes "a\nERROR b\n") marked

-- The third connection is refused because its context is done.
abbrev attempts : List Attempt
attempts =
    completes (streamed (codes "a\n") clock) ∷ completes refused ∷ cancelled_streaming refused ∷ []

tail_container_rounds_example :
    let out =
      (tail_container (codes "default") app (some last_seen) refused attempts [] [] (some new)).1 in
    (waits_of out.rounds ≡ timers 0 attempts)
    × Resumes (marker_since app (resolve_marker (some last_seen) app [] [])) out.rounds
    × ((m' : Metrics) × (out.metrics ≡ some m')
        × (m'.tail_streams_total ≡ new.tail_streams_total + length (timers 0 attempts))
        × (m'.tail_stream_errors_total ≡ new.tail_stream_errors_total + refusals attempts))
tail_container_rounds_example =
    tail_container_rounds (codes "default") app (some last_seen) refused attempts [] [] new
