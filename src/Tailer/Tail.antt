-- ===== src/Tailer/Tail.antt =====
-- internal/tailer/manager.go: tailContainer, fetchPreviousLogs, streamLogs and nextBackoff.
-- The Kubernetes API answers each request with an error or with a stream, which is an argument: the
-- whole text that it delivers before it ends, with the clock's readings. The context may be cancelled
-- at any point of the loop, which is an argument too.
pub mod Laws
pub mod Streams
use grepod.Prelude.{
  ℕ, suc, ◌+◌, ◌*◌, Bool, true, false, Option, none, some, List, [], ◌∷◌, ◌++◌, ltb, nat_beq,
  if◌then◌else◌, Text,
}
use grepod.Metrics.{Metrics}
use grepod.Storage.Line.{LogLine, Time}
use grepod.Tailer.Key.{ContainerKey}
use grepod.Tailer.Markers.{Markers, Seen, marker_since, resolve_marker}
use grepod.Tailer.Ingest.{ingest}

abbrev pub previous_tail_lines : ℕ
previous_tail_lines = 100

-- In nanoseconds.
abbrev pub max_backoff : ℕ
max_backoff = 5_000_000_000

abbrev pub initial_backoff : ℕ
initial_backoff = 250_000_000

unfoldable pub next_backoff : ℕ → ℕ
next_backoff d = if ltb max_backoff (d * 2) then max_backoff else d * 2

pub record PodLogOptions : Type 0 where
  pub container : Text
  pub follow : Bool
  pub previous : Bool
  pub tail_lines : Option ℕ
  pub since_time : Option Time

-- The answer to a request for logs.
pub data Answer : Type 0 where
  refused : Answer
  streamed : Text → (ℕ → Time) → Answer

-- Lines of the crashed instance; the markers stay.
pub fetch_previous_logs : Text → ContainerKey → Answer → PodLogOptions × List LogLine
fetch_previous_logs namespace key answer = (
  record {
    container = key.container;
    follow = false;
    previous = true;
    tail_lines = some previous_tail_lines;
    since_time = none;
  },
  elim answer [ refused ↦ [] | streamed text clock ↦ (ingest false namespace key clock text []).0 ],
)

stream_options : ContainerKey → Time → PodLogOptions
stream_options key since = record {
  container = key.container;
  follow = true;
  previous = false;
  tail_lines = none;
  since_time = if nat_beq since 0 then none else some since;
}

count_stream : Option Metrics → Option Metrics
count_stream none = none
count_stream (some m) = some (record m { tail_streams_total = m.tail_streams_total + 1 })

count_error : Option Metrics → Option Metrics
count_error none = none
count_error (some m) = some (record m { tail_stream_errors_total = m.tail_stream_errors_total + 1 })

-- What a round of the loop meets: the context is done at its top; or there is an answer, and the context
-- is done when streamLogs returns, or in the wait behind it, or not until the wait is over.
pub data Attempt : Type 0 where
  cancelled_before : Attempt
  cancelled_streaming cancelled_waiting completes : Answer → Attempt

-- One connection: what was asked for, the lines that it gave, whether it counts as failed, and the
-- time that was to be waited before the next one, none where the loop returned before its select.
pub record Round : Type 0 where
  pub options : PodLogOptions
  pub lines : List LogLine
  pub failed : Bool
  pub wait : Option ℕ

pub record Outcome : Type 0 where
  pub rounds : List Round
  pub markers : Markers
  pub metrics : Option Metrics

pub stream_logs : Text → ContainerKey → Answer → Markers → List LogLine × Bool × Markers
stream_logs namespace key refused markers = ([], true, markers)
stream_logs namespace key (streamed text clock) markers =
    let (lines, markers') = ingest true namespace key clock text markers in (lines, false, markers')

-- A connection of tailContainer behind which the loop returns, or goes on to its select.
connect : Text → ContainerKey → Answer → Bool → ℕ → Markers → Option Metrics → Outcome
unfolding stream_options count_stream count_error
connect namespace key a done backoff markers metrics =
    let (lines, was_refused, markers') = stream_logs namespace key a markers in
    let counted = count_stream metrics in
    let failed = if done then false else was_refused in
    record {
      rounds =
          record {
            options = stream_options key (marker_since key markers);
            lines = lines;
            failed = failed;
            wait = if done then none else some backoff;
          }
          ∷ [];
      markers = markers';
      metrics = if failed then count_error counted else counted;
    }

-- A list that ends with no cancellation is a loop that still goes on.
pub tail_rounds : Text → ContainerKey → List Attempt → ℕ → Markers → Option Metrics → Outcome
unfolding connect
tail_rounds namespace key [] backoff markers metrics = record {
  rounds = [];
  markers = markers;
  metrics = metrics;
}
tail_rounds namespace key (cancelled_before ∷ later) backoff markers metrics = record {
  rounds = [];
  markers = markers;
  metrics = metrics;
}
tail_rounds namespace key (cancelled_streaming a ∷ later) backoff markers metrics =
    connect namespace key a true backoff markers metrics
tail_rounds namespace key (cancelled_waiting a ∷ later) backoff markers metrics =
    connect namespace key a false backoff markers metrics
tail_rounds namespace key (completes a ∷ later) backoff markers metrics =
    let here = connect namespace key a false backoff markers metrics in
    let rest = tail_rounds namespace key later (next_backoff backoff) here.markers here.metrics in
    record rest { rounds = here.rounds ++ rest.rounds }

-- The first answer is to the request for the previous logs; the store is asked for a marker, and
-- `meanwhile` are the markers when it has answered.
pub tail_container :
    Text
    → ContainerKey
    → Option (ContainerKey → Seen)
    → Answer
    → List Attempt
    → Markers
    → Markers
    → Option Metrics
    → List LogLine × Outcome
tail_container namespace key store previous attempts markers meanwhile metrics = (
  (fetch_previous_logs namespace key previous).1,
  tail_rounds namespace key attempts initial_backoff (resolve_marker store key markers meanwhile)
      metrics,
)
