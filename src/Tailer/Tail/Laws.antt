-- ===== src/Tailer/Tail/Laws.antt =====
-- The waits between connections, and from where each of them resumes.
use native.Mathlib.Nat.{pow-suc}
use grepod.Prelude.{
  ℕ, suc, ◌+◌, ◌*◌, ◌^◌, ◌≡◌, refl, ap, Bool, true, false, Option, none, some, List, [], ◌∷◌, min,
  nat_beq, if◌then◌else◌, Text, arith, length,
}
use grepod.Metrics.{Metrics}
use grepod.Storage.Line.{Time}
use grepod.Tailer.Key.{ContainerKey, key_beq_iff}
use grepod.Tailer.Markers.{Markers, marker_since, Seen, resolve_marker}
use grepod.Tailer.Ingest.Stamps.{newest, ingest_lem}
use grepod.Tailer.Tail.{
  initial_backoff, max_backoff, next_backoff, Round, Answer, Attempt, cancelled_before,
  cancelled_streaming, cancelled_waiting, completes, connect, refused, streamed, stream_logs,
  tail_rounds, count_stream, count_error, tail_container,
}

next_backoff-min :
    (i : ℕ)
    → next_backoff (min (initial_backoff * 2 ^ i) max_backoff)
      ≡ min (initial_backoff * 2 ^ suc i) max_backoff
unfolding next_backoff
next_backoff-min i = ground (arith, pow-suc 2 i)

-- The times to wait from the `i`-th round on, as far as its attempts go: none for a connection during which
-- the context was cancelled, and nothing behind a cancellation.
abbrev pub timers : ℕ → List Attempt → List (Option ℕ)
timers i [] = []
timers i (cancelled_before ∷ later) = []
timers i (cancelled_streaming a ∷ later) = none ∷ []
timers i (cancelled_waiting a ∷ later) = some (min (initial_backoff * 2 ^ i) max_backoff) ∷ []
timers i (completes a ∷ later) =
    some (min (initial_backoff * 2 ^ i) max_backoff) ∷ timers (suc i) later

abbrev pub waits_of : List Round → List (Option ℕ)
waits_of [] = []
waits_of (r ∷ rs) = r.wait ∷ waits_of rs

-- Each round asks for the logs since the latest time before it, or for all where there is none.
abbrev pub Resumes : Time → List Round → Type 0
Resumes t [] = Unit
Resumes t (r ∷ rs) =
    (r.options.since_time ≡ (if nat_beq t 0 then none else some t)) × Resumes (newest t r.lines) rs

abbrev is_refused : Answer → ℕ
is_refused refused = 1
is_refused (streamed text clock) = 0

-- The refusals up to a cancellation, less one that the cancellation may have caused.
abbrev pub refusals : List Attempt → ℕ
refusals [] = 0
refusals (cancelled_before ∷ later) = 0
refusals (cancelled_streaming a ∷ later) = 0
refusals (cancelled_waiting a ∷ later) = is_refused a
refusals (completes a ∷ later) = is_refused a + refusals later

counted_round : Bool → Metrics → Metrics
counted_round failed m = record m {
  tail_streams_total = m.tail_streams_total + 1;
  tail_stream_errors_total =
      if failed then m.tail_stream_errors_total + 1 else m.tail_stream_errors_total;
}

count_round :
    (failed : Bool) (m : Metrics)
    → (if failed then count_error (count_stream (some m)) else count_stream (some m))
      ≡ some (counted_round failed m)
unfolding count_stream count_error counted_round
count_round true m = refl
count_round false m = refl

module _ (namespace : Text) (key : ContainerKey) where
  waits :
      (attempts : List Attempt) (i : ℕ) (markers : Markers) (metrics : Option Metrics)
      → waits_of
          (tail_rounds namespace key attempts
            (min (initial_backoff * 2 ^ i) max_backoff)
            markers
            metrics).rounds
        ≡ timers i attempts
  unfolding tail_rounds connect
  waits [] i markers metrics = refl
  waits (cancelled_before ∷ later) i markers metrics = refl
  waits (cancelled_streaming a ∷ later) i markers metrics = refl
  waits (cancelled_waiting a ∷ later) i markers metrics = refl
  waits (completes a ∷ later) i markers metrics =
      ap (λ ws. some (min (initial_backoff * 2 ^ i) max_backoff) ∷ ws)
        (rw (next_backoff-min i) (waits later (suc i) _ _))

  stream_newest :
      (a : Answer) (markers : Markers)
      → marker_since key (stream_logs namespace key a markers).2
        ≡ newest (marker_since key markers) (stream_logs namespace key a markers).0
  unfolding stream_logs
  stream_newest refused markers = refl
  stream_newest (streamed text clock) markers =
      ground
        (arith, (ingest_lem true namespace key clock text markers).2 key, (key_beq_iff key key).1)

  resumes :
      (attempts : List Attempt) (backoff : ℕ) (markers : Markers) (metrics : Option Metrics)
      → Resumes
          (marker_since key markers)
          (tail_rounds namespace key attempts backoff markers metrics).rounds
  unfolding tail_rounds connect
  resumes [] backoff markers metrics = tt
  resumes (cancelled_before ∷ later) backoff markers metrics = tt
  resumes (cancelled_streaming a ∷ later) backoff markers metrics = (refl, tt)
  resumes (cancelled_waiting a ∷ later) backoff markers metrics = (refl, tt)
  resumes (completes a ∷ later) backoff markers metrics =
      (refl, rw (← stream_newest a markers) (resumes later (next_backoff backoff) _ _))

  failed-is_refused :
      (a : Answer) (markers : Markers)
      → (if (stream_logs namespace key a markers).1 then 1 else 0) ≡ is_refused a
  unfolding stream_logs
  failed-is_refused refused markers = refl
  failed-is_refused (streamed text clock) markers = refl

  counts :
      (attempts : List Attempt) (i backoff : ℕ) (markers : Markers) (m : Metrics)
      → let out = tail_rounds namespace key attempts backoff markers (some m) in
        (m' : Metrics) × (out.metrics ≡ some m')
        × (m'.tail_streams_total ≡ m.tail_streams_total + length (timers i attempts))
        × (m'.tail_stream_errors_total ≡ m.tail_stream_errors_total + refusals attempts)
  unfolding tail_rounds connect counted_round
  counts [] i backoff markers m = (m, refl, omega arith, omega arith)
  counts (cancelled_before ∷ later) i backoff markers m = (m, refl, omega arith, omega arith)
  counts (cancelled_streaming a ∷ later) i backoff markers m =
      (counted_round false m, count_round false m, omega arith, omega arith)
  counts (cancelled_waiting a ∷ later) i backoff markers m =
      let failed = (stream_logs namespace key a markers).1 in
      (
        counted_round failed m,
        count_round failed m,
        omega arith,
        ground (arith, failed-is_refused a markers),
      )
  counts (completes a ∷ later) i backoff markers m =
      let (lines, failed, markers') = stream_logs namespace key a markers in
      let (m', same, streams, errors) =
        counts later (suc i) (next_backoff backoff) markers' (counted_round failed m) in
      (
        m',
        rw (count_round failed m) same,
        omega (arith, streams),
        ground (arith, errors, failed-is_refused a markers),
      )

-- What tailContainer does, whatever the answers, and wherever its context is cancelled: it connects
-- once for each answer up to the cancellation, sets a timer of 250 ms behind the first connection and
-- of twice as long behind each next one, up to 5 s, none behind a connection that was cancelled, and asks
-- each time for the logs since the latest time that it had: that of the container's marker once resolved,
-- or of a line that it read. Where metrics are kept, they count each connection, and each refused one but
-- one that was cancelled.
pub tail_container_rounds :
    (namespace : Text) (key : ContainerKey) (store : Option (ContainerKey → Seen))
    (previous : Answer) (attempts : List Attempt) (markers meanwhile : Markers) (m : Metrics)
    → let out =
        (tail_container namespace key store previous attempts markers meanwhile (some m)).1 in
      (waits_of out.rounds ≡ timers 0 attempts)
      × Resumes (marker_since key (resolve_marker store key markers meanwhile)) out.rounds
      × ((m' : Metrics) × (out.metrics ≡ some m')
          × (m'.tail_streams_total ≡ m.tail_streams_total + length (timers 0 attempts))
          × (m'.tail_stream_errors_total ≡ m.tail_stream_errors_total + refusals attempts))
unfolding tail_container
tail_container_rounds namespace key store previous attempts markers meanwhile m =
    let resolved = resolve_marker store key markers meanwhile in
    (
      waits namespace key attempts 0 resolved (some m),
      resumes namespace key attempts initial_backoff resolved (some m),
      counts namespace key attempts 0 initial_backoff resolved m,
    )
