-- ===== src/Api/Tail/Events.antt =====
-- What a client of the tail reads: server-sent events, as an EventSource takes them from the stream.
use grepod.Prelude.{
  ℕ, ◌≡◌, refl, sym, ap, ◌∙◌, false, Option, none, some, List, [], ◌∷◌, ◌++◌, append_assoc,
  append-nil, map, keep, nat_beq, is_empty, if◌then◌else◌, Text, codes, arith, All, All-append,
}
use grepod.Storage.Line.{LogLine}
use grepod.Storage.Times.{format_time}
use grepod.Storage.Broadcast.{Broadcaster, subscriber_buffer_size}
use grepod.Storage.Broadcast.Valid.{IsValid}
use grepod.Api.Event.{marshal}
use grepod.Api.Event.OneLine.{IsInline, marshal-IsInline}
use grepod.Api.Tail.{Filters, Stream, passes, frame, follow, open_stream}
use grepod.Api.Tail.Follow.{Traffic, KeepsUp, happening, lines_of, repeated}
use grepod.Api.Tail.Delivers.{frames, tail_delivers}

-- The rest of a text behind a beginning.
abbrev behind : Text → Text → Option Text
behind [] s = some s
behind (p ∷ ps) [] = none
behind (p ∷ ps) (c ∷ s) = if nat_beq c p then behind ps s else none

-- One space behind the colon is no part of a value.
abbrev value : Text → Text
value [] = []
value (c ∷ s) = if nat_beq c b' ' then s else c ∷ s

abbrev but_last : Text → Text
but_last [] = []
but_last (c ∷ []) = []
but_last (c ∷ d ∷ s) = c ∷ but_last (d ∷ s)

-- What was got of the data, with the value of a line behind it, if its field is `data`.
abbrev gather : Text → Text → Text
gather got line = elim (behind (codes "data:") line) [
  | none ↦ got
  | some rest ↦ got ++ (value rest ++ 10 ∷ [])
]

-- The data of the events in a stream with no carriage returns, where `got` is the data so far and `line` was
-- read of the current line: an empty line ends an event.
unfoldable pub read_events : Text → Text → Text → List Text
read_events got line [] = []
read_events got line (c ∷ s) =
    let more = read_events got (line ++ c ∷ []) s in
    let gathered = read_events (gather got line) [] s in
    let next = read_events [] [] s in
    if nat_beq c 10
    then (if is_empty line then (if is_empty got then next else but_last got ∷ next) else gathered)
    else more

read_events-line :
    (got line t s : Text)
    → All IsInline t
    → is_empty (line ++ t) ≡ false
    → read_events got line (t ++ (10 ∷ s)) ≡ read_events (gather got (line ++ t)) [] s
unfolding read_events
read_events-line got line [] s h e =
    let filled : is_empty line ≡ false = ap is_empty (sym (append-nil line)) ∙ e in
    simp filled (ap (λ l. read_events (gather got l) [] s) (sym (append-nil line)))
read_events-line got line (c ∷ t) s h e =
    let assoc : (line ++ c ∷ []) ++ t ≡ line ++ (c ∷ t) = append_assoc line (c ∷ []) t in
    let rec = read_events-line got (line ++ c ∷ []) t s h.1 (ap is_empty assoc ∙ e) in
    let inside : nat_beq c 10 ≡ false = ground (arith, h.0) in
    simp inside (rec ∙ ap (λ l. read_events (gather got l) [] s) assoc)

but_last-append : (m : Text) → but_last (m ++ 10 ∷ []) ≡ m
but_last-append [] = refl
but_last-append (c ∷ []) = refl
but_last-append (c ∷ d ∷ m) = ap (λ t. c ∷ t) (but_last-append (d ∷ m))

not_empty : (m : Text) → is_empty (m ++ 10 ∷ []) ≡ false
not_empty [] = refl
not_empty (c ∷ m) = refl

-- An empty line behind one line of data.
read_events-end : (m s : Text) → read_events (m ++ 10 ∷ []) [] (10 ∷ s) ≡ m ∷ read_events [] [] s
unfolding read_events
read_events-end m s = simp (not_empty m, but_last-append m) refl

-- The event of a line, with its fields by name.
abbrev pub event_text : LogLine → Text
event_text l = marshal (record {
  pod = l.pod;
  namespace = l.namespace;
  container = l.container;
  timestamp = format_time l.timestamp;
  level = l.level;
  content = l.content;
})

gather-event : (l : LogLine) → gather [] (codes "data: " ++ event_text l) ≡ event_text l ++ 10 ∷ []
gather-event l = refl

read_events-frame :
    (l : LogLine) (s : Text) → read_events [] [] (frame l ++ s) ≡ event_text l ∷ read_events [] [] s
unfolding frame
read_events-frame l s =
    let line = codes "data: " ++ event_text l in
    let inline : All IsInline line =
      All-append IsInline (codes "data: ") (event_text l) (ground arith) (marshal-IsInline _) in
    ap (read_events [] []) (append_assoc line (10 ∷ 10 ∷ []) s)
    ∙ (read_events-line [] [] line (10 ∷ s) inline refl
        ∙ (ap (λ g. read_events g [] (10 ∷ s)) (gather-event l) ∙ read_events-end (event_text l) s))

module _ (lower : ℕ → ℕ) (filters : Filters) where
  read_events-frames :
      (ls : List LogLine) → read_events [] [] (frames lower filters ls) ≡ map event_text ls
  unfolding read_events
  read_events-frames [] = refl
  read_events-frames (l ∷ ls) =
      read_events-frame l (frames lower filters ls)
      ∙ ap (λ es. event_text l ∷ es) (read_events-frames ls)

  -- A request is followed on a broadcaster that is valid, and lines are published to it by whoever,
  -- while readers of any channel take lines, interleaved with reads of the stream in any order in which
  -- never more than 256 lines wait. When the stream has read 256 times more, an EventSource that reads
  -- what was written has the events of the published lines that pass the filters, each one once, in the
  -- order in which they were published: the text of the JSON object with the line's pod, namespace, container,
  -- time, level and content.
  pub tail_events :
      (b : Broadcaster) (ts : List Traffic)
      → IsValid b
      → KeepsUp 0 ts
      → (s : Stream) × (follow lower filters
            (map happening (ts ++ repeated subscriber_buffer_size))
            (open_stream b)
          ≡ some s)
        × (read_events [] [] s.written ≡ map event_text (keep (passes lower filters) (lines_of ts)))
  tail_events b ts v h =
      let t = tail_delivers lower filters b ts v h in
      (
        t.0,
        t.1,
        ap (read_events [] []) t.3 ∙ read_events-frames (keep (passes lower filters) (lines_of ts)),
      )
