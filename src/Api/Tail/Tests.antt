-- ===== src/Api/Tail/Tests.antt =====
-- A live tail with a filter.
use grepod.Prelude.{
  ℕ, ◌≡◌, refl, true, some, List, [], ◌∷◌, ◌++◌, map, keep, false, Text, codes, arith, none,
  text_beq, if◌then◌else◌,
}
use grepod.Storage.Line.{LogLine}
use grepod.Storage.Broadcast.{subscriber_buffer_size, new_broadcaster, undisturbed}
use grepod.Storage.Broadcast.Traces.{new-IsValid}
use grepod.Api.{write_json_error}
use grepod.Api.Tail.{Stream, done, filters_of, passes, follow, open_stream, handle_tail}
use grepod.Api.Tail.Follow.{Traffic, line, read, happening, lines_of, repeated}
use grepod.Api.Tail.Events.{event_text, read_events, tail_events}
use grepod.Api.Tail.Delivers.{frames, tail_delivers}

abbrev of_pod : Text → Text → LogLine
of_pod pod content = record {
  pod = pod;
  namespace = codes "default";
  container = codes "app";
  timestamp = 1;
  level = [];
  content = content;
}

-- Letters beyond ASCII have no lower case here.
abbrev ascii : ℕ → ℕ
ascii c = c

abbrev query : Text → Text
query name =
    if text_beq name (codes "pod")
    then codes "web"
    else if text_beq name (codes "q")
    then codes "HELL"
    else []

abbrev traffic : List Traffic
traffic =
    line undisturbed (of_pod (codes "web") (codes "Hello"))
    ∷ line undisturbed (of_pod (codes "db") (codes "Hello"))
    ∷ read
    ∷ line undisturbed (of_pod (codes "web") (codes "bye"))
    ∷ []

first_passes :
    keep (passes ascii (filters_of ascii query)) (lines_of traffic)
    ≡ of_pod (codes "web") (codes "Hello") ∷ []
unfolding passes filters_of
first_passes = refl

tail_delivers_example :
    let filters = filters_of ascii query in
    (s : Stream) × (follow ascii filters
        (map happening (traffic ++ repeated subscriber_buffer_size))
        (open_stream new_broadcaster)
      ≡ some s)
    × (s.ended ≡ false)
    × (s.written ≡ frames ascii filters (keep (passes ascii filters) (lines_of traffic)))
    × (s' : Stream) × (follow ascii filters (done ∷ []) s ≡ some s')
    × (s'.ended ≡ true)
    × (s'.broadcaster.subs ≡ new_broadcaster.subs)
tail_delivers_example =
    tail_delivers ascii (filters_of ascii query) new_broadcaster traffic new-IsValid
      (omega arith, (omega arith, (omega arith, tt)))

tail_events_example :
    (s : Stream) × (follow ascii
        (filters_of ascii query)
        (map happening (traffic ++ repeated subscriber_buffer_size))
        (open_stream new_broadcaster)
      ≡ some s)
    × (read_events [] [] s.written
        ≡ map event_text (keep (passes ascii (filters_of ascii query)) (lines_of traffic)))
tail_events_example =
    tail_events ascii (filters_of ascii query) new_broadcaster traffic new-IsValid
      (omega arith, (omega arith, (omega arith, tt)))

-- Fields of other names are skipped, and an event may have several lines of data.
read_events_runs :
    read_events [] [] (codes ": hi\nid: 1\ndata: a\ndata:b\n\n\ndata: c\n\n")
    ≡ codes "a\nb" ∷ codes "c" ∷ []
unfolding read_events
read_events_runs = refl

unflushed :
    handle_tail {A = Text} false new_broadcaster
    ≡ (none, some (write_json_error 500 (codes "streaming unsupported")))
unfolding handle_tail
unflushed = refl
