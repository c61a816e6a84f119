-- ===== src/Api/Tail.antt =====
-- internal/api/handler.go: handleTail, as a reader among the other goroutines of a broadcaster.
-- `lower` is unicode.ToLower beyond ASCII. An error of a write to the connection is ignored.
pub mod Follow
pub mod Delivers
pub mod Events
mod Tests
use grepod.Prelude.{
  ℕ, Bool, true, false, Option, none, some, List, [], ◌∷◌, ◌++◌, ◌&&◌, ◌||◌, not, if◌then◌else◌,
  Text, codes, text_beq, is_empty, to_lower, contains_text, ◌>>=◌,
}
use grepod.Storage.Line.{LogLine, Time}
use grepod.Storage.Broadcast.{Broadcaster, Chan, Event, subscribe, unsubscribe, receive, step}
use grepod.Storage.Times.{format_time}
use grepod.Api.Event.{TailEvent, marshal}
use grepod.Api.{Response, write_json_error}

-- The query parameters, the last one in lower case.
pub record Filters : Type 0 where
  pub pod : Text
  pub container : Text
  pub q : Text

-- A connection: the subscribed channel, what was written behind the header, and whether the handler
-- has returned.
pub record Stream : Type 0 where
  pub broadcaster : Broadcaster
  pub ch : ℕ
  pub written : Text
  pub ended : Bool

-- What can happen: the select receives, or finds the context of the request done; or another goroutine
-- uses the broadcaster.
pub data Happening : Type 0 where
  reads : Happening
  done : Happening
  others : Event → Happening

module _ (lower : ℕ → ℕ) where
  unfoldable pub filters_of : (Text → Text) → Filters
  filters_of get = record {
    pod = get (codes "pod");
    container = get (codes "container");
    q = to_lower lower (get (codes "q"));
  }

  -- Whether the loop goes on to write a line, behind its three tests.
  unfoldable pub passes : Filters → LogLine → Bool
  passes f l =
      if not (is_empty f.pod) && not (text_beq l.pod f.pod)
      then false
      else if not (is_empty f.container) && not (text_beq l.container f.container)
      then false
      else if not (is_empty f.q) && not (contains_text (to_lower lower l.content) f.q)
      then false
      else true

abbrev pub event_of : LogLine → TailEvent
event_of l = record {
  pod = l.pod;
  namespace = l.namespace;
  container = l.container;
  timestamp = format_time l.timestamp;
  level = l.level;
  content = l.content;
}

-- What is written for a line. json.Marshal has no error on texts.
unfoldable pub frame : LogLine → Text
frame l = codes "data: " ++ marshal (event_of l) ++ 10 ∷ 10 ∷ []

-- The handler returns: the deferred unsubscribe.
unfoldable pub return : Stream → Option Stream
return s = do b ← unsubscribe s.ch s.broadcaster; some (record s { broadcaster = b; ended = true })

module _ (lower : ℕ → ℕ) (filters : Filters) where
  -- What the loop writes for a received line.
  unfoldable pub output : LogLine → Text
  unfolding frame
  output l = if passes lower filters l then frame l else []

  -- A receive of the channel that holds some lines: a line, the end of a closed channel, or else it
  -- waits.
  unfoldable pub receive_from : List LogLine → Stream → Option Stream
  unfolding output return
  receive_from [] s = if (s.broadcaster.chans s.ch).closed then return s else some s
  receive_from (l ∷ rest) s =
      some (record s { broadcaster = receive s.ch s.broadcaster; written = s.written ++ output l })

  unfoldable pub receive_line : Stream → Option Stream
  unfolding receive_from
  receive_line s = receive_from (s.broadcaster.chans s.ch).buffer s

  unfoldable pub happen : Happening → Stream → Option Stream
  unfolding receive_line
  happen reads s = if s.ended then some s else receive_line s
  happen done s = if s.ended then some s else return s
  happen (others e) s = do b ← step e s.broadcaster; some (record s { broadcaster = b })

  unfoldable pub follow : List Happening → Stream → Option Stream
  unfolding happen
  follow [] s = some s
  follow (h ∷ hs) s = happen h s >>= follow hs

-- The stream that a request opens.
unfoldable pub open_stream : Broadcaster → Stream
open_stream b = record { broadcaster = subscribe b; ch = b.next; written = []; ended = false }

-- Where the connection cannot be flushed, there is no stream.
unfoldable pub handle_tail : {A : Type 0} → Bool → Broadcaster → Option Stream × Option (Response A)
unfolding open_stream
handle_tail flushes b =
    if flushes
    then (some (open_stream b), none)
    else (none, some (write_json_error 500 (codes "streaming unsupported")))
