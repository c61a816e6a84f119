-- ===== src/Storage/Broadcast.antt =====
-- internal/storage/broadcast.go: the fan-out of lines to live subscribers.
-- A channel is named by a number and stands in a heap, since the map of subscribers and the reader
-- share it. A send on a closed channel and a second close panic, which is `none`. While Publish
-- holds the lock, only readers touch a channel: `race` says how many lines the reader of each one
-- takes between the three selects of Publish.
pub mod Valid
pub mod Traces
mod Offered
pub mod Publish
mod Tests
use grepod.Prelude.{
  ℕ, suc, ◌+◌, ◌≡◌, Bool, true, false, Option, none, some, List, [], ◌∷◌, ◌++◌, length, ltb, drop,
  update, remove, if◌then◌else◌, ◌>>=◌,
}
use grepod.Storage.Line.{LogLine}

abbrev pub subscriber_buffer_size : ℕ
subscriber_buffer_size = 256

-- `released` is the sync.Once of the subscription.
pub record Chan : Type 0 where
  pub buffer : List LogLine
  pub closed : Bool
  pub released : Bool

pub record Broadcaster : Type 0 where
  pub subs : List ℕ
  pub chans : ℕ → Chan
  pub next : ℕ

abbrev empty_chan : Chan
empty_chan = record { buffer = []; closed = false; released = false }

unfoldable pub new_broadcaster : Broadcaster
new_broadcaster = record { subs = []; chans = λ ch. empty_chan; next = 0 }

-- The new channel is `b.next`.
unfoldable pub subscribe : Broadcaster → Broadcaster
subscribe b = record {
  subs = b.next ∷ b.subs;
  chans = update b.chans b.next empty_chan;
  next = b.next + 1;
}

close_chan : Chan → Option Chan
close_chan c = if c.closed then none else some (record c { closed = true; released = true })

unfoldable pub unsubscribe : ℕ → Broadcaster → Option Broadcaster
unfolding close_chan
unsubscribe ch b = if (b.chans ch).released then some b else do
  c ← close_chan (b.chans ch)
  some (record b { subs = remove ch b.subs; chans = update b.chans ch c })

pub subscriber_count : Broadcaster → ℕ
subscriber_count b = length b.subs

-- The two selects behind the first one's default: the oldest line is evicted, and the send tried
-- again. `taken` lines are read before the eviction, and `taken'` after it.
evict_and_send : ℕ → ℕ → LogLine → List LogLine → List LogLine
evict_and_send taken taken' l buffer =
    let left = drop taken' (drop 1 (drop taken buffer)) in
    if ltb (length left) subscriber_buffer_size then left ++ l ∷ [] else left

pub offer : ℕ × ℕ → LogLine → Chan → Option Chan
unfolding evict_and_send
offer (taken, taken') l c =
    if c.closed
    then none
    else if ltb (length c.buffer) subscriber_buffer_size
    then some (record c { buffer = c.buffer ++ l ∷ [] })
    else some (record c { buffer = evict_and_send taken taken' l c.buffer })

pub publish_to : (ℕ → ℕ × ℕ) → LogLine → List ℕ → (ℕ → Chan) → Option (ℕ → Chan)
publish_to race l [] chans = some chans
publish_to race l (ch ∷ chs) chans = do
  c ← offer (race ch) l (chans ch)
  publish_to race l chs (update chans ch c)

pub publish : (ℕ → ℕ × ℕ) → LogLine → Broadcaster → Option Broadcaster
publish race l b = do chans ← publish_to race l b.subs b.chans; some (record b { chans = chans })

-- A receive by the subscriber: the oldest line leaves the buffer.
unfoldable pub receive : ℕ → Broadcaster → Broadcaster
receive ch b = record b {
  chans = update b.chans ch (record (b.chans ch) { buffer = drop 1 (b.chans ch).buffer });
}

-- Nobody reads while Publish runs.
abbrev pub undisturbed : ℕ → ℕ × ℕ
undisturbed ch = (0, 0)

-- What can happen. Only a subscription that was made can be ended.
pub data Event : Type 0 where
  subscribes : Event
  unsubscribes receives : ℕ → Event
  publishes : (ℕ → ℕ × ℕ) → LogLine → Event

unfoldable pub step : Event → Broadcaster → Option Broadcaster
step subscribes b = some (subscribe b)
step (unsubscribes ch) b = if ltb ch b.next then unsubscribe ch b else some b
step (receives ch) b = some (receive ch b)
step (publishes race l) b = publish race l b

pub run : List Event → Broadcaster → Option Broadcaster
run [] b = some b
run (e ∷ es) b = step e b >>= run es
