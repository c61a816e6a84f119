-- ===== src/Storage/Broadcast/Tests.antt =====
-- Runs of the broadcaster of internal/storage/broadcast.go on concrete schedules.
use grepod.Prelude.{
  ℕ, ◌≤◌, ◌≡◌, refl, true, false, some, List, [], ◌∷◌, ◌++◌, codes, length, drop, contains, update,
}
use grepod.Storage.Line.{LogLine}
use grepod.Storage.Broadcast.{
  Broadcaster, subscriber_buffer_size, new_broadcaster, subscribe, publish, undisturbed, Event,
  subscribes, unsubscribes, receives, publishes, run, publish_to, offer,
}
use grepod.Storage.Broadcast.Valid.{IsValid}
use grepod.Storage.Broadcast.Publish.{publish_delivers}
use grepod.Storage.Broadcast.Traces.{new-IsValid, subscribe-IsValid, run-IsValid}

abbrev line : LogLine
line = record {
  pod = codes "web";
  namespace = codes "default";
  container = codes "app";
  timestamp = 1;
  level = codes "INFO";
  content = codes "hello";
}

-- One subscriber, on channel 0.
abbrev one_subscriber : Broadcaster
one_subscriber = subscribe new_broadcaster

one_subscriber-IsValid : IsValid one_subscriber
one_subscriber-IsValid = subscribe-IsValid new_broadcaster new-IsValid

subscribed : contains one_subscriber.subs 0 ≡ true
unfolding subscribe new_broadcaster
subscribed = refl

publish_delivers_example :
    (b' : Broadcaster) × (publish undisturbed line one_subscriber ≡ some b')
    × (b'.subs ≡ one_subscriber.subs)
    × ((ch : ℕ)
        → contains one_subscriber.subs ch ≡ true
        → (k : ℕ) × ((b'.chans ch).buffer ≡ drop k (one_subscriber.chans ch).buffer ++ line ∷ [])
          × (length (b'.chans ch).buffer ≤ subscriber_buffer_size))
    × ((ch : ℕ) → contains one_subscriber.subs ch ≡ false → b'.chans ch ≡ one_subscriber.chans ch)
publish_delivers_example = publish_delivers undisturbed line one_subscriber one_subscriber-IsValid

-- The broadcaster behind that Publish.
abbrev published : Broadcaster
published = record one_subscriber {
  chans =
      update one_subscriber.chans 0
        (record { buffer = line ∷ []; closed = false; released = false });
}

publish-published : publish undisturbed line one_subscriber ≡ some published
unfolding publish publish_to offer subscribe new_broadcaster
publish-published = refl

abbrev schedule : List Event
schedule =
    subscribes
    ∷ publishes undisturbed line
    ∷ receives 0
    ∷ unsubscribes 0
    ∷ unsubscribes 0
    ∷ publishes undisturbed line
    ∷ []

run-IsValid_example : (b : Broadcaster) × (run schedule new_broadcaster ≡ some b) × IsValid b
run-IsValid_example = run-IsValid schedule
