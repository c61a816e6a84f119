-- ===== src/Storage/Broadcast/Publish.antt =====
-- What Publish leaves in each channel.
use grepod.Prelude.{
  ℕ, ◌+◌, ◌-◌, ◌≤◌, ◌<◌, ◌≡◌, refl, true, false, some, List, [], ◌∷◌, ◌++◌, length, drop, update,
  contains, Distinct, if◌then◌else◌, arith,
}
use grepod.Storage.Line.{LogLine}
use grepod.Storage.Broadcast.Valid.{IsValid}
use grepod.Storage.Broadcast.{
  Broadcaster, Chan, subscriber_buffer_size, publish_to, publish, undisturbed,
}
use grepod.Storage.Broadcast.Offered.{
  offered, offer_open, offered_suffix, length-offered, offered_undisturbed, offered_room,
}

publish_to_open :
    (race : ℕ → ℕ × ℕ) (l : LogLine) (chs : List ℕ) (chans : ℕ → Chan)
    → Distinct chs
    → ((ch : ℕ) → contains chs ch ≡ true → (chans ch).closed ≡ false)
    → (chans' : ℕ → Chan) × (publish_to race l chs chans ≡ some chans')
      × ((ch : ℕ)
          → chans' ch ≡ (
              if contains chs ch
              then record (chans ch) { buffer = offered (race ch) l (chans ch).buffer }
              else chans ch))
unfolding publish_to
publish_to_open race l [] chans d o = (chans, refl, λ ch. refl)
publish_to_open race l (ch ∷ chs) chans d o =
    let c : Chan = record (chans ch) { buffer = offered (race ch) l (chans ch).buffer } in
    let (chans', ran, spec) =
      publish_to_open race l chs (update chans ch c) d.1 (λ x m. ground (arith, o x, o ch)) in
    (
      chans',
      rw (offer_open (race ch) l (chans ch) (o ch (ground arith))) ran,
      λ x. ground (arith, spec x, d.0),
    )

-- The state after a publication to open channels.
publish_open :
    (race : ℕ → ℕ × ℕ) (l : LogLine) (b : Broadcaster)
    → IsValid b
    → (chans : ℕ → Chan) × (publish race l b ≡ some (record b { chans = chans }))
      × ((ch : ℕ)
          → chans ch ≡ (
              if contains b.subs ch
              then record (b.chans ch) { buffer = offered (race ch) l (b.chans ch).buffer }
              else b.chans ch))
unfolding publish
publish_open race l b v =
    let (chans, ran, spec) = publish_to_open race l b.subs b.chans v.distinct v.open_subs in
    (chans, rw ran, spec)

pub publish-IsValid :
    (race : ℕ → ℕ × ℕ) (l : LogLine) (b : Broadcaster)
    → IsValid b
    → (b' : Broadcaster) × (publish race l b ≡ some b') × IsValid b'
publish-IsValid race l b v =
    let (chans, ran, spec) = publish_open race l b v in
    (
      record b { chans = chans },
      ran,
      record {
        distinct = v.distinct;
        open_subs = λ ch m. ground (arith, spec ch, v.open_subs ch);
        known = v.known;
        once = λ ch. ground (arith, spec ch, v.once ch);
        bounded = λ ch.
            ground (arith, spec ch, v.bounded ch, length-offered (race ch) l (b.chans ch).buffer);
      },
    )

-- A subscribed channel that has room gets the line behind what it held, whatever the readers take.
pub publish_fits :
    (race : ℕ → ℕ × ℕ) (l : LogLine) (b : Broadcaster) (ch : ℕ)
    → IsValid b
    → contains b.subs ch ≡ true
    → length (b.chans ch).buffer < subscriber_buffer_size
    → (b' : Broadcaster) × (publish race l b ≡ some b')
      × (b'.subs ≡ b.subs)
      × (b'.chans ch ≡ record (b.chans ch) { buffer = (b.chans ch).buffer ++ l ∷ [] })
publish_fits race l b ch v m room =
    let (chans, ran, spec) = publish_open race l b v in
    let fits : offered (race ch) l (b.chans ch).buffer ≡ (b.chans ch).buffer ++ l ∷ [] =
      offered_room (race ch) l (b.chans ch).buffer room in
    (record b { chans = chans }, ran, refl, ground (arith, spec ch, m, fits))

-- Publish to a valid broadcaster does not panic, whatever the readers take meanwhile. The set of
-- subscribers stays; each subscribed channel then ends in the new line, behind a suffix of what it
-- held, within its capacity; and a channel that is not subscribed is as it was.
pub publish_delivers :
    (race : ℕ → ℕ × ℕ) (l : LogLine) (b : Broadcaster)
    → IsValid b
    → (b' : Broadcaster) × (publish race l b ≡ some b')
      × (b'.subs ≡ b.subs)
      × ((ch : ℕ)
          → contains b.subs ch ≡ true
          → (k : ℕ) × ((b'.chans ch).buffer ≡ drop k (b.chans ch).buffer ++ l ∷ [])
            × (length (b'.chans ch).buffer ≤ subscriber_buffer_size))
      × ((ch : ℕ) → contains b.subs ch ≡ false → b'.chans ch ≡ b.chans ch)
publish_delivers race l b v =
    let (chans, ran, spec) = publish_open race l b v in
    (
      record b { chans = chans },
      ran,
      refl,
      (λ ch m. delivered chans spec ch m),
      λ ch m. ground (arith, spec ch),
    )
  where
    delivered :
        (chans : ℕ → Chan)
        → ((ch : ℕ)
            → chans ch ≡ (
                if contains b.subs ch
                then record (b.chans ch) { buffer = offered (race ch) l (b.chans ch).buffer }
                else b.chans ch))
        → (ch : ℕ) → contains b.subs ch ≡ true
        → (k : ℕ) × ((chans ch).buffer ≡ drop k (b.chans ch).buffer ++ l ∷ [])
          × (length (chans ch).buffer ≤ subscriber_buffer_size)
    delivered chans spec ch m =
        let (k, e) = offered_suffix (race ch) l (b.chans ch).buffer (v.bounded ch) in
        (
          k,
          ground (arith, spec ch, e),
          ground (arith, spec ch, length-offered (race ch) l (b.chans ch).buffer, v.bounded ch),
        )

-- Where no reader takes a line meanwhile, a subscribed channel then holds the newest 256 lines of
-- what it held and the new one: nothing is evicted while there is room, and one line else.
pub publish_keeps_newest :
    (l : LogLine) (b b' : Broadcaster)
    → IsValid b
    → publish undisturbed l b ≡ some b'
    → (ch : ℕ) → contains b.subs ch ≡ true
    → (b'.chans ch).buffer
      ≡ drop
          (length (b.chans ch).buffer + 1 - subscriber_buffer_size)
          ((b.chans ch).buffer ++ l ∷ [])
publish_keeps_newest l b b' v h ch m =
    let (chans, ran, spec) = publish_open undisturbed l b v in
    ground (arith, ran, spec ch, offered_undisturbed l (b.chans ch).buffer (v.bounded ch))
