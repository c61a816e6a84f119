-- ===== src/Storage/Broadcast/Traces.antt =====
-- Schedules of subscriptions, publications and reads.
use grepod.Prelude.{
  ℕ, ◌≡◌, refl, inl, inr, true, false, some, List, [], ◌∷◌, length-drop, update, contains,
  contains-remove, remove, remove-Distinct, ltb, arith, Bool-cases,
}
use grepod.Storage.Broadcast.{
  Broadcaster, new_broadcaster, subscribe, unsubscribe, receive, Event, subscribes, unsubscribes,
  receives, publishes, step, run,
}
use grepod.Storage.Broadcast.Valid.{IsValid}
use grepod.Storage.Broadcast.Publish.{publish-IsValid}

pub new-IsValid : IsValid new_broadcaster
unfolding new_broadcaster
new-IsValid = record {
  distinct = tt;
  open_subs = λ ch m. cc;
  known = λ ch m. ground arith;
  once = λ ch. refl;
  bounded = λ ch. omega arith;
}

-- A number that no channel has is not subscribed.
pub unused : (b : Broadcaster) → IsValid b → contains b.subs b.next ≡ false
unused b v = ground (arith, v.known b.next)

pub subscribe-IsValid : (b : Broadcaster) → IsValid b → IsValid (subscribe b)
unfolding subscribe
subscribe-IsValid b v = record {
  distinct = (unused b v, v.distinct);
  open_subs = λ ch m. ground (arith, v.open_subs ch);
  known = λ ch m. ground (arith, v.known ch);
  once = λ ch. ground (arith, v.once ch);
  bounded = λ ch. ground (arith, v.bounded ch);
}

pub receive-IsValid : (ch : ℕ) (b : Broadcaster) → IsValid b → IsValid (receive ch b)
unfolding receive
receive-IsValid ch b v = record {
  distinct = v.distinct;
  open_subs = λ x m. ground (arith, v.open_subs x);
  known = λ x m. v.known x m;
  once = λ x. ground (arith, v.once x);
  bounded = λ x. ground (arith, v.bounded x, length-drop 1 (b.chans ch).buffer);
}

pub unsubscribe-IsValid :
    (ch : ℕ) (b : Broadcaster)
    → IsValid b
    → (b' : Broadcaster) × (unsubscribe ch b ≡ some b') × IsValid b'
unfolding unsubscribe
unsubscribe-IsValid ch b v = elim (Bool-cases (b.chans ch).released) [
  | inl ended ↦ (b, rw ended, v)
  | inr live ↦ (
    record b {
      subs = remove ch b.subs;
      chans = update b.chans ch (record (b.chans ch) { closed = true; released = true });
    },
    ground (arith, v.once ch),
    record {
      distinct = remove-Distinct ch b.subs v.distinct;
      open_subs = λ x m. ground (arith, v.open_subs x, contains-remove ch x b.subs);
      known = λ x m. ground (arith, v.known x, contains-remove ch x b.subs);
      once = λ x. ground (arith, v.once x);
      bounded = λ x. ground (arith, v.bounded x);
    },
  )
]

step-IsValid :
    (e : Event) (b : Broadcaster)
    → IsValid b
    → (b' : Broadcaster) × (step e b ≡ some b') × IsValid b'
unfolding step
step-IsValid subscribes b v = (subscribe b, refl, subscribe-IsValid b v)
step-IsValid (unsubscribes ch) b v = elim (Bool-cases (ltb ch b.next)) [
  | inl made ↦ rw made (unsubscribe-IsValid ch b v)
  | inr unmade ↦ rw unmade (b, refl, v)
]
step-IsValid (receives ch) b v = (receive ch b, refl, receive-IsValid ch b v)
step-IsValid (publishes race l) b v = publish-IsValid race l b v

run_goes-IsValid :
    (es : List Event) (b : Broadcaster)
    → IsValid b
    → (b' : Broadcaster) × (run es b ≡ some b') × IsValid b'
unfolding run
run_goes-IsValid [] b v = (b, refl, v)
run_goes-IsValid (e ∷ es) b v =
    let (b', stepped, v') = step-IsValid e b v in
    let (b'', ran, v'') = run_goes-IsValid es b' v' in (b'', rw stepped ran, v'')

-- No schedule panics: no line is sent to a closed channel, and no channel is closed twice, also
-- when a subscription is ended again. After every schedule the subscribed channels are distinct
-- and open, exactly the ended subscriptions are closed, and no buffer is over its capacity.
pub run-IsValid :
    (es : List Event) → (b : Broadcaster) × (run es new_broadcaster ≡ some b) × IsValid b
run-IsValid es = run_goes-IsValid es new_broadcaster new-IsValid

-- Ending a live subscription takes its channel from the subscribers, and no other.
pub unsubscribe_live :
    (ch : ℕ) (b : Broadcaster)
    → IsValid b
    → contains b.subs ch ≡ true
    → (b' : Broadcaster) × (unsubscribe ch b ≡ some b') × (b'.subs ≡ remove ch b.subs)
unfolding unsubscribe
unsubscribe_live ch b v m = (
  record b {
    subs = remove ch b.subs;
    chans = update b.chans ch (record (b.chans ch) { closed = true; released = true });
  },
  ground (arith, v.once ch, v.open_subs ch m),
  refl,
)

-- Ending a subscription closes its channel and takes it from the subscribers; the lines that it
-- holds can still be read, and ending it again changes nothing.
pub unsubscribe_ends :
    (ch : ℕ) (b : Broadcaster)
    → IsValid b
    → contains b.subs ch ≡ true
    → (b' : Broadcaster) × (unsubscribe ch b ≡ some b')
      × (contains b'.subs ch ≡ false)
      × ((b'.chans ch).closed ≡ true)
      × ((b'.chans ch).buffer ≡ (b.chans ch).buffer)
      × (unsubscribe ch b' ≡ some b')
unfolding unsubscribe
unsubscribe_ends ch b v m =
    let open_ch = v.open_subs ch m in
    let b' : Broadcaster = record b {
      subs = remove ch b.subs;
      chans = update b.chans ch (record (b.chans ch) { closed = true; released = true });
    } in
    (
      b',
      ground (arith, open_ch, v.once ch),
      ground (arith, contains-remove ch ch b.subs),
      ground arith,
      ground arith,
      ground arith,
    )
