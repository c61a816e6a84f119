-- ===== src/Server/Fanout.antt =====
-- The sink hands a line to both sides.
use grepod.Prelude.{ℕ, ◌≡◌, refl, Bool, true, Option, some, [], ◌∷◌, ◌++◌, drop, subst, contains}
use grepod.Storage.Line.{LogLine}
use grepod.Storage.Queue.{enqueue}
use grepod.Storage.Broadcast.Valid.{IsValid}
use grepod.Storage.Broadcast.Publish.{publish_delivers, publish-IsValid}
use grepod.Server.{FanoutSink, sink_enqueue}

just_same {ℓ} : {A : Type ℓ} {o : Option A} {x y : A} → o ≡ some x → o ≡ some y → x ≡ y
just_same e e' = cc

-- Enqueue of a line never panics where the broadcaster is valid, whether or not the queue has room:
-- the queue is as after its own Enqueue, every subscribed channel ends in the line, and the
-- broadcaster is valid again.
pub sink_enqueue_delivers :
    {S : Type 0} (now : ℕ) (won : Bool) (race : ℕ → ℕ × ℕ) (l : LogLine) (sink : FanoutSink S)
    → IsValid sink.broadcaster
    → (sink' : FanoutSink S) × (sink_enqueue now won race l sink ≡ some sink')
      × (sink'.queue ≡ enqueue l now won sink.queue)
      × IsValid sink'.broadcaster
      × ((ch : ℕ)
          → contains sink.broadcaster.subs ch ≡ true
          → (k : ℕ) × ((sink'.broadcaster.chans ch).buffer
              ≡ drop k (sink.broadcaster.chans ch).buffer ++ l ∷ []))
unfolding sink_enqueue
sink_enqueue_delivers now won race l sink v =
    let (b, e, subs, ends, others) = publish_delivers race l sink.broadcaster v in
    let (b', e', v') = publish-IsValid race l sink.broadcaster v in
    let same : b' ≡ b = just_same e' e in
    (
      record { queue = enqueue l now won sink.queue; broadcaster = b },
      rw e refl,
      refl,
      subst IsValid same v',
      λ ch m. let (k, at, room) = ends ch m in (k, at),
    )
