-- ===== src/Api/Tail/Follow.antt =====
-- The stream of a reader that keeps up.
use grepod.Prelude.{
  ℕ, zero, suc, ◌-◌, ◌<◌, ◌≡◌, refl, ap, sym, ◌∙◌, subst, true, false, Option, some, List, [], ◌∷◌,
  ◌++◌, length, contains, Text, arith, if◌then◌else◌,
}
use grepod.Storage.Line.{LogLine}
use grepod.Storage.Broadcast.{publishes, receive, step, subscriber_buffer_size}
use grepod.Storage.Broadcast.Valid.{IsValid}
use grepod.Storage.Broadcast.Publish.{publish-IsValid, publish_fits}
use grepod.Storage.Broadcast.Traces.{receive-IsValid}
use grepod.Api.Tail.{
  Filters, Stream, Happening, reads, others, output, receive_from, receive_line, happen,
}

just_same {ℓ} : {A : Type ℓ} {o : Option A} {x y : A} → o ≡ some x → o ≡ some y → x ≡ y
just_same e e' = cc

-- What goes on at a stream: a line is published, or the handler reads.
pub data Traffic : Type 0 where
  line : (ℕ → ℕ × ℕ) → LogLine → Traffic
  read : Traffic

abbrev pub happening : Traffic → Happening
happening (line race l) = others (publishes race l)
happening read = reads

-- The published lines, in order.
abbrev pub lines_of : List Traffic → List LogLine
lines_of [] = []
lines_of (line race l ∷ ts) = l ∷ lines_of ts
lines_of (read ∷ ts) = lines_of ts

-- From `pending` lines that wait on, never more than the buffer holds.
abbrev pub KeepsUp : ℕ → List Traffic → Type 0
KeepsUp pending [] = Unit
KeepsUp pending (line race l ∷ ts) = (pending < subscriber_buffer_size) × KeepsUp (suc pending) ts
KeepsUp pending (read ∷ ts) = KeepsUp (pending - 1) ts

abbrev pub repeated : ℕ → List Traffic
repeated zero = []
repeated (suc n) = read ∷ repeated n

-- A stream that goes on, with the lines that wait.
pub record Live (s : Stream) (buffer : List LogLine) : Type 0 where
  pub valid : IsValid s.broadcaster
  pub subscribed : contains s.broadcaster.subs s.ch ≡ true
  pub holds : (s.broadcaster.chans s.ch).buffer ≡ buffer
  pub going : s.ended ≡ false

module _ (lower : ℕ → ℕ) (filters : Filters) where
  -- What is written for some lines.
  abbrev pub outputs : List LogLine → Text
  outputs [] = []
  outputs (l ∷ ls) = output lower filters l ++ outputs ls

  -- One step, and what it leaves.
  pub record Went (h : Happening) (s : Stream) (buffer : List LogLine) (written : Text)
      : Type 0 where
    pub next : Stream
    pub went : happen lower filters h s ≡ some next
    pub live : Live next buffer
    pub same_ch : next.ch ≡ s.ch
    pub same_subs : next.broadcaster.subs ≡ s.broadcaster.subs
    pub writes : next.written ≡ written

  pub publish-Went :
      (race : ℕ → ℕ × ℕ) (l : LogLine) (s : Stream) (buffer : List LogLine)
      → Live s buffer
      → length buffer < subscriber_buffer_size
      → Went (others (publishes race l)) s (buffer ++ l ∷ []) s.written
  publish-Went race l s buffer v room =
      let (b, e, subs, at) =
        publish_fits race l s.broadcaster s.ch v.valid v.subscribed
          (subst (λ xs. length xs < subscriber_buffer_size) (sym v.holds) room) in
      let (b', e', v') = publish-IsValid race l s.broadcaster v.valid in
      record {
        next = record s { broadcaster = b };
        went = unfold happen step in rw e refl;
        live = record {
          valid = subst IsValid (just_same e' e) v';
          subscribed = subst (λ xs. contains xs s.ch ≡ true) (sym subs) v.subscribed;
          holds = ap (λ c. c.buffer) at ∙ ap (λ xs. xs ++ l ∷ []) v.holds;
          going = v.going;
        };
        same_ch = refl;
        same_subs = subs;
        writes = refl;
      }

  reads-from :
      (s : Stream) (buffer : List LogLine)
      → Live s buffer
      → happen lower filters reads s ≡ receive_from lower filters buffer s
  unfolding happen receive_line
  reads-from s buffer v =
      ap (λ b. if b then some s else receive_line lower filters s) v.going
      ∙ ap (λ xs. receive_from lower filters xs s) v.holds

  pub read-Went :
      (l : LogLine) (s : Stream) (buffer : List LogLine)
      → Live s (l ∷ buffer)
      → Went reads s buffer (s.written ++ output lower filters l)
  read-Went l s buffer v = record {
    next = record s {
      broadcaster = receive s.ch s.broadcaster;
      written = s.written ++ output lower filters l;
    };
    went = reads-from s (l ∷ buffer) v ∙ unfold receive_from in refl;
    live = record {
      valid = receive-IsValid s.ch s.broadcaster v.valid;
      subscribed = unfold receive in v.subscribed;
      holds = unfold receive in ground (arith, v.holds);
      going = v.going;
    };
    same_ch = refl;
    same_subs = unfold receive in refl;
    writes = refl;
  }

  pub wait-Went : (s : Stream) → Live s [] → Went reads s [] s.written
  wait-Went s v = record {
    next = s;
    went =
        reads-from s [] v ∙ unfold receive_from in simp (v.valid.open_subs s.ch v.subscribed) refl;
    live = v;
    same_ch = refl;
    same_subs = refl;
    writes = refl;
  }
