-- ===== src/Api/Tail/Delivers.antt =====
-- A reader that keeps up gets every line that passes its filters, and then leaves the broadcaster.
use grepod.Prelude.{
  ℕ, zero, suc, ◌≤◌, ◌≡◌, refl, ap, sym, ◌∙◌, subst, inl, inr, true, false, some, List, [], ◌∷◌,
  ◌++◌, append_assoc, append-nil, length, length-append, map, contains, Text, arith, Bool-cases,
  Option-cases, map-append_lem, ◌>>=◌, remove, keep, if◌then◌else◌,
}
use grepod.Storage.Line.{LogLine}
use grepod.Storage.Broadcast.{Broadcaster, subscriber_buffer_size, subscribe}
use grepod.Storage.Broadcast.Valid.{IsValid}
use grepod.Storage.Broadcast.Traces.{unused, subscribe-IsValid, unsubscribe_live}
use grepod.Api.Tail.{
  Filters, Stream, Happening, reads, done, passes, frame, output, return, happen, follow,
  open_stream,
}
use grepod.Api.Tail.Follow.{
  Traffic, line, read, happening, lines_of, KeepsUp, repeated, Live, outputs, Went, publish-Went,
  read-Went, wait-Went,
}

module _ (lower : ℕ → ℕ) (filters : Filters) where
  record Followed (hs : List Happening) (s : Stream) (whole : Text) (rest : List LogLine)
      : Type 0 where
    last : Stream
    ran : follow lower filters hs s ≡ some last
    live : Live last rest
    same_ch : last.ch ≡ s.ch
    same_subs : last.broadcaster.subs ≡ s.broadcaster.subs
    writes : last.written ++ outputs lower filters rest ≡ whole

  nothing_happens :
      (s : Stream) (buffer : List LogLine)
      → Live s buffer
      → Followed [] s (s.written ++ outputs lower filters buffer) buffer
  unfolding follow
  nothing_happens s buffer v = record {
    last = s;
    ran = refl;
    live = v;
    same_ch = refl;
    same_subs = refl;
    writes = refl;
  }

  -- A step, and what follows it.
  and_then :
      (h : Happening) (hs : List Happening) (s : Stream) (buffer rest : List LogLine)
      (written whole : Text) (w : Went lower filters h s buffer written)
      → Followed hs w.next whole rest
      → Followed (h ∷ hs) s whole rest
  unfolding follow
  and_then h hs s buffer rest written whole w f = record {
    last = f.last;
    ran = rw w.went f.ran;
    live = f.live;
    same_ch = f.same_ch ∙ w.same_ch;
    same_subs = f.same_subs ∙ w.same_subs;
    writes = f.writes;
  }

  -- Enough reads write all that waits.
  drained :
      (n : ℕ) (s : Stream) (buffer : List LogLine)
      → Live s buffer
      → length buffer ≤ n
      → Followed (map happening (repeated n)) s (s.written ++ outputs lower filters buffer) []
  drained zero s [] v h = nothing_happens s [] v
  drained zero s (l ∷ buffer) v h = absurd (omega arith)
  drained (suc n) s [] v h =
      let w = wait-Went lower filters s v in
      and_then reads _ s [] [] s.written _ w (
        subst (λ t. Followed (map happening (repeated n)) w.next t []) (ap (λ t. t ++ []) w.writes)
          (drained n w.next [] w.live (omega arith)))
  drained (suc n) s (l ∷ buffer) v h =
      let w = read-Went lower filters l s buffer v in
      and_then reads _ s buffer [] (s.written ++ output lower filters l) _ w (
        subst (λ t. Followed (map happening (repeated n)) w.next t [])
          (ap (λ t. t ++ outputs lower filters buffer) w.writes
            ∙ append_assoc s.written (output lower filters l) (outputs lower filters buffer))
          (drained n w.next buffer w.live (omega (arith, h))))

  record Caught (ts : List Traffic) (s : Stream) (whole : Text) : Type 0 where
    rest : List LogLine
    followed : Followed (map happening ts) s whole rest

  -- What is written and what still waits are the outputs of the published lines.
  traffic-Caught :
      (ts : List Traffic) (s : Stream) (buffer : List LogLine)
      → Live s buffer
      → KeepsUp (length buffer) ts
      → Caught ts s (s.written ++ outputs lower filters (buffer ++ lines_of ts))
  traffic-Caught [] s buffer v h = record {
    rest = buffer;
    followed =
        subst (λ ls. Followed [] s (s.written ++ outputs lower filters ls) buffer)
          (sym (append-nil buffer)) (nothing_happens s buffer v);
  }
  traffic-Caught (line race l ∷ ts) s buffer v h =
      let w = publish-Went lower filters race l s buffer v h.0 in
      let c =
        traffic-Caught ts w.next (buffer ++ l ∷ []) w.live
          (subst (λ k. KeepsUp k ts) (omega (arith, length-append buffer (l ∷ []))) h.1) in
      record {
        rest = c.rest;
        followed = and_then _ _ s (buffer ++ l ∷ []) c.rest s.written _ w (
            subst (λ t. Followed (map happening ts) w.next t c.rest)
              (ap (λ t. t ++ outputs lower filters ((buffer ++ l ∷ []) ++ lines_of ts)) w.writes
                ∙ ap (λ ls. s.written ++ outputs lower filters ls)
                    (append_assoc buffer (l ∷ []) (lines_of ts)))
              c.followed);
      }
  traffic-Caught (read ∷ ts) s [] v h =
      let w = wait-Went lower filters s v in
      let c = traffic-Caught ts w.next [] w.live h in
      record {
        rest = c.rest;
        followed = and_then reads _ s [] c.rest s.written _ w (
            subst (λ t. Followed (map happening ts) w.next t c.rest)
              (ap (λ t. t ++ outputs lower filters (lines_of ts)) w.writes) c.followed);
      }
  traffic-Caught (read ∷ ts) s (l ∷ buffer) v h =
      let w = read-Went lower filters l s buffer v in
      let c = traffic-Caught ts w.next buffer w.live (subst (λ k. KeepsUp k ts) (omega arith) h) in
      record {
        rest = c.rest;
        followed = and_then reads _ s buffer c.rest (s.written ++ output lower filters l) _ w (
            subst (λ t. Followed (map happening ts) w.next t c.rest)
              (ap (λ t. t ++ outputs lower filters (buffer ++ lines_of ts)) w.writes
                ∙ append_assoc s.written (output lower filters l)
                    (outputs lower filters (buffer ++ lines_of ts)))
              c.followed);
      }

  -- The frames of some lines, one after the other.
  abbrev pub frames : List LogLine → Text
  frames [] = []
  frames (l ∷ ls) = frame l ++ frames ls

  outputs-frames :
      (ls : List LogLine) → outputs lower filters ls ≡ frames (keep (passes lower filters) ls)
  unfolding output
  outputs-frames [] = refl
  outputs-frames (l ∷ ls) = elim (Bool-cases (passes lower filters l)) [
    | inl e ↦ rw e (ap (λ t. frame l ++ t) (outputs-frames ls))
    | inr e ↦ rw e (outputs-frames ls)
  ]

  follow-append :
      (hs gs : List Happening) (s : Stream)
      → follow lower filters (hs ++ gs) s ≡ (follow lower filters hs s >>= follow lower filters gs)
  unfolding follow
  follow-append [] gs s = refl
  follow-append (h ∷ hs) gs s = elim (Option-cases (happen lower filters h s)) [
    | inl e ↦ rw e refl
    | inr (s', e) ↦ rw e (follow-append hs gs s')
  ]

  open_stream-Live : (b : Broadcaster) → IsValid b → Live (open_stream b) []
  unfolding open_stream subscribe
  open_stream-Live b v = record {
    valid = unfold subscribe in subscribe-IsValid b v;
    subscribed = ground arith;
    holds = ground arith;
    going = refl;
  }

  -- The end of the request: the channel leaves the subscribers.
  left_behind :
      (s : Stream)
      → Live s []
      → (s' : Stream) × (follow lower filters (done ∷ []) s ≡ some s')
        × (s'.ended ≡ true)
        × (s'.broadcaster.subs ≡ remove s.ch s.broadcaster.subs)
  unfolding follow happen return
  left_behind s v =
      let (b, e, subs) = unsubscribe_live s.ch s.broadcaster v.valid v.subscribed in
      (
        record s { broadcaster = b; ended = true },
        ap (λ w. (if w then some s else return s) >>= λ x. some x) v.going ∙ rw e refl,
        refl,
        subs,
      )

  remove_absent : (a : ℕ) (xs : List ℕ) → contains xs a ≡ false → remove a xs ≡ xs
  remove_absent a [] h = refl
  remove_absent a (x ∷ xs) h = ground (arith, remove_absent a xs)

  left_subs :
      (b : Broadcaster)
      → IsValid b
      → (s : Stream) → s.ch ≡ (open_stream b).ch
      → s.broadcaster.subs ≡ (open_stream b).broadcaster.subs
      → remove s.ch s.broadcaster.subs ≡ b.subs
  unfolding open_stream subscribe
  left_subs b v s same_ch same_subs =
      ap (λ c. remove c s.broadcaster.subs) same_ch
      ∙ (ap (remove b.next) same_subs ∙ ground (arith, remove_absent b.next b.subs (unused b v)))

  opened_written :
      (b : Broadcaster) (ts : List Traffic)
      → (open_stream b).written ++ outputs lower filters ([] ++ lines_of ts)
        ≡ frames (keep (passes lower filters) (lines_of ts))
  unfolding open_stream
  opened_written b ts = outputs-frames (lines_of ts)

  -- A request is followed on a broadcaster that is valid, and lines are published to it by whoever, while
  -- readers of any channel take lines, interleaved with reads of the stream in any order in which never
  -- more than 256 lines wait. When the stream has read 256 times more, it is open, and what was written
  -- is the frames of the published lines that pass the filters, each one once, in the order in which
  -- they were published. Once the request is done the handler returns, and the subscribers are what they
  -- were before.
  pub tail_delivers :
      (b : Broadcaster) (ts : List Traffic)
      → IsValid b
      → KeepsUp 0 ts
      → (s : Stream) × (follow lower filters
            (map happening (ts ++ repeated subscriber_buffer_size))
            (open_stream b)
          ≡ some s)
        × (s.ended ≡ false)
        × (s.written ≡ frames (keep (passes lower filters) (lines_of ts)))
        × (s' : Stream) × (follow lower filters (done ∷ []) s ≡ some s')
        × (s'.ended ≡ true)
        × (s'.broadcaster.subs ≡ b.subs)
  tail_delivers b ts v h =
      let opened = open_stream-Live b v in
      let c = traffic-Caught ts (open_stream b) [] opened h in
      let f = c.followed in
      let bounded : length c.rest ≤ subscriber_buffer_size =
        subst (λ xs. length xs ≤ subscriber_buffer_size) f.live.holds
          (f.live.valid.bounded f.last.ch) in
      let g = drained subscriber_buffer_size f.last c.rest f.live bounded in
      let (s', e, ended, subs) = left_behind g.last g.live in
      (
        g.last,
        ap (λ hs. follow lower filters hs (open_stream b))
              (sym (map-append_lem happening ts (repeated subscriber_buffer_size)))
            ∙ (follow-append (map happening ts) (map happening (repeated subscriber_buffer_size))
                  (open_stream b)
                ∙ rw f.ran g.ran),
        g.live.going,
        sym (append-nil g.last.written) ∙ (g.writes ∙ (f.writes ∙ opened_written b ts)),
        s',
        e,
        ended,
        subs ∙ left_subs b v g.last (g.same_ch ∙ f.same_ch) (g.same_subs ∙ f.same_subs),
      )
