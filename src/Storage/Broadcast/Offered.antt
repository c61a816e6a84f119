-- ===== src/Storage/Broadcast/Offered.antt =====
-- The buffer of a channel after one offer of Publish.
use grepod.Prelude.{
  ℕ, zero, suc, ◌+◌, ◌-◌, ◌≤◌, ◌<◌, lt→ltb, ◌≡◌, refl, sym, ap, ◌∙◌, inl, inr, false, some, List,
  [], ◌∷◌, ◌++◌, length, length-append, length-drop, drop, drop-append, if◌then◌else◌, ltb, arith,
  Bool-cases, tests,
}
use grepod.Storage.Line.{LogLine}
use grepod.Storage.Broadcast.{Chan, subscriber_buffer_size, offer, evict_and_send}

-- The buffer after an offer, with no channel to fail: at most the oldest line goes, and what the
-- reader takes.
unfoldable pub offered : ℕ × ℕ → LogLine → List LogLine → List LogLine
unfolding evict_and_send
offered (taken, taken') l buffer =
    if ltb (length buffer) subscriber_buffer_size
    then buffer ++ l ∷ []
    else evict_and_send taken taken' l buffer

pub offer_open :
    (r : ℕ × ℕ) (l : LogLine) (c : Chan)
    → c.closed ≡ false
    → offer r l c ≡ some (record c { buffer = offered r l c.buffer })
unfolding offer offered
offer_open (taken, taken') l c h = rw h (ground arith)

drop_nil : {A : Type 0} (n : ℕ) → drop {A = A} n [] ≡ []
drop_nil zero = refl
drop_nil (suc n) = refl

drop_twice : {A : Type 0} (a b : ℕ) (xs : List A) → (k : ℕ) × (drop a (drop b xs) ≡ drop k xs)
drop_twice a zero xs = (a, refl)
drop_twice a (suc b) [] = (0, drop_nil a)
drop_twice a (suc b) (x ∷ xs) = let (k, e) = drop_twice a b xs in (suc k, e)

drop_thrice :
    {A : Type 0} (a b c : ℕ) (xs : List A) → (k : ℕ) × (drop a (drop b (drop c xs)) ≡ drop k xs)
drop_thrice a b c xs =
    let (j, e) = drop_twice b c xs in let (k, f) = drop_twice a j xs in (k, ap (drop a) e ∙ f)

-- What is evicted leaves room: the send behind an eviction never fails.
evicted :
    (taken taken' : ℕ) (l : LogLine) (buffer : List LogLine)
    → length buffer ≤ subscriber_buffer_size
    → evict_and_send taken taken' l buffer ≡ drop taken' (drop 1 (drop taken buffer)) ++ l ∷ []
unfolding evict_and_send
evicted taken taken' l buffer h = ground (
  arith,
  length-drop taken' (drop 1 (drop taken buffer)),
  length-drop 1 (drop taken buffer),
  length-drop taken buffer,
)

-- The new line is always at the end, and the lines before it are the end of what was there.
pub offered_suffix :
    (r : ℕ × ℕ) (l : LogLine) (buffer : List LogLine)
    → length buffer ≤ subscriber_buffer_size
    → (k : ℕ) × (offered r l buffer ≡ drop k buffer ++ l ∷ [])
unfolding offered
offered_suffix (taken, taken') l buffer h =
    elim (Bool-cases (ltb (length buffer) subscriber_buffer_size)) [
      | inl room ↦ (0, rw room)
      | inr full ↦
          let (k, e) = drop_thrice taken' 1 taken buffer in
          (k, rw (full, evicted taken taken' l buffer h) (ap (λ t. t ++ l ∷ []) e))
    ]

pub length-offered :
    (r : ℕ × ℕ) (l : LogLine) (buffer : List LogLine)
    → length buffer ≤ subscriber_buffer_size
    → length (offered r l buffer) ≤ subscriber_buffer_size
unfolding offered
length-offered (taken, taken') l buffer h =
    elim (Bool-cases (ltb (length buffer) subscriber_buffer_size)) [
      | inl room ↦ rw room (omega (tests, length-append buffer (l ∷ [])))
      | inr full ↦
          rw (full, evicted taken taken' l buffer h)
            (omega (
              arith,
              length-append (drop taken' (drop 1 (drop taken buffer))) (l ∷ []),
              length-drop taken' (drop 1 (drop taken buffer)),
              length-drop 1 (drop taken buffer),
              length-drop taken buffer,
            ))
    ]

pub offered_undisturbed :
    (l : LogLine) (buffer : List LogLine)
    → length buffer ≤ subscriber_buffer_size
    → offered (0, 0) l buffer ≡ drop (length buffer + 1 - subscriber_buffer_size) (buffer ++ l ∷ [])
unfolding offered
offered_undisturbed l buffer h = elim (Bool-cases (ltb (length buffer) subscriber_buffer_size)) [
  | inl room ↦ let e : length buffer + 1 - subscriber_buffer_size ≡ 0 = omega tests in rw (room, e)
  | inr full ↦
      let e : length buffer + 1 - subscriber_buffer_size ≡ 1 = omega tests in
      rw (full, e, evicted 0 0 l buffer h) (sym (drop-append 1 buffer (l ∷ []) (omega tests)))
]

pub offered_room :
    (r : ℕ × ℕ) (l : LogLine) (buffer : List LogLine)
    → length buffer < subscriber_buffer_size
    → offered r l buffer ≡ buffer ++ l ∷ []
unfolding offered
offered_room (taken, taken') l buffer room =
    rw (lt→ltb (length buffer) subscriber_buffer_size room) refl
