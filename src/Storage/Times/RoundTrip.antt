-- ===== src/Storage/Times/RoundTrip.antt =====
-- The text of a time is read back as that time.
use grepod.Prelude.{
  ℕ, zero, suc, ◌+◌, ◌*◌, ◌/◌, ◌%◌, ◌^◌, ◌<◌, ◌≡◌, refl, ap, ◌∙◌, subst, inl, inr, true, false,
  some, [], ◌∷◌, ◌++◌, nat_beq, take, drop, if◌then◌else◌, Text, Bool-cases, arith, lt→ltb,
}
use native.Mathlib.Nat.{one-le-pow, div-lt_iff_lt-mul, div-add-mod, mod-lt, mul_comm}
use grepod.Prelude.Int.{pos}
use grepod.Storage.Line.{Time}
use grepod.Storage.Shards.{day_length, day_of}
use grepod.Storage.Dates.{digit, format_date, write_date}
use grepod.Storage.Dates.Parse.{is_digit, digit_value, two_of, parse_date}
use grepod.Storage.Dates.Parse.RoundTrip.{two-digit, parse_date-format_date}
use grepod.Storage.Times.{
  second, two_digits, write_clock, fraction, write_nanos, format_time, below, read_fraction,
  read_nanos, hour_of, parse_time,
}

digit-is_digit : (n : ℕ) → is_digit (digit n) ≡ true
digit-is_digit n = ground arith

hour_of-two : (n : ℕ) (s : Text) → hour_of (two_digits n s) ≡ two_of (two_digits n s)
hour_of-two n s = rw (digit-is_digit (n / 10), digit-is_digit n) refl

hour-two : (n : ℕ) (s : Text) → n < 24 → below 24 (hour_of (two_digits n s)) ≡ some (n, s)
hour-two n s h =
    ap (below 24) (hour_of-two n s ∙ two-digit n s (omega arith)) ∙ rw (lt→ltb n 24 h) refl

below-two : (n : ℕ) (s : Text) → n < 60 → below 60 (two_of (two_digits n s)) ≡ some (n, s)
below-two n s h = ap (below 60) (two-digit n s (omega arith)) ∙ rw (lt→ltb n 60 h) refl

read-fraction : (k n : ℕ) → n < 10 ^ k → read_fraction k (fraction k n (b'Z' ∷ [])) ≡ (n, b'Z' ∷ [])
read-fraction zero n h = ap (λ i. (i, b'Z' ∷ [])) (omega arith)
read-fraction (suc k) n h = elim (Bool-cases (nat_beq n 0)) [
  | inl e ↦ rw e (ap (λ i. (i, b'Z' ∷ [])) (ground (arith, e)))
  | inr e ↦
      let p = 10 ^ k in
      let positive : 0 < p = one-le-pow k 10 (omega arith) in
      let top : n / p < 10 = (div-lt_iff_lt-mul positive).1 (omega arith) in
      let value : digit_value (digit (n / p)) ≡ n / p = omega (arith, top) in
      let whole : n / p * p + n % p ≡ n =
        subst (λ z. z + n % p ≡ n) (mul_comm p (n / p)) (div-add-mod n p) in
      let rest = read-fraction k (n % p) (mod-lt n positive) in
      rw (e, digit-is_digit (n / p), rest, value, whole) refl
]

read_nanos-fraction :
    (k n : ℕ) (s : Text)
    → nat_beq n 0 ≡ false
    → read_nanos (b'.' ∷ fraction (suc k) n s) ≡ read_fraction 9 (fraction (suc k) n s)
read_nanos-fraction k n s e = rw (e, digit-is_digit (n / 10 ^ k)) refl

read-write_nanos : (n : ℕ) → n < second → read_nanos (write_nanos n (b'Z' ∷ [])) ≡ (n, b'Z' ∷ [])
read-write_nanos n h = elim (Bool-cases (nat_beq n 0)) [
  | inl e ↦
      ap (λ w. read_nanos (if w then b'Z' ∷ [] else b'.' ∷ fraction 9 n (b'Z' ∷ []))) e
      ∙ ap (λ i. (i, b'Z' ∷ [])) (ground (arith, e))
  | inr e ↦
      ap (λ w. read_nanos (if w then b'Z' ∷ [] else b'.' ∷ fraction 9 n (b'Z' ∷ []))) e
      ∙ (read_nanos-fraction 8 n (b'Z' ∷ []) e ∙ read-fraction 9 n h)
]

-- What is read behind a date.
read-format :
    (date : Text) (day n nanos : ℕ)
    → take 10 (date ++ b'T' ∷ write_clock n (write_nanos nanos (b'Z' ∷ []))) ≡ date
    → drop 10 (date ++ b'T' ∷ write_clock n (write_nanos nanos (b'Z' ∷ [])))
      ≡ b'T' ∷ write_clock n (write_nanos nanos (b'Z' ∷ []))
    → parse_date date ≡ some (pos day)
    → n < 86_400
    → nanos < second
    → parse_time (date ++ b'T' ∷ write_clock n (write_nanos nanos (b'Z' ∷ [])))
      ≡ some (day * day_length + n * second + nanos)
unfolding parse_time
read-format date day n nanos front back dated h h' =
    let rest = write_nanos nanos (b'Z' ∷ []) in
    let clock : n / 3600 * 3600 + n / 60 % 60 * 60 + n % 60 ≡ n = omega arith in
    rw
      (
        front,
        dated,
        back,
        hour-two (n / 3600) (b':' ∷ two_digits (n / 60 % 60) (b':' ∷ two_digits (n % 60) rest))
            (omega arith),
        below-two (n / 60 % 60) (b':' ∷ two_digits (n % 60) rest) (omega arith),
        below-two (n % 60) rest (omega arith),
        read-write_nanos nanos h',
        clock,
      )
      refl

dated :
    (y : ℕ) (md : ℕ × ℕ) (day n nanos : ℕ)
    → parse_date (write_date y md) ≡ some (pos day)
    → n < 86_400
    → nanos < second
    → parse_time (write_date y md ++ b'T' ∷ write_clock n (write_nanos nanos (b'Z' ∷ [])))
      ≡ some (day * day_length + n * second + nanos)
dated y md day n nanos e h h' = read-format (write_date y md) day n nanos refl refl e h h'

-- The text of a time in UTC, up to the year 9999, is read back as that time, to the nanosecond.
pub parse_time-format_time :
    (t : Time) → t < 3_652_059 * day_length → parse_time (format_time t) ≡ some t
unfolding format_time format_date
parse_time-format_time t h =
    let whole : day_of t * day_length + t % day_length / second * second + t % second ≡ t =
      omega arith in
    dated _ _ (day_of t) (t % day_length / second) (t % second)
      (parse_date-format_date (day_of t) (omega arith)) (omega arith) (omega arith)
    ∙ ap some whole
