-- ===== src/Storage/Times.antt =====
-- Format and time.Parse with time.RFC3339Nano, as internal/storage/sqlite.go stamps the rows of a shard
-- and reads such a stamp back, for times in UTC.
pub mod Order
pub mod RoundTrip
use grepod.Prelude.{
  ℕ, zero, suc, ◌+◌, ◌*◌, ◌/◌, ◌%◌, ◌^◌, ◌≡◌, refl, Bool, true, false, Option, none, some, List, [],
  ◌∷◌, ◌++◌, ltb, nat_beq, take, drop, ◌&&◌, ◌||◌, not, if◌then◌else◌, Text, codes, ◌>>=◌,
}
use grepod.Prelude.Int.{ℤ, pos, negsuc}
use grepod.Storage.Line.{Time}
use grepod.Storage.Shards.{day_length, day_of}
use grepod.Storage.Dates.{digit, format_date}
use grepod.Storage.Dates.Parse.{is_digit, digit_value, two_of, parse_date}

abbrev pub second : ℕ
second = 1_000_000_000

abbrev pub two_digits : ℕ → Text → Text
two_digits n s = digit (n / 10) ∷ digit n ∷ s

-- The time of day, of the seconds since midnight.
abbrev pub write_clock : ℕ → Text → Text
write_clock n s =
    two_digits (n / 3600) (b':' ∷ two_digits (n / 60 % 60) (b':' ∷ two_digits (n % 60) s))

-- The digits of a fraction behind `k` more places, without zeros at the end.
abbrev pub fraction : ℕ → ℕ → Text → Text
fraction zero n s = s
fraction (suc k) n s =
    let rest = fraction k (n % 10 ^ k) s in if nat_beq n 0 then s else digit (n / 10 ^ k) ∷ rest

abbrev pub write_nanos : ℕ → Text → Text
write_nanos n s = if nat_beq n 0 then s else b'.' ∷ fraction 9 n s

unfoldable pub format_time : Time → Text
format_time t =
    format_date (day_of t)
    ++ b'T' ∷ write_clock (t % day_length / second) (write_nanos (t % second) (b'Z' ∷ []))

abbrev pub skip : ℕ → Text → Option Text
skip c [] = none
skip c (d ∷ s) = if nat_beq d c then some s else none

-- A number that is below a bound.
abbrev pub below : ℕ → Option (ℕ × Text) → Option (ℕ × Text)
below bound o = o >>= λ (n, s). if ltb n bound then some (n, s) else none

-- The digits behind the point, of which `k` count.
abbrev pub read_fraction : ℕ → Text → ℕ × Text
read_fraction k [] = (0, [])
read_fraction zero (c ∷ s) = if is_digit c then read_fraction zero s else (0, c ∷ s)
read_fraction (suc k) (c ∷ s) =
    let (n, s') = read_fraction k s in
    if is_digit c then (digit_value c * 10 ^ k + n, s') else (0, c ∷ s)

-- A point or a comma, where a digit is behind it.
abbrev pub read_nanos : Text → ℕ × Text
read_nanos (p ∷ c ∷ s) =
    if (nat_beq p b'.' || nat_beq p b',') && is_digit c
    then read_fraction 9 (c ∷ s)
    else (0, p ∷ c ∷ s)
read_nanos s = (0, s)

abbrev pub is_zulu : Text → Bool
is_zulu (c ∷ []) = nat_beq c b'Z'
is_zulu _ = false

-- An hour may be written with one digit.
abbrev pub hour_of : Text → Option (ℕ × Text)
hour_of [] = none
hour_of (a ∷ []) = if is_digit a then some (digit_value a, []) else none
hour_of (a ∷ b ∷ s) =
    if is_digit a && not (is_digit b) then some (digit_value a, b ∷ s) else two_of (a ∷ b ∷ s)

-- The time, where Z and nothing else is behind the nanoseconds. A time of year 0 is none of the model.
abbrev pub at_end : ℤ → ℕ → ℕ × Text → Option Time
at_end (pos d) clock (n, s) = if is_zulu s then some (d * day_length + clock + n) else none
at_end (negsuc d) clock (n, s) = none

-- A text that does not end in Z has another offset, which is no time of the model.
unfoldable pub parse_time : Text → Option Time
parse_time text = do
  day ← parse_date (take 10 text)
  s ← skip b'T' (drop 10 text)
  (h, s) ← below 24 (hour_of s)
  s ← skip b':' s
  (m, s) ← below 60 (two_of s)
  s ← skip b':' s
  (sec, s) ← below 60 (two_of s)
  at_end day ((h * 3600 + m * 60 + sec) * second) (read_nanos s)

times_run :
    (format_time 63_861_998_645_120_000_000 ≡ codes "2024-09-15T12:04:05.12Z")
    × (parse_time (codes "2024-09-15T12:04:05.12Z") ≡ some 63_861_998_645_120_000_000)
    × (parse_time (codes "2024-09-14T24:00:00Z") ≡ none)
unfolding format_time parse_time parse_date format_date
times_run = (refl, refl, refl)
