-- ===== src/Storage/Dates/Parse.antt =====
-- time.Parse with dateLayout, as internal/api/handler.go and internal/storage/sqlite.go call it. A day
-- is numbered from January 1 of year 1; the days of year 0, which the layout can write, are negative.
pub mod RoundTrip
use grepod.Prelude.{
  ℕ, zero, suc, ◌+◌, ◌-◌, ◌*◌, ◌/◌, Bool, true, false, Option, none, some, List, [], ◌∷◌, leb,
  nat_beq, ◌&&◌, if◌then◌else◌, Text, codes, is_empty, ◌≡◌, refl, ◌>>=◌,
}
use grepod.Prelude.Int.{ℤ, pos, negsuc}
use grepod.Storage.Dates.{is_leap, month_lengths}

abbrev pub is_digit : ℕ → Bool
is_digit c = leb b'0' c && leb c b'9'

abbrev pub digit_value : ℕ → ℕ
digit_value c = c - b'0'

-- Exactly two digits, and what is behind them.
abbrev pub two_of : Text → Option (ℕ × Text)
two_of (a ∷ b ∷ s) =
    if is_digit a && is_digit b then some (digit_value a * 10 + digit_value b, s) else none
two_of _ = none

abbrev pub four_of : Text → Option (ℕ × Text)
four_of (a ∷ b ∷ c ∷ d ∷ s) =
    if is_digit a && is_digit b && is_digit c && is_digit d
    then some (digit_value a * 1000 + digit_value b * 100 + digit_value c * 10 + digit_value d, s)
    else none
four_of _ = none

abbrev pub skip_dash : Text → Option Text
skip_dash [] = none
skip_dash (c ∷ s) = if nat_beq c b'-' then some s else none

-- The day of the year from 0 on, of a month counted from 0 and a day counted from 1.
abbrev pub day_in_year : List ℕ → ℕ → ℕ → Option ℕ
day_in_year [] m d = none
day_in_year (n ∷ ns) zero d = if leb 1 d && leb d n then some (d - 1) else none
day_in_year (n ∷ ns) (suc m) d = day_in_year ns m d >>= λ k. some (n + k)

-- The days of the years from 1 on that are before the year `y + 1`.
abbrev pub days_of_years : ℕ → ℕ
days_of_years y = y * 365 + y / 4 - y / 100 + y / 400

abbrev pub day_number : ℕ → ℕ → ℤ
day_number zero yd = negsuc (365 - yd)
day_number (suc y) yd = pos (days_of_years y + yd)

abbrev pub date_of : ℕ → ℕ → ℕ → Option ℤ
date_of y zero d = none
date_of y (suc m) d = day_in_year (month_lengths (is_leap y)) m d >>= λ yd. some (day_number y yd)

unfoldable pub parse_date : Text → Option ℤ
parse_date s = do
  (y, s) ← four_of s
  s ← skip_dash s
  (m, s) ← two_of s
  s ← skip_dash s
  (d, s) ← two_of s
  if is_empty s then date_of y m d else none

parse_date_runs :
    (parse_date (codes "2024-02-29") ≡ some (pos 738_944))
    × (parse_date (codes "2023-02-29") ≡ none)
    × (parse_date (codes "0000-12-31") ≡ some (negsuc 0))
    × (parse_date (codes "2024-1-01") ≡ none)
    × (parse_date (codes "2024-01-01 ") ≡ none)
unfolding parse_date
parse_date_runs = (refl, refl, refl, refl, refl)
