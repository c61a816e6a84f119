-- ===== src/Storage/Dates.antt =====
-- Dates as internal/storage/sqlite.go writes them: Format with dateLayout, and the alias under which
-- Search and KnownPods attach a shard. A day is its number since January 1 of year 1.
pub mod Parse
pub mod Days
use grepod.Prelude.{
  ℕ, ◌+◌, ◌-◌, ◌*◌, ◌/◌, ◌%◌, ◌≡◌, refl, Bool, true, false, List, [], ◌∷◌, ◌++◌, min, ltb, nat_beq,
  not, ◌&&◌, ◌||◌, if◌then◌else◌, Text, codes, replace_all, All, arith,
}
use grepod.Storage.Ranks.{IsPlain}

abbrev pub is_leap : ℕ → Bool
is_leap y = nat_beq (y % 4) 0 && (not (nat_beq (y % 100) 0) || nat_beq (y % 400) 0)

abbrev pub month_lengths : Bool → List ℕ
month_lengths leap =
    31 ∷ (if leap then 29 else 28) ∷ 31 ∷ 30 ∷ 31 ∷ 30 ∷ 31 ∷ 31 ∷ 30 ∷ 31 ∷ 30 ∷ 31 ∷ []

-- The month and the day of the month, from the days behind the start of month `m`.
abbrev pub month_day : List ℕ → ℕ → ℕ → ℕ × ℕ
month_day [] m d = (m, d + 1)
month_day (n ∷ ns) m d = if ltb d n then (m, d + 1) else month_day ns (m + 1) (d - n)

-- The year, and the day of the year from 0 on, by cycles of 400, 100, 4 and 1 years.
abbrev pub year_day : ℕ → ℕ × ℕ
year_day d =
    let in_400 = d % 146_097 in
    let n100 = min 3 (in_400 / 36_524) in
    let in_100 = in_400 - n100 * 36_524 in
    let in_4 = in_100 % 1461 in
    let n1 = min 3 (in_4 / 365) in
    (d / 146_097 * 400 + n100 * 100 + in_100 / 1461 * 4 + n1 + 1, in_4 - n1 * 365)

abbrev pub digit : ℕ → ℕ
digit n = b'0' + n % 10

-- Four digits, a dash, two, a dash, and two, up to the year 9999.
abbrev pub write_date : ℕ → ℕ × ℕ → Text
write_date y (m, d) =
    digit (y / 1000)
    ∷ digit (y / 100)
    ∷ digit (y / 10)
    ∷ digit y
    ∷ b'-'
    ∷ digit (m / 10)
    ∷ digit m
    ∷ b'-'
    ∷ digit (d / 10)
    ∷ digit d
    ∷ []

unfoldable pub format_date : ℕ → Text
format_date day =
    let (y, yd) = year_day day in write_date y (month_day (month_lengths (is_leap y)) 1 yd)

unfoldable pub alias : ℕ → Text
unfolding format_date
alias day = b'd' ∷ replace_all b'-' [] (format_date day)

alias_runs :
    (alias 0 ≡ codes "d00010101")
    × (alias 719_162 ≡ codes "d19700101")
    × (alias 738_944 ≡ codes "d20240229")
    × (alias 738_945 ≡ codes "d20240301")
unfolding alias
alias_runs = (refl, refl, refl, refl)

replace-IsPlain : (s : Text) → All IsPlain s → All IsPlain (replace_all b'-' [] s)
replace-IsPlain [] h = tt
replace-IsPlain (c ∷ s) h =
    elim (nat_beq c b'-')
      as (λ b. All IsPlain ((if b then [] else c ∷ []) ++ replace_all b'-' [] s)) [
        | true ↦ replace-IsPlain s h.1
        | false ↦ (h.0, replace-IsPlain s h.1)
      ]

digit-IsPlain : (n : ℕ) → IsPlain (digit n)
digit-IsPlain n = (omega arith, λ e. omega arith)

dash-IsPlain : IsPlain b'-'
dash-IsPlain = (omega arith, λ e. omega arith)

two_digits : (n : ℕ) (s : Text) → All IsPlain s → All IsPlain (digit (n / 10) ∷ digit n ∷ s)
two_digits n s h = (digit-IsPlain (n / 10), (digit-IsPlain n, h))

write_date-IsPlain : (y : ℕ) (md : ℕ × ℕ) → All IsPlain (write_date y md)
write_date-IsPlain y (m, d) = (
  digit-IsPlain (y / 1000),
  (
    digit-IsPlain (y / 100),
    (
      digit-IsPlain (y / 10),
      (
        digit-IsPlain y,
        (
          dash-IsPlain,
          two_digits m (b'-' ∷ digit (d / 10) ∷ digit d ∷ []) (dash-IsPlain, two_digits d [] tt),
        ),
      ),
    ),
  ),
)

pub alias-IsPlain : (day : ℕ) → All IsPlain (alias day)
unfolding alias
alias-IsPlain day =
    ((omega arith, λ e. omega arith), replace-IsPlain (format_date day) (write_date-IsPlain _ _))
