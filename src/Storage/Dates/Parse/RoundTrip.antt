-- ===== src/Storage/Dates/Parse/RoundTrip.antt =====
-- The text of a day is read back as that day.
use grepod.Prelude.{
  ℕ, suc, ◌+◌, ◌-◌, ◌*◌, ◌/◌, ◌%◌, ◌≤◌, ◌<◌, Bool, true, false, some, List, [], ◌∷◌, ltb, nat_beq,
  ◌&&◌, Text, ◌≡◌, refl, ap, ◌∙◌, inl, inr, Bool-cases, arith, length, subst, All, tests, ◌⊎◌, min,
}
use grepod.Prelude.Int.{pos}
use grepod.Storage.Dates.{
  is_leap, month_lengths, month_day, year_day, digit, write_date, format_date,
}
use grepod.Storage.Dates.Parse.{
  is_digit, digit_value, two_of, four_of, day_in_year, days_of_years, date_of, parse_date,
}

-- The days of some months.
abbrev total : List ℕ → ℕ
total [] = 0
total (n ∷ ns) = n + total ns

pub two-digit : (n : ℕ) (s : Text) → n < 100 → two_of (digit (n / 10) ∷ digit n ∷ s) ≡ some (n, s)
two-digit n s h =
    let value : digit_value (digit (n / 10)) * 10 + digit_value (digit n) ≡ n = omega arith in
    let digits : (is_digit (digit (n / 10)) && is_digit (digit n)) ≡ true = ground arith in
    rw (digits, value) refl

four-digit :
    (n : ℕ) (s : Text)
    → n < 10_000
    → four_of (digit (n / 1000) ∷ digit (n / 100) ∷ digit (n / 10) ∷ digit n ∷ s) ≡ some (n, s)
four-digit n s h =
    let value : digit_value (digit (n / 1000)) * 1000
          + digit_value (digit (n / 100)) * 100
          + digit_value (digit (n / 10)) * 10
          + digit_value (digit n)
        ≡ n =
      omega arith in
    let digits : (is_digit (digit (n / 1000))
          && is_digit (digit (n / 100))
          && is_digit (digit (n / 10))
          && is_digit (digit n))
        ≡ true =
      ground arith in
    rw (digits, value) refl

-- The month and day that are found for a day of the year stand for that day.
record Found (ns : List ℕ) (m d : ℕ) (md : ℕ × ℕ) : Type 0 where
  month : ℕ
  counted : md.0 ≡ m + month
  in_list : month < length ns
  short : md.1 ≤ 31
  reads : day_in_year ns month md.1 ≡ some d

month_day-Found :
    (ns : List ℕ) (m d : ℕ) → All (λ n. n ≤ 31) ns → d < total ns → Found ns m d (month_day ns m d)
month_day-Found [] m d all h = absurd (omega arith)
month_day-Found (n ∷ ns) m d all h = elim (Bool-cases (ltb d n)) [
  | inl e ↦ rw e (record {
    month = 0;
    counted = omega arith;
    in_list = omega arith;
    short = omega (tests, all.0);
    reads = ground arith;
  })
  | inr e ↦
      let rest = month_day-Found ns (m + 1) (d - n) all.1 (omega tests) in
      rw e (record {
        month = suc rest.month;
        counted = omega (arith, rest.counted);
        in_list = omega (arith, rest.in_list);
        short = rest.short;
        reads = simp (rest.reads) (ap some (omega tests));
      })
]

-- The cycles of 400, 100, 4 and 1 years that are behind a day.
record Cycles (d y yd : ℕ) : Type 0 where
  n400 : ℕ
  n100 : ℕ
  n4 : ℕ
  n1 : ℕ
  days : d ≡ 146_097 * n400 + 36_524 * n100 + 1461 * n4 + 365 * n1 + yd
  years : y ≡ suc (400 * n400 + 100 * n100 + 4 * n4 + n1)
  few_100 : n100 ≤ 3
  few_4 : n4 ≤ 24
  few_1 : n1 ≤ 3
  short : yd ≤ 365
  last : yd ≡ 365 → (n1 ≡ 3) × ((n4 < 24) ⊎ (n100 ≡ 3))

year_day-Cycles : (d : ℕ) → Cycles d (year_day d).0 (year_day d).1
year_day-Cycles d =
    let in_400 = d % 146_097 in
    let n100 = min 3 (in_400 / 36_524) in
    let in_100 = in_400 - n100 * 36_524 in
    let in_4 = in_100 % 1461 in
    record {
      n400 = d / 146_097;
      n100 = n100;
      n4 = in_100 / 1461;
      n1 = min 3 (in_4 / 365);
      days = omega arith;
      years = omega arith;
      few_100 = omega arith;
      few_4 = omega arith;
      few_1 = omega arith;
      short = omega arith;
      last = λ e. (omega arith, ground arith);
    }

days_of-Cycles :
    (d y yd : ℕ) → Cycles d y yd → (y' : ℕ) × (y ≡ suc y') × (days_of_years y' + yd ≡ d)
days_of-Cycles d y yd c = (
  400 * c.n400 + 100 * c.n100 + 4 * c.n4 + c.n1,
  c.years,
  omega (arith, c.days, c.few_100, c.few_4, c.few_1),
)

leap-by_cycles :
    (n400 n100 n4 : ℕ)
    → n100 ≤ 3
    → n4 ≤ 24
    → (n4 < 24) ⊎ (n100 ≡ 3)
    → is_leap (suc (400 * n400 + 100 * n100 + 4 * n4 + 3)) ≡ true
leap-by_cycles n400 n100 n4 few_100 few_4 (inl h) =
    let by_4 : suc (400 * n400 + 100 * n100 + 4 * n4 + 3) % 4 ≡ 0 = omega arith in
    let by_100 : suc (400 * n400 + 100 * n100 + 4 * n4 + 3) % 100 ≡ 4 * n4 + 4 = omega arith in
    ground arith
leap-by_cycles n400 n100 n4 few_100 few_4 (inr h) = ground arith

-- A year has a day 365 only if it is a leap year.
leap-Cycles : (d y yd : ℕ) → Cycles d y yd → yd < total (month_lengths (is_leap y))
leap-Cycles d y yd c = elim (Bool-cases (nat_beq yd 365)) [
  | inl e ↦
      let (three, last) = c.last (ground arith) in
      let leap : is_leap y ≡ true =
        rw (c.years, three) (leap-by_cycles c.n400 c.n100 c.n4 c.few_100 c.few_4 last) in
      rw leap (omega (arith, c.short))
  | inr e ↦ ground (arith, c.short)
]

months_short : (leap : Bool) → All (λ n. n ≤ 31) (month_lengths leap)
months_short true = omega arith
months_short false = omega arith

read_back :
    (y m d : ℕ) → y < 10_000 → m < 100 → d < 100 → parse_date (write_date y (m, d)) ≡ date_of y m d
unfolding parse_date
read_back y m d hy hm hd =
    rw
      (
        four-digit y (b'-' ∷ digit (m / 10) ∷ digit m ∷ b'-' ∷ digit (d / 10) ∷ digit d ∷ []) hy,
        two-digit m (b'-' ∷ digit (d / 10) ∷ digit d ∷ []) hm,
        two-digit d [] hd,
      )
      refl

date_of-Found :
    (y yd : ℕ) (md : ℕ × ℕ)
    → Found (month_lengths (is_leap (suc y))) 1 yd md
    → suc y < 10_000
    → parse_date (write_date (suc y) md) ≡ some (pos (days_of_years y + yd))
date_of-Found y yd (m, d) found h =
    let e : m ≡ suc found.month = omega (arith, found.counted) in
    read_back (suc y) m d h (omega (arith, found.counted, found.in_list))
      (omega (arith, found.short))
    ∙ rw e (rw (found.reads, date_of) refl)

read_written :
    (day y yd : ℕ)
    → Cycles day y yd
    → day < 3_652_059
    → parse_date (write_date y (month_day (month_lengths (is_leap y)) 1 yd)) ≡ some (pos day)
read_written day y yd c h =
    let (y', e, days) = days_of-Cycles day y yd c in
    let found =
      month_day-Found (month_lengths (is_leap y)) 1 yd (months_short (is_leap y))
        (leap-Cycles day y yd c) in
    rw e (
      date_of-Found y' yd _
        (subst
          (λ z. Found (month_lengths (is_leap z)) 1 yd (month_day (month_lengths (is_leap z)) 1 yd))
          e found)
        (omega (arith, days))
      ∙ ap (λ k. some (pos k)) days)

-- The text of a day, up to December 31 of the year 9999, is read back as that day.
pub parse_date-format_date :
    (day : ℕ) → day < 3_652_059 → parse_date (format_date day) ≡ some (pos day)
unfolding format_date
parse_date-format_date day h =
    read_written day (year_day day).0 (year_day day).1 (year_day-Cycles day) h
