-- ===== src/Storage/Dates/Days.antt =====
-- Format with dateLayout of a day that may be before January 1 of year 1, and AddDate of days. A
-- negative day is formatted by cycles of 400 years, after which the dates repeat.
use grepod.Prelude.{ℕ, ◌+◌, ◌-◌, ◌*◌, ◌/◌, ◌∷◌, leb, nat_beq, if◌then◌else◌, Text, codes, ◌≡◌, refl}
use grepod.Prelude.Int.{ℤ, pos, negsuc}
use grepod.Storage.Dates.{is_leap, month_lengths, month_day, year_day, write_date, format_date}

-- `day` less `n` days.
abbrev pub days_before : ℕ → ℕ → ℤ
days_before day n = if leb n day then pos (day - n) else negsuc (n - day - 1)

-- A year that is `back` years before year 0.
abbrev write_early : ℕ → ℕ × ℕ → Text
write_early back md = if nat_beq back 0 then write_date 0 md else b'-' ∷ write_date back md

unfoldable pub format_day : ℤ → Text
unfolding format_date
format_day (pos day) = format_date day
format_day (negsuc n) =
    let cycles = n / 146_097 + 1 in
    let (y, yd) = year_day (cycles * 146_097 - (n + 1)) in
    write_early (cycles * 400 - y) (month_day (month_lengths (is_leap y)) 1 yd)

format_day_runs :
    (format_day (days_before 0 1) ≡ codes "0000-12-31")
    × (format_day (days_before 0 366) ≡ codes "0000-01-01")
    × (format_day (days_before 0 367) ≡ codes "-0001-12-31")
    × (format_day (days_before 738_944 1) ≡ codes "2024-02-28")
unfolding format_day
format_day_runs = (refl, refl, refl, refl)
