-- ===== src/Prelude/Decimal.antt =====
-- strconv.FormatInt and strconv.ParseInt in base 10, and strconv.Atoi.
use Prim.Native.Nat.{ℕ, zero, suc, ◌+◌, ◌-◌, ◌*◌, ◌/◌, ◌%◌, ◌^◌, ◌≤◌, ◌<◌}
use mathlib.Core.Path.{◌≡◌, refl, ◌∙◌}
use mathlib.Core.Logic.{inl, inr}
use mathlib.Core.Bool.{Bool, true, false, ◌&&◌}
use mathlib.Core.List.{[], ◌∷◌}
use mathlib.Core.Option.{Option, none, some}
use native.Mathlib.Omega.{arith}
use grepod.Prelude.Tests.{tests, Bool-cases, lt→ltb, ltb, leb, nat_beq, if◌then◌else◌}
use grepod.Prelude.Lists.{All}
use grepod.Prelude.Texts.{Text, codes, is_empty}
use grepod.Prelude.Int.{ℤ, pos, negsuc}

-- The digits of a number before some text; the fuel is above the number.
emit : ℕ → ℕ → Text → Text
emit zero n out = out
emit (suc fuel) n out =
    let more = emit fuel (n / 10) ((b'0' + n % 10) ∷ out) in
    if ltb n 10 then (b'0' + n) ∷ out else more

unfoldable pub format_nat : ℕ → Text
unfolding emit
format_nat n = emit (suc n) n []

unfoldable pub format_int : ℤ → Text
unfolding format_nat
format_int (pos n) = format_nat n
format_int (negsuc n) = b'-' ∷ format_nat (suc n)

-- The value of digits behind a number, none where another character stands.
unfoldable pub scan_digits : Text → ℕ → Option ℕ
scan_digits [] n = some n
scan_digits (c ∷ s) n =
    if leb b'0' c && leb c b'9' then scan_digits s (n * 10 + (c - b'0')) else none

unfoldable pub parse_nat : Text → Option ℕ
unfolding scan_digits
parse_nat [] = none
parse_nat (c ∷ s) = scan_digits (c ∷ s) 0

-- A value in the range of int64.
abbrev in_range : Bool → ℕ → Option ℤ
in_range true zero = some (pos 0)
in_range true (suc n) = if ltb n (2 ^ 63) then some (negsuc n) else none
in_range false n = if ltb n (2 ^ 63) then some (pos n) else none

abbrev with_sign : Bool → Option ℕ → Option ℤ
with_sign negative none = none
with_sign negative (some n) = in_range negative n

unfoldable pub parse_int : Text → Option ℤ
unfolding parse_nat
parse_int [] = none
parse_int (c ∷ s) =
    if nat_beq c b'-'
    then with_sign true (parse_nat s)
    else if nat_beq c b'+'
    then with_sign false (parse_nat s)
    else with_sign false (parse_nat (c ∷ s))

parse_int_runs :
    (parse_int (codes "-42") ≡ some (negsuc 41))
    × (parse_int (codes "9223372036854775808") ≡ none)
    × (parse_int (codes "1x") ≡ none)
unfolding parse_int
parse_int_runs = (refl, refl, refl)

scan-emit :
    (fuel n : ℕ) (out : Text) → n < fuel → scan_digits (emit fuel n out) 0 ≡ scan_digits out n
unfolding emit scan_digits
scan-emit zero n out h = absurd (omega arith)
scan-emit (suc fuel) n out h = ground (arith, scan-emit fuel (n / 10) ((b'0' + n % 10) ∷ out))

-- Characters that a number can be written with.
abbrev pub IsNumeral : ℕ → Type 0
IsNumeral c = (b'-' ≤ c) × (c ≤ b'9')

emit-IsNumeral : (fuel n : ℕ) (out : Text) → All IsNumeral out → All IsNumeral (emit fuel n out)
unfolding emit
emit-IsNumeral zero n out h = h
emit-IsNumeral (suc fuel) n out h =
    ground (arith, emit-IsNumeral fuel (n / 10) ((b'0' + n % 10) ∷ out))

pub format_nat-IsNumeral : (n : ℕ) → All IsNumeral (format_nat n)
unfolding format_nat
format_nat-IsNumeral n = emit-IsNumeral (suc n) n [] tt

pub format_int-IsNumeral : (n : ℤ) → All IsNumeral (format_int n)
unfolding format_int
format_int-IsNumeral (pos n) = emit-IsNumeral (suc n) n [] tt
format_int-IsNumeral (negsuc n) = (omega arith, emit-IsNumeral (suc (suc n)) (suc n) [] tt)

-- The text of a number begins with a digit.
emit_first :
    (fuel n : ℕ) (out : Text)
    → n < fuel
    → (c : ℕ) × (s : Text) × (emit fuel n out ≡ c ∷ s) × (b'0' ≤ c) × (c ≤ b'9')
unfolding emit
emit_first zero n out h = absurd (omega arith)
emit_first (suc fuel) n out h = elim (Bool-cases (ltb n 10)) [
  | inl small ↦ rw small (b'0' + n, out, refl, omega arith, omega (tests))
  | inr large ↦ rw large (emit_first fuel (n / 10) ((b'0' + n % 10) ∷ out) (omega tests))
]

-- The range of int64.
abbrev pub IsInt64 : ℤ → Type 0
IsInt64 (pos n) = n < 2 ^ 63
IsInt64 (negsuc n) = n < 2 ^ 63

-- Where a text begins with a digit, it is read as a natural number.
parse_nat-scan : (s : Text) (c : ℕ) (t : Text) → s ≡ c ∷ t → parse_nat s ≡ scan_digits s 0
unfolding parse_nat
parse_nat-scan [] c t e = cc
parse_nat-scan (d ∷ s) c t e = refl

pub parse_nat-format : (n : ℕ) → parse_nat (format_nat n) ≡ some n
unfolding format_nat
parse_nat-format n =
    let (c, s, e, low, high) = emit_first (suc n) n [] (omega arith) in
    parse_nat-scan (emit (suc n) n []) c s e
    ∙ (scan-emit (suc n) n [] (omega arith) ∙ unfold scan_digits in refl)

parse_int-digit :
    (s : Text) (c : ℕ) (t : Text) (n : ℕ)
    → s ≡ c ∷ t
    → b'0' ≤ c
    → c ≤ b'9'
    → parse_nat s ≡ some n
    → parse_int s ≡ with_sign false (some n)
unfolding parse_int
parse_int-digit [] c t n e low high h = cc
parse_int-digit (d ∷ s) c t n e low high h = ground (arith, h)

-- What FormatInt writes of an int64, ParseInt reads back.
pub parse_int-format_int : (n : ℤ) → IsInt64 n → parse_int (format_int n) ≡ some n
unfolding format_int
parse_int-format_int (pos n) h =
    let (c, s, e, low, high) = emit_first (suc n) n [] (omega arith) in
    parse_int-digit (format_nat n) c s n (unfold format_nat in e) low high (parse_nat-format n)
    ∙ rw (lt→ltb n (2 ^ 63) h) refl
parse_int-format_int (negsuc n) h =
    unfold parse_int in rw (parse_nat-format (suc n), lt→ltb n (2 ^ 63) h) refl

pub is_empty-format_int : (n : ℤ) → is_empty (format_int n) ≡ false
unfolding format_int format_nat
is_empty-format_int (pos n) =
    let (c, s, e, low, high) = emit_first (suc n) n [] (omega arith) in rw e refl
is_empty-format_int (negsuc n) = refl
