-- ===== src/Prelude/Base64.antt =====
-- base64.RawURLEncoding of the standard library, which writes no padding.
use grepod.Prelude.Tests.{ltb, leb, nat_beq, if◌then◌else◌, ◌>>=◌}
use grepod.Prelude.Lists.{All}
use grepod.Prelude.Texts.{Text, codes}
use Prim.Native.Nat.{ℕ, ◌+◌, ◌-◌, ◌*◌, ◌/◌, ◌%◌, ◌<◌}
use mathlib.Core.Path.{◌≡◌, refl, ◌∙◌}
use mathlib.Core.Logic.{◌≢◌}
use mathlib.Core.Bool.{◌&&◌, ◌||◌}
use mathlib.Core.List.{List, [], ◌∷◌}
use mathlib.Core.Option.{Option, none, some}
use native.Mathlib.Omega.{arith}

-- The character for six bits.
pub char : ℕ → ℕ
char v =
    if ltb v 26
    then b'A' + v
    else if ltb v 52
    then b'a' + (v - 26)
    else if ltb v 62
    then b'0' + (v - 52)
    else if nat_beq v 62
    then b'-'
    else b'_'

pub value : ℕ → Option ℕ
value c =
    if leb b'A' c && leb c b'Z'
    then some (c - b'A')
    else if leb b'a' c && leb c b'z'
    then some (c - b'a' + 26)
    else if leb b'0' c && leb c b'9'
    then some (c - b'0' + 52)
    else if nat_beq c b'-'
    then some 62
    else if nat_beq c b'_'
    then some 63
    else none

unfoldable pub encode : List ℕ → Text
unfolding char
encode [] = []
encode (a ∷ []) = char (a / 4) ∷ char (a % 4 * 16) ∷ []
encode (a ∷ b ∷ []) = char (a / 4) ∷ char (a % 4 * 16 + b / 16) ∷ char (b % 16 * 4) ∷ []
encode (a ∷ b ∷ c ∷ s) =
    char (a / 4)
    ∷ char (a % 4 * 16 + b / 16)
    ∷ char (b % 16 * 4 + c / 64)
    ∷ char (c % 64)
    ∷ encode s

-- Groups of four characters; the bits behind the last byte are not looked at.
pub decode_groups : Text → Option (List ℕ)
decode_groups [] = some []
decode_groups (a ∷ []) = none
decode_groups (a ∷ b ∷ []) = do va ← value a; vb ← value b; some ((va * 4 + vb / 16) ∷ [])
decode_groups (a ∷ b ∷ c ∷ []) = do
  va ← value a
  vb ← value b
  vc ← value c
  some ((va * 4 + vb / 16) ∷ (vb % 16 * 16 + vc / 4) ∷ [])
decode_groups (a ∷ b ∷ c ∷ d ∷ s) = do
  va ← value a
  vb ← value b
  vc ← value c
  vd ← value d
  rest ← decode_groups s
  some ((va * 4 + vb / 16) ∷ (vb % 16 * 16 + vc / 4) ∷ (vc % 4 * 64 + vd) ∷ rest)

-- The decoder skips line ends.
pub skip_line_ends : Text → Text
skip_line_ends [] = []
skip_line_ends (c ∷ s) =
    let rest = skip_line_ends s in if nat_beq c b'\n' || nat_beq c b'\r' then rest else c ∷ rest

unfoldable pub decode : Text → Option (List ℕ)
unfolding skip_line_ends decode_groups
decode s = decode_groups (skip_line_ends s)

decode_runs :
    (encode (codes "b|0") ≡ codes "Ynww")
    × (decode (codes "Yn\nww") ≡ some (codes "b|0"))
    × (decode (codes "YnwwA") ≡ none)
unfolding decode decode_groups skip_line_ends encode char value
decode_runs = (refl, refl, refl)

value-char : (v : ℕ) → v < 64 → value (char v) ≡ some v
unfolding value char
value-char v h = ground arith

char_ends : (v : ℕ) → (char v ≢ b'\n') × (char v ≢ b'\r')
unfolding char
char_ends v = (λ e. ground arith, λ e. ground arith)

skip-char : (v : ℕ) (s : Text) → skip_line_ends (char v ∷ s) ≡ char v ∷ skip_line_ends s
unfolding skip_line_ends
skip-char v s = let (n, r) = char_ends v in ground arith

two_values :
    (p q : ℕ)
    → p < 64
    → q < 64
    → decode_groups (char p ∷ char q ∷ []) ≡ some ((p * 4 + q / 16) ∷ [])
unfolding decode_groups
two_values p q hp hq = rw (value-char p hp, value-char q hq) refl

three_values :
    (p q r : ℕ)
    → p < 64
    → q < 64
    → r < 64
    → decode_groups (char p ∷ char q ∷ char r ∷ [])
      ≡ some ((p * 4 + q / 16) ∷ (q % 16 * 16 + r / 4) ∷ [])
unfolding decode_groups
three_values p q r hp hq hr = rw (value-char p hp, value-char q hq, value-char r hr) refl

four_values :
    (p q r v : ℕ) (s : Text) (bs : List ℕ)
    → p < 64
    → q < 64
    → r < 64
    → v < 64
    → decode_groups s ≡ some bs
    → decode_groups (char p ∷ char q ∷ char r ∷ char v ∷ s)
      ≡ some ((p * 4 + q / 16) ∷ (q % 16 * 16 + r / 4) ∷ (r % 4 * 64 + v) ∷ bs)
unfolding decode_groups
four_values p q r v s bs hp hq hr hv h =
    rw (value-char p hp, value-char q hq, value-char r hr, value-char v hv, h) refl

skip-encode : (bs : List ℕ) → skip_line_ends (encode bs) ≡ encode bs
unfolding encode
skip-encode [] = unfold skip_line_ends in refl
skip-encode (a ∷ []) =
    rw (skip-char (a / 4), skip-char (a % 4 * 16)) (unfold skip_line_ends in refl)
skip-encode (a ∷ b ∷ []) =
    rw (skip-char (a / 4), skip-char (a % 4 * 16 + b / 16), skip-char (b % 16 * 4))
      (unfold skip_line_ends in refl)
skip-encode (a ∷ b ∷ c ∷ s) =
    rw
      (
        skip-char (a / 4),
        skip-char (a % 4 * 16 + b / 16),
        skip-char (b % 16 * 4 + c / 64),
        skip-char (c % 64),
        skip-encode s,
      )
      refl

groups-encode : (bs : List ℕ) → All (λ b. b < 256) bs → decode_groups (encode bs) ≡ some bs
unfolding encode
groups-encode [] h = unfold decode_groups in refl
groups-encode (a ∷ []) h =
    let first : a / 4 * 4 + a % 4 * 16 / 16 ≡ a = omega arith in
    two_values (a / 4) (a % 4 * 16) (omega arith) (omega arith) ∙ rw first refl
groups-encode (a ∷ b ∷ []) h =
    let q = a % 4 * 16 + b / 16 in
    let first : a / 4 * 4 + q / 16 ≡ a = omega arith in
    let second : q % 16 * 16 + b % 16 * 4 / 4 ≡ b = omega arith in
    three_values (a / 4) q (b % 16 * 4) (omega arith) (omega arith) (omega arith)
    ∙ rw (first, second) refl
groups-encode (a ∷ b ∷ c ∷ s) h =
    let q = a % 4 * 16 + b / 16 in
    let r = b % 16 * 4 + c / 64 in
    let first : a / 4 * 4 + q / 16 ≡ a = omega arith in
    let second : q % 16 * 16 + r / 4 ≡ b = omega arith in
    let third : r % 4 * 64 + c % 64 ≡ c = omega arith in
    four_values (a / 4) q r (c % 64) (encode s) s (omega arith) (omega arith) (omega arith)
      (omega arith) (groups-encode s h.1.1.1)
    ∙ rw (first, second, third) refl

-- Bytes that are encoded decode to themselves.
pub decode-encode : (bs : List ℕ) → All (λ b. b < 256) bs → decode (encode bs) ≡ some bs
unfolding decode
decode-encode bs h = rw (skip-encode bs) (groups-encode bs h)
