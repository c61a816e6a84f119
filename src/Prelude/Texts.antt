-- ===== src/Prelude/Texts.antt =====
-- Go strings as sequences of code points, with the operations of package strings that the code
-- calls. The order of code points is the order of UTF-8 bytes.
use Prim.Native.Nat.{ℕ, ◌+◌, ◌-◌}
use Prim.Native.Char.{code}
use Prim.Native.String.{String}
use mathlib.Core.Path.{◌≡◌, refl}
use mathlib.Core.Logic.{◌↔◌}
use mathlib.Core.Bool.{Bool, true, false, ◌&&◌, ◌||◌}
use mathlib.Core.List.{List, [], ◌∷◌, ◌++◌, append_assoc}
use native.Mathlib.Omega.{arith}
use grepod.Prelude.Lists.{length, take, drop}
use grepod.Prelude.Tests.{nat_beq, ltb, leb, if◌then◌else◌}

abbrev pub Text : Type 0
Text = List ℕ

-- The code points of a literal.
abbrev pub codes : String → Text
codes String.[] = []
codes (String.◌∷◌ letter rest) = code letter ∷ codes rest

abbrev pub text_beq : Text → Text → Bool
text_beq [] [] = true
text_beq [] (b ∷ t) = false
text_beq (a ∷ s) [] = false
text_beq (a ∷ s) (b ∷ t) = nat_beq a b && text_beq s t

text_beq_sound : (s t : Text) → text_beq s t ≡ true → s ≡ t
text_beq_sound [] [] h = refl
text_beq_sound [] (b ∷ t) h = ground arith
text_beq_sound (a ∷ s) [] h = ground arith
text_beq_sound (a ∷ s) (b ∷ t) h = ground (arith, text_beq_sound s t)

text_beq_refl : (s : Text) → text_beq s s ≡ true
text_beq_refl [] = refl
text_beq_refl (a ∷ s) = ground (arith, text_beq_refl s)

pub text_beq_iff : (s t : Text) → (text_beq s t ≡ true) ↔ (s ≡ t)
text_beq_iff s t = (text_beq_sound s t, λ e. rw e (text_beq_refl t))

abbrev pub is_empty : Text → Bool
is_empty [] = true
is_empty (c ∷ s) = false

-- Lexicographic order, as Go and SQLite compare texts.
abbrev pub text_ltb : Text → Text → Bool
text_ltb s [] = false
text_ltb [] (b ∷ t) = true
text_ltb (a ∷ s) (b ∷ t) = ltb a b || (nat_beq a b && text_ltb s t)

pub text_ltb_irrefl : (s : Text) → text_ltb s s ≡ false
text_ltb_irrefl [] = refl
text_ltb_irrefl (a ∷ s) = ground (arith, text_ltb_irrefl s)

pub text_ltb_trans :
    (s t u : Text) → text_ltb s t ≡ true → text_ltb t u ≡ true → text_ltb s u ≡ true
text_ltb_trans s [] u h k = cc
text_ltb_trans s (b ∷ t) [] h k = cc
text_ltb_trans [] (b ∷ t) (c ∷ u) h k = refl
text_ltb_trans (a ∷ s) (b ∷ t) (c ∷ u) h k = ground (arith, text_ltb_trans s t u)

abbrev pub has_prefix : Text → Text → Bool
has_prefix s [] = true
has_prefix [] (c ∷ p) = false
has_prefix (d ∷ s) (c ∷ p) = nat_beq d c && has_prefix s p

abbrev pub has_suffix : Text → Text → Bool
has_suffix s t = leb (length t) (length s) && text_beq (drop (length s - length t) s) t

abbrev pub trim_prefix : Text → Text → Text
trim_prefix s p = if has_prefix s p then drop (length p) s else s

abbrev pub trim_suffix : Text → Text → Text
trim_suffix s t = if has_suffix s t then take (length s - length t) s else s

-- strings.ReplaceAll where the text to replace is one character.
abbrev pub replace_all : ℕ → Text → Text → Text
replace_all old new [] = []
replace_all old new (c ∷ s) = (if nat_beq c old then new else c ∷ []) ++ replace_all old new s

pub replace_all-append :
    (old : ℕ) (new s t : Text)
    → replace_all old new (s ++ t) ≡ replace_all old new s ++ replace_all old new t
replace_all-append old new [] t = refl
replace_all-append old new (c ∷ s) t = simp (replace_all-append old new s t, append_assoc)

-- unicode.ToUpper where its result is an ASCII letter; any other character is kept. Besides the
-- ASCII letters these are the dotless i and the long s.
abbrev pub upper : ℕ → ℕ
upper c =
    if leb b'a' c && leb c b'z'
    then c - 32
    else if nat_beq c 0x131
    then b'I'
    else if nat_beq c 0x17f
    then b'S'
    else c

-- strings.ToUpper, as far as a comparison with an ASCII text can see.
abbrev pub to_upper : Text → Text
to_upper [] = []
to_upper (c ∷ s) = upper c ∷ to_upper s

-- strings.ToLower; `lower` is unicode.ToLower beyond ASCII.
abbrev pub to_lower : (ℕ → ℕ) → Text → Text
to_lower lower [] = []
to_lower lower (c ∷ s) =
    (if leb b'A' c && leb c b'Z' then c + 32 else if ltb c 128 then c else lower c)
    ∷ to_lower lower s

-- strings.Contains.
abbrev pub contains_text : Text → Text → Bool
contains_text [] t = is_empty t
contains_text (c ∷ s) t = has_prefix (c ∷ s) t || contains_text s t
