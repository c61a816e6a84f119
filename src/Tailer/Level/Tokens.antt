-- ===== src/Tailer/Level/Tokens.antt =====
-- What detectLevel finds, by the tokens of levels as they stand in a line.
use grepod.Prelude.{
  ℕ, ◌+◌, ◌≤◌, ◌<◌, ◌≡◌, refl, sym, ap, ◌∙◌, subst, ◌⊎◌, inl, inr, true, false, none, some, List,
  [], ◌∷◌, ◌++◌, length, take, drop, All, if◌then◌else◌, Text, codes, text_beq, arith, Bool-cases,
  ltb, ltb→lt, ltb→le, ◌&&◌,
}
use grepod.Tailer.Level.{level_words, is_word, begins, ends_word, skip, token_here, detect_level}
use grepod.Tailer.Level.Laws.{IsCapital, to_upper-begins, normal, inside_after, detect_level_first}

-- The words for levels, each with the level that it stands for.
abbrev pub tokens : List (Text × Text)
tokens =
    (codes "FATAL", codes "FATAL")
    ∷ (codes "ERROR", codes "ERROR")
    ∷ (codes "WARNING", codes "WARN")
    ∷ (codes "WARN", codes "WARN")
    ∷ (codes "INFO", codes "INFO")
    ∷ (codes "DEBUG", codes "DEBUG")
    ∷ (codes "TRACE", codes "TRACE")
    ∷ []

-- A text in capitals, with some of its letters small.
abbrev pub EitherCase : Text → Text → Type 0
EitherCase [] [] = Unit
EitherCase (w ∷ ws) (c ∷ cs) = ((c ≡ w) ⊎ (c ≡ w + 32)) × EitherCase ws cs
EitherCase _ _ = ⊥

-- A text is one of some words, in either case, that stands for a level.
abbrev pub MeansOf : List (Text × Text) → Text → Text → Type 0
MeansOf [] m level = ⊥
MeansOf ((w, l) ∷ ts) m level = (EitherCase w m × (level ≡ l)) ⊎ MeansOf ts m level

abbrev pub Means : Text → Text → Type 0
Means m level = MeansOf tokens m level

-- Letters, digits and the underscore, of ASCII.
abbrev pub IsWordChar : ℕ → Type 0
IsWordChar c =
    ((b'a' ≤ c) × (c ≤ b'z'))
    ⊎ (((b'A' ≤ c) × (c ≤ b'Z')) ⊎ (((b'0' ≤ c) × (c ≤ b'9')) ⊎ (c ≡ b'_')))

abbrev pub StartsWord : Text → Type 0
StartsWord [] = ⊥
StartsWord (c ∷ s) = IsWordChar c

abbrev pub EndsWord : Text → Type 0
EndsWord [] = ⊥
EndsWord (c ∷ []) = IsWordChar c
EndsWord (c ∷ d ∷ s) = EndsWord (d ∷ s)

-- A token for a level that stands between `p` and `r`, with no character of a word next to it.
pub record Stands (p m r level : Text) : Type 0 where
  pub means : Means m level
  pub starts : EndsWord p → ⊥
  pub ends : StartsWord r → ⊥

is_word-IsWordChar : (c : ℕ) → is_word c ≡ true → IsWordChar c
is_word-IsWordChar c h = ground (arith, h)

IsWordChar-is_word : (c : ℕ) → IsWordChar c → is_word c ≡ true
IsWordChar-is_word c h = ground (arith, h)

ends_word-StartsWord : (r : Text) → ends_word r ≡ true → StartsWord r → ⊥
ends_word-StartsWord [] h k = k
ends_word-StartsWord (c ∷ r) h k = ground (arith, h, IsWordChar-is_word c k)

StartsWord-ends_word : (r : Text) → (StartsWord r → ⊥) → ends_word r ≡ true
StartsWord-ends_word [] h = refl
StartsWord-ends_word (c ∷ r) h = elim (Bool-cases (is_word c)) [
  | inl e ↦ absurd (h (is_word-IsWordChar c e))
  | inr e ↦ ground (arith, e)
]

inside_after-EndsWord : (p : Text) → inside_after false p ≡ false → EndsWord p → ⊥
inside_after-EndsWord [] h k = k
inside_after-EndsWord (c ∷ []) h k = ground (arith, h, IsWordChar-is_word c k)
inside_after-EndsWord (c ∷ d ∷ p) h k = inside_after-EndsWord (d ∷ p) h k

EndsWord-inside_after : (p : Text) → (EndsWord p → ⊥) → inside_after false p ≡ false
EndsWord-inside_after [] h = refl
EndsWord-inside_after (c ∷ []) h = elim (Bool-cases (is_word c)) [
  | inl e ↦ absurd (h (is_word-IsWordChar c e))
  | inr e ↦ e
]
EndsWord-inside_after (c ∷ d ∷ p) h = EndsWord-inside_after (d ∷ p) h

-- A text that begins with a word in either case.
begins-split :
    (w s : Text)
    → All IsCapital w
    → begins w s ≡ true
    → (s ≡ take (length w) s ++ skip w s) × EitherCase w (take (length w) s)
begins-split [] s h b = (refl, tt)
begins-split (w ∷ ws) [] h b = cc
begins-split (w ∷ ws) (c ∷ s) h b =
    let (split, either) = begins-split ws s h.1 (ground (arith, b)) in
    (ap (λ t. c ∷ t) split, (ground (arith, h.0, b), either))

EitherCase-begins :
    (w m r : Text)
    → All IsCapital w
    → EitherCase w m
    → (begins w (m ++ r) ≡ true) × (skip w (m ++ r) ≡ r)
EitherCase-begins [] [] r h e = (refl, refl)
EitherCase-begins [] (c ∷ m) r h e = absurd e
EitherCase-begins (w ∷ ws) [] r h e = absurd e
EitherCase-begins (w ∷ ws) (c ∷ m) r h e =
    let (b, s) = EitherCase-begins ws m r h.1 e.1 in (ground (arith, h.0, e.0, b), s)

abbrev firsts : List (Text × Text) → List Text
firsts [] = []
firsts ((w, l) ∷ ts) = w ∷ firsts ts

abbrev IsToken : Text × Text → Type 0
IsToken t =
    All IsCapital t.0 × ((if text_beq t.0 (codes "WARNING") then codes "WARN" else t.0) ≡ t.1)

tokens-IsToken : All IsToken tokens
tokens-IsToken = ground arith

token_here-Means :
    (ts : List (Text × Text)) (s m : Text)
    → All IsToken ts
    → token_here (firsts ts) s ≡ some m
    → (r : Text) × (s ≡ m ++ r) × MeansOf ts m (normal m) × (ends_word r ≡ true)
unfolding token_here
token_here-Means [] s m h e = cc
token_here-Means ((w, l) ∷ ts) s m h e = elim (Bool-cases (begins w s && ends_word (skip w s))) [
  | inl hit ↦
      let same : take (length w) s ≡ m = ground (arith, e, hit) in
      let b : begins w s ≡ true = ground (arith, hit) in
      let (split, either) = begins-split w s h.0.0 b in
      (
        skip w s,
        rw (← same) split,
        inl (rw (← same) either, rw (← same, to_upper-begins w s h.0.0 b) h.0.1),
        ground (arith, hit),
      )
  | inr miss ↦
      let (r, split, means, ends) = token_here-Means ts s m h.1 (ground (arith, e, miss)) in
      (r, split, inr means, ends)
]

Means-token_here :
    (ts : List (Text × Text)) (m r level : Text)
    → All IsToken ts
    → MeansOf ts m level
    → ends_word r ≡ true
    → token_here (firsts ts) (m ++ r) ≡ none
    → ⊥
unfolding token_here
Means-token_here [] m r level h k e n = absurd k
Means-token_here ((w, l) ∷ ts) m r level h (inl k) e n =
    let (b, s) = EitherCase-begins w m r h.0.0 k.0 in ground (arith, rw (b, s, e) at n)
Means-token_here ((w, l) ∷ ts) m r level h (inr k) e n =
    Means-token_here ts m r level h.1 k e (ground (arith, n))

-- A shorter beginning of the same text.
shorter :
    (p q p' s : Text)
    → p ++ q ≡ p' ++ s
    → length p' < length p
    → (take (length p') p ≡ p') × (drop (length p') p ++ q ≡ s)
shorter p q [] s e lt = (refl, e)
shorter [] q (d ∷ p') s e lt = absurd (omega (arith, lt))
shorter (c ∷ p) q (d ∷ p') s e lt =
    let same : c ≡ d = cc in
    let rest : p ++ q ≡ p' ++ s = cc in
    let (t, r) = shorter p q p' s rest (omega (arith, lt)) in
    (ap (λ x. c ∷ x) t ∙ ap (λ x. x ∷ p') same, r)

none_here : (p m r level : Text) → Stands p m r level → token_here level_words (m ++ r) ≡ none → ⊥
none_here p m r level v n =
    Means-token_here tokens m r level tokens-IsToken v.means (StartsWord-ends_word r v.ends) n

-- Either no level is detected, and then nowhere in the line one of the words FATAL, ERROR, WARNING,
-- WARN, INFO, DEBUG and TRACE, in either case of its letters, stands with no letter, digit or
-- underscore next to it; or the detected level is the one that the first such word stands for: the word in
-- capitals, but WARN for WARNING.
pub detect_level_first_token :
    (line : Text)
    → ((detect_level line ≡ [])
        × ((p m r level : Text) → line ≡ p ++ (m ++ r) → Stands p m r level → ⊥))
      ⊎ ((p m r : Text) × (line ≡ p ++ (m ++ r))
          × Stands p m r (detect_level line)
          × ((p' m' r' level : Text)
              → line ≡ p' ++ (m' ++ r')
              → Stands p' m' r' level
              → length p ≤ length p'))
detect_level_first_token line = elim (detect_level_first line) [
  | inl (e, nowhere) ↦ inl (
    e,
    λ p m r level split v.
        none_here p m r level v (nowhere p (m ++ r) split (EndsWord-inside_after p v.starts)),
  )
  | inr (p, q, m, split, boundary, token, same, before) ↦
      let (r, rest, means, ends) = token_here-Means tokens q m tokens-IsToken token in
      inr (
        p,
        m,
        r,
        split ∙ ap (λ t. p ++ t) rest,
        record {
          means = subst (Means m) (sym same) means;
          starts = inside_after-EndsWord p boundary;
          ends = ends_word-StartsWord r ends;
        },
        λ p' m' r' level split' v. elim (Bool-cases (ltb (length p') (length p))) [
          | inr ge ↦ ltb→le _ _ ge
          | inl lt ↦
              let (t, d) = shorter p q p' (m' ++ r') (sym split ∙ split') (ltb→lt _ _ lt) in
              absurd (
                none_here p' m' r' level v (
                  ap (token_here level_words) (sym d)
                  ∙ before (length p') (ltb→lt _ _ lt)
                      (ap (inside_after false) t ∙ EndsWord-inside_after p' v.starts)))
        ],
      )
]
