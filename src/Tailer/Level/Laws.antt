-- ===== src/Tailer/Level/Laws.antt =====
-- What detectLevel finds, and that it finds the first token there is.
use grepod.Prelude.{
  ℕ, ◌≤◌, ◌≡◌, refl, ap, subst, ◌⊎◌, inl, inr, Bool, true, false, none, some, List, [], ◌∷◌, ◌++◌,
  length, take, drop, ◌<◌, zero, suc, All, if◌then◌else◌, Text, codes, text_beq, upper, to_upper,
  arith, Bool-cases, Option-cases, ◌&&◌,
}
use grepod.Storage.Level.{severity_of}
use grepod.Tailer.Level.{
  level_words, is_word, fold, begins, ends_word, skip, token_here, find_token, detect_level,
}

abbrev pub IsCapital : ℕ → Type 0
IsCapital w = (b'A' ≤ w) × (w ≤ b'Z')

upper_of_fold : (c w : ℕ) → IsCapital w → fold c ≡ w → upper c ≡ w
upper_of_fold c w h e = ground arith

pub to_upper-begins :
    (w s : Text) → All IsCapital w → begins w s ≡ true → to_upper (take (length w) s) ≡ w
to_upper-begins [] s h b = refl
to_upper-begins (w ∷ ws) [] h b = cc
to_upper-begins (w ∷ ws) (c ∷ s) h b =
    ground (arith, upper_of_fold c w h.0, to_upper-begins ws s h.1)

-- The level that a token stands for.
abbrev pub normal : Text → Text
normal m =
    let level = to_upper m in if text_beq level (codes "WARNING") then codes "WARN" else level

abbrev IsRanked : Text → Type 0
IsRanked level = (r : ℕ) × (severity_of level ≡ some r)

abbrev IsLevelWord : Text → Type 0
IsLevelWord w =
    All IsCapital w × IsRanked (if text_beq w (codes "WARNING") then codes "WARN" else w)

level_words-ranked : All IsLevelWord level_words
unfolding severity_of
level_words-ranked = (
  (omega arith, (0, refl)),
  (
    (omega arith, (1, refl)),
    (
      (omega arith, (2, refl)),
      (
        (omega arith, (2, refl)),
        ((omega arith, (3, refl)), ((omega arith, (4, refl)), ((omega arith, (5, refl)), tt))),
      ),
    ),
  ),
)

token_here-IsRanked :
    (ws : List Text) (s : Text) {m : Text}
    → All IsLevelWord ws
    → token_here ws s ≡ some m
    → IsRanked (normal m)
unfolding token_here
token_here-IsRanked [] s h e = cc
token_here-IsRanked (w ∷ ws) s {m} h e = elim (Bool-cases (begins w s && ends_word (skip w s))) [
  | inl hit ↦
      let same : take (length w) s ≡ m = ground arith in
      let capital = to_upper-begins w s h.0.0 (ground arith) in rw (← same, capital) h.0.1
  | inr miss ↦ token_here-IsRanked ws s {m = m} h.1 (ground arith)
]

find_token-IsRanked :
    (inside : Bool) (s : Text) (m : Text) → find_token inside s ≡ some m → IsRanked (normal m)
unfolding find_token
find_token-IsRanked inside [] m e = cc
find_token-IsRanked inside (c ∷ s) m e =
    elim (Option-cases (if inside then none else token_here level_words (c ∷ s))) [
      | inl miss ↦ find_token-IsRanked (is_word c) s m (rw (miss, find_token) at e)
      | inr (n, hit) ↦
          token_here-IsRanked level_words (c ∷ s) {m = m} level_words-ranked (ground arith)
    ]

-- A detected level is one that the store can rank, so that every line that is stored with a level
-- is selected by a level tab of its severity or less.
pub detect_level-ranked :
    (line : Text)
    → (detect_level line ≡ []) ⊎ ((r : ℕ) × (severity_of (detect_level line) ≡ some r))
unfolding detect_level
detect_level-ranked line = elim (Option-cases (find_token false line)) [
  | inl e ↦ inl (rw (e, detect_level))
  | inr (m, e) ↦ inr (rw (e, detect_level) (find_token-IsRanked false line m e))
]

-- Whether a character of a word comes last, where `inside` says so of what stands before.
abbrev pub inside_after : Bool → Text → Bool
inside_after inside [] = inside
inside_after inside (c ∷ s) = inside_after (is_word c) s

token_here_end : token_here level_words [] ≡ none
unfolding token_here
token_here_end = refl

find_token-none :
    (inside : Bool) (p q : Text)
    → find_token inside (p ++ q) ≡ none
    → inside_after inside p ≡ false
    → token_here level_words q ≡ none
unfolding find_token
find_token-none inside [] [] h b = token_here_end
find_token-none inside [] (c ∷ q) h b = ground arith
find_token-none inside (c ∷ p) q h b = find_token-none (is_word c) p q (ground arith) b

-- The first place with a token.
record First (inside : Bool) (s m : Text) : Type 0 where
  before : Text
  rest : Text
  split : s ≡ before ++ rest
  boundary : inside_after inside before ≡ false
  token : token_here level_words rest ≡ some m
  none_before :
      (k : ℕ)
      → k < length before
      → inside_after inside (take k before) ≡ false
      → token_here level_words (drop k before ++ rest) ≡ none

First-later :
    (inside : Bool) (c : ℕ) (s m : Text)
    → (if inside then none else token_here level_words (c ∷ s)) ≡ none
    → First (is_word c) s m
    → First inside (c ∷ s) m
First-later inside c s m miss f = record {
  before = c ∷ f.before;
  rest = f.rest;
  split = ap (λ t. c ∷ t) f.split;
  boundary = f.boundary;
  token = f.token;
  none_before = none_before;
}
  where
    none_before :
        (k : ℕ)
        → k < length (c ∷ f.before)
        → inside_after inside (take k (c ∷ f.before)) ≡ false
        → token_here level_words (drop k (c ∷ f.before) ++ f.rest) ≡ none
    none_before zero lt b = rw (← f.split) (ground (arith, b, miss))
    none_before (suc k) lt b = f.none_before k (omega arith) b

find_token-some : (inside : Bool) (s m : Text) → find_token inside s ≡ some m → First inside s m
unfolding find_token
find_token-some inside [] m h = cc
find_token-some inside (c ∷ s) m h =
    elim (Option-cases (if inside then none else token_here level_words (c ∷ s))) [
      | inl miss ↦
          First-later inside c s m miss
            (find_token-some (is_word c) s m (rw (miss, find_token) at h))
      | inr (n, hit) ↦ record {
        before = [];
        rest = c ∷ s;
        split = refl;
        boundary = ground arith;
        token = ground arith;
        none_before = λ k lt _. absurd (omega arith);
      }
    ]

-- Either no level is detected, and then no word of the list stands between two boundaries anywhere
-- in the line; or the detected level is that of the word that stands at the first such place.
pub detect_level_first :
    (line : Text)
    → ((detect_level line ≡ [])
        × ((p q : Text)
            → line ≡ p ++ q
            → inside_after false p ≡ false
            → token_here level_words q ≡ none))
      ⊎ ((p q m : Text) × (line ≡ p ++ q)
          × (inside_after false p ≡ false)
          × (token_here level_words q ≡ some m)
          × (detect_level line ≡ normal m)
          × ((k : ℕ)
              → k < length p
              → inside_after false (take k p) ≡ false
              → token_here level_words (drop k p ++ q) ≡ none))
unfolding detect_level
detect_level_first line = elim (Option-cases (find_token false line)) [
  | inl e ↦ inl (
    rw (e, detect_level),
    λ p q split b. find_token-none false p q (subst (λ t. find_token false t ≡ none) split e) b,
  )
  | inr (m, e) ↦
      let f = find_token-some false line m e in
      inr (f.before, f.rest, m, f.split, f.boundary, f.token, rw (e, detect_level), f.none_before)
]
