-- ===== src/Tailer/Level.antt =====
-- internal/tailer/level.go: the search for a level token in a line.
-- The pattern `(?i)\b(FATAL|ERROR|WARNING|WARN|INFO|DEBUG|TRACE)\b` matches at the first place where
-- one of the words, tried in order, stands between two boundaries of words.
pub mod Laws
pub mod Tokens
use grepod.Prelude.{
  ℕ, ◌-◌, ◌≡◌, refl, Bool, true, false, Option, none, some, List, [], ◌∷◌, ◌++◌, length, take, leb,
  nat_beq, ◌&&◌, ◌||◌, not, if◌then◌else◌, Text, codes, text_beq, to_upper,
}

abbrev pub level_words : List Text
level_words =
    codes "FATAL"
    ∷ codes "ERROR"
    ∷ codes "WARNING"
    ∷ codes "WARN"
    ∷ codes "INFO"
    ∷ codes "DEBUG"
    ∷ codes "TRACE"
    ∷ []

-- A character of a word, to `\b`.
abbrev pub is_word : ℕ → Bool
is_word c =
    (leb b'a' c && leb c b'z')
    || (leb b'A' c && leb c b'Z')
    || (leb b'0' c && leb c b'9')
    || nat_beq c b'_'

-- The fold of `(?i)` for the letters of the words, which are ASCII.
abbrev pub fold : ℕ → ℕ
fold c = if leb b'a' c && leb c b'z' then c - 32 else c

-- Whether the text begins with a word, in either case of letters.
abbrev pub begins : Text → Text → Bool
begins [] s = true
begins (w ∷ ws) [] = false
begins (w ∷ ws) (c ∷ s) = nat_beq (fold c) w && begins ws s

-- The first character is no character of a word, nor is the end.
abbrev pub ends_word : Text → Bool
ends_word [] = true
ends_word (c ∷ s) = not (is_word c)

abbrev pub skip : Text → Text → Text
skip [] s = s
skip (w ∷ ws) [] = []
skip (w ∷ ws) (c ∷ s) = skip ws s

-- The words end in a letter, so that `\b` behind one asks for no character of a word.
unfoldable pub token_here : List Text → Text → Option Text
token_here [] s = none
token_here (w ∷ ws) s =
    if begins w s && ends_word (skip w s) then some (take (length w) s) else token_here ws s

-- `inside` says whether the character before is one of a word: the words begin with a letter, so
-- that `\b` before one asks that it is not.
unfoldable pub find_token : Bool → Text → Option Text
find_token inside [] = none
find_token inside (c ∷ s) =
    let later = find_token (is_word c) s in
    elim (if inside then none else token_here level_words (c ∷ s)) [
      | none ↦ later
      | some m ↦ some m
    ]

unfoldable pub detect_level : Text → Text
unfolding find_token token_here
detect_level line = elim (find_token false line) [
  | none ↦ []
  | some m ↦
      let level = to_upper m in if text_beq level (codes "WARNING") then codes "WARN" else level
]

detect_level_runs :
    (detect_level (codes "ts=1 level=warning msg") ≡ codes "WARN")
    × (detect_level (codes "[ERROR] no info") ≡ codes "ERROR")
    × (detect_level (codes "information only") ≡ [])
unfolding detect_level
detect_level_runs = (refl, refl, refl)
