-- ===== src/Storage/Snippet/Safe.antt =====
-- The only markup of a snippet is the highlighting, and nothing of the text is lost.
use grepod.Prelude.{
  ℕ, zero, suc, Option, none, some, ◌≡◌, refl, ap, ◌∙◌, List, [], ◌∷◌, ◌++◌, nat_beq, if◌then◌else◌,
  Text, codes, replace_all, replace_all-append, has_prefix, arith,
}
use mathlib.Core.Option
use grepod.Storage.Snippet.{
  escape_snippet, escape_string, escape_char, mark_open, mark_close, snippet_mark_start,
  snippet_mark_end,
}

-- What a character of the raw text becomes.
render : ℕ → Text
unfolding escape_char
render c =
    if nat_beq c snippet_mark_start
    then mark_open
    else if nat_beq c snippet_mark_end
    then mark_close
    else escape_char c

render_all : Text → Text
render_all [] = []
render_all (c ∷ s) = render c ++ render_all s

-- The two replacements of a text.
marked : Text → Text
marked s = replace_all snippet_mark_end mark_close (replace_all snippet_mark_start mark_open s)

marked-append : (s t : Text) → marked (s ++ t) ≡ marked s ++ marked t
unfolding marked
marked-append s t =
    ap (replace_all snippet_mark_end mark_close)
      (replace_all-append snippet_mark_start mark_open s t)
    ∙ replace_all-append snippet_mark_end mark_close (replace_all snippet_mark_start mark_open s)
        (replace_all snippet_mark_start mark_open t)

marked-escape_char : (c : ℕ) → marked (escape_char c) ≡ render c
unfolding marked render escape_char
marked-escape_char c = ground arith

marked-render : (s : Text) → marked (escape_string s) ≡ render_all s
unfolding escape_string render_all
marked-render [] = unfold marked in refl
marked-render (c ∷ s) =
    marked-append (escape_char c) (escape_string s) ∙ cc (marked-escape_char c, marked-render s)

escape_snippet-render : (s : Text) → escape_snippet s ≡ render_all s
unfolding escape_snippet marked
escape_snippet-render s = marked-render s

-- What a reader of HTML sees in a text without other markup than the highlighting.
pub data Piece : Type 0 where
  opens closes : Piece
  shows : ℕ → Piece

-- The piece that begins with a character, and how many of the characters behind it belong to it.
-- Other tags, other entities and a lone `>` are refused.
next_piece : ℕ → Text → Option (Piece × ℕ)
next_piece c s =
    if nat_beq c b'<'
    then if has_prefix s (codes "mark>")
      then some (opens, 5)
      else if has_prefix s (codes "/mark>")
      then some (closes, 6)
      else none
    else if nat_beq c b'&'
    then if has_prefix s (codes "amp;")
      then some (shows b'&', 4)
      else if has_prefix s (codes "#39;")
      then some (shows b'\'', 4)
      else if has_prefix s (codes "lt;")
      then some (shows b'<', 3)
      else if has_prefix s (codes "gt;")
      then some (shows b'>', 3)
      else if has_prefix s (codes "#34;")
      then some (shows b'"', 4)
      else none
    else if nat_beq c b'>'
    then none
    else some (shows c, 0)

read_from : ℕ → Text → Option (List Piece)
unfolding next_piece
read_from k [] = some []
read_from (suc k) (c ∷ s) = read_from k s
read_from zero (c ∷ s) = elim (next_piece c s) [
  | none ↦ none
  | some (p, k) ↦ Option.map (λ ps. p ∷ ps) (read_from k s)
]

pub read_html : Text → Option (List Piece)
unfolding read_from
read_html s = read_from 0 s

-- What a raw character stands for: a sentinel for the highlighting, any other for itself.
abbrev pub piece_of : ℕ → Piece
piece_of c =
    if nat_beq c snippet_mark_start
    then opens
    else if nat_beq c snippet_mark_end
    then closes
    else shows c

abbrev pub pieces_of : Text → List Piece
pieces_of [] = []
pieces_of (c ∷ s) = piece_of c ∷ pieces_of s

read-render :
    (c : ℕ) (t : Text)
    → read_from 0 (render c ++ t) ≡ Option.map (λ ps. piece_of c ∷ ps) (read_from 0 t)
unfolding render escape_char read_from
read-render c t = ground arith

read-render_all : (s : Text) → read_from 0 (render_all s) ≡ some (pieces_of s)
unfolding render_all read_from
read-render_all [] = refl
read-render_all (c ∷ s) =
    read-render c (render_all s) ∙ ap (Option.map (λ ps. piece_of c ∷ ps)) (read-render_all s)

-- A snippet reads back, character by character, as the raw line with its sentinels as highlighting:
-- whatever the line holds, no other tag, entity or bracket comes through as markup, and nothing of
-- the line is lost.
pub read-escape_snippet : (raw : Text) → read_html (escape_snippet raw) ≡ some (pieces_of raw)
unfolding read_html
read-escape_snippet raw = rw escape_snippet-render (read-render_all raw)
