-- ===== src/Storage/Snippet.antt =====
-- internal/storage/sqlite.go: escapeSnippet, with html.EscapeString of the standard library.
pub mod Safe
use grepod.Prelude.{
  ℕ, ◌≡◌, refl, List, [], ◌∷◌, ◌++◌, nat_beq, if◌then◌else◌, Text, codes, replace_all,
}

abbrev pub snippet_mark_start : ℕ
snippet_mark_start = 1

abbrev pub snippet_mark_end : ℕ
snippet_mark_end = 2

-- The five characters that html.EscapeString replaces.
unfoldable pub escape_char : ℕ → Text
escape_char c =
    if nat_beq c b'&'
    then codes "&amp;"
    else if nat_beq c b'\''
    then codes "&#39;"
    else if nat_beq c b'<'
    then codes "&lt;"
    else if nat_beq c b'>'
    then codes "&gt;"
    else if nat_beq c b'"'
    then codes "&#34;"
    else c ∷ []

unfoldable pub escape_string : Text → Text
escape_string [] = []
escape_string (c ∷ s) = escape_char c ++ escape_string s

abbrev pub mark_open : Text
mark_open = codes "<mark>"

abbrev pub mark_close : Text
mark_close = codes "</mark>"

unfoldable pub escape_snippet : Text → Text
unfolding escape_string
escape_snippet raw =
    let escaped = escape_string raw in
    let opened = replace_all snippet_mark_start mark_open escaped in
    replace_all snippet_mark_end mark_close opened

escape_snippet_runs : escape_snippet (1 ∷ codes "<b>" ++ 2 ∷ []) ≡ codes "<mark>&lt;b&gt;</mark>"
unfolding escape_snippet escape_char
escape_snippet_runs = refl
