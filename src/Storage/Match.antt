-- ===== src/Storage/Match.antt =====
-- internal/storage/sqlite.go: sanitizeMatchQuery, with strings.Fields and strings.Join.
pub mod Phrases
use grepod.Prelude.{
  ℕ, ◌≡◌, refl, Bool, true, false, List, [], ◌∷◌, ◌++◌, ◌||◌, ◌&&◌, leb, nat_beq, if◌then◌else◌,
  Text, codes, is_empty, replace_all,
}

-- unicode.IsSpace.
unfoldable pub is_space : ℕ → Bool
is_space c =
    (leb 9 c && leb c 13)
    || nat_beq c 0x20
    || nat_beq c 0x85
    || nat_beq c 0xa0
    || nat_beq c 0x1680
    || (leb 0x2000 c && leb c 0x200a)
    || nat_beq c 0x2028
    || nat_beq c 0x2029
    || nat_beq c 0x202f
    || nat_beq c 0x205f
    || nat_beq c 0x3000

-- The fields of a text, where `field` was read of the current one.
unfoldable pub fields_from : Text → Text → List Text
fields_from field [] = if is_empty field then [] else field ∷ []
fields_from field (c ∷ s) =
    let next = fields_from [] s in
    let more = fields_from (field ++ c ∷ []) s in
    if is_space c then (if is_empty field then next else field ∷ next) else more

unfoldable pub fields : Text → List Text
unfolding fields_from
fields s = fields_from [] s

abbrev pub quote : ℕ
quote = b'"'

unfoldable pub quote_field : Text → Text
quote_field f = quote ∷ (replace_all quote (quote ∷ quote ∷ []) f ++ quote ∷ [])

-- strings.Join with a space.
unfoldable pub join : List Text → Text
join [] = []
join (f ∷ []) = f
join (f ∷ g ∷ fs) = f ++ (b' ' ∷ join (g ∷ fs))

unfoldable pub quote_all : List Text → List Text
quote_all [] = []
quote_all (f ∷ fs) = quote_field f ∷ quote_all fs

unfoldable pub sanitize_match_query : Text → Text
unfolding fields join quote_all quote_field
sanitize_match_query query = join (quote_all (fields query))

sanitize_runs : sanitize_match_query (codes " flush-on  a\"b ") ≡ codes "\"flush-on\" \"a\"\"b\""
unfolding sanitize_match_query is_space
sanitize_runs = refl
