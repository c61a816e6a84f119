-- ===== src/Storage/Match/Phrases.antt =====
-- A sanitized query reads back as the fields of the query, each a phrase.
use grepod.Prelude.{
  ◌≡◌, refl, ap, ◌∙◌, inl, inr, false, Option, none, some, List, [], ◌∷◌, ◌++◌, append_assoc,
  append-nil, nat_beq, keep, not, is_empty, All, All-append, if◌then◌else◌, Text, replace_all,
  arith, Bool-cases,
}
use grepod.Storage.Match.{
  quote, fields, fields_from, is_space, quote_field, quote_all, join, sanitize_match_query,
}

-- Where a reader of FTS5 phrases stands: between phrases, in one of which some text was read, or
-- behind a quote in one, which ends the phrase unless another quote follows.
pub data Mode : Type 0 where
  between : Mode
  inside after_quote : Text → Mode

-- The phrases of a text that holds strings in double quotes, a quote in them doubled, and spaces
-- between them; anything else is refused.
pub read_from : Mode → Text → Option (List Text)
read_from between [] = some []
read_from (inside p) [] = none
read_from (after_quote p) [] = some (p ∷ [])
read_from between (c ∷ s) =
    let skip = read_from between s in
    let open_phrase = read_from (inside []) s in
    if nat_beq c b' ' then skip else if nat_beq c quote then open_phrase else none
read_from (inside p) (c ∷ s) =
    read_from (if nat_beq c quote then after_quote p else inside (p ++ c ∷ [])) s
read_from (after_quote p) (c ∷ s) =
    let again = read_from (inside (p ++ quote ∷ [])) s in
    let next = read_from between s in
    if nat_beq c quote
    then again
    else if nat_beq c b' '
    then elim next [ none ↦ none | some ps ↦ some (p ∷ ps) ]
    else none

pub read_phrases : Text → Option (List Text)
unfolding read_from
read_phrases s = read_from between s

read-body :
    (f p t : Text)
    → read_from (inside p) (replace_all quote (quote ∷ quote ∷ []) f ++ t)
      ≡ read_from (inside (p ++ f)) t
unfolding read_from
read-body [] p t = rw (append-nil p)
read-body (c ∷ f) p t = ground (arith, read-body f (p ++ c ∷ []) t, append_assoc p (c ∷ []) f)

read-quote_field :
    (f t : Text) → read_from between (quote_field f ++ t) ≡ read_from (after_quote f) t
unfolding quote_field read_from
read-quote_field f t =
    rw (append_assoc (replace_all quote (quote ∷ quote ∷ []) f) (quote ∷ []) t)
      (read-body f [] (quote ∷ t))

read_next :
    (f t : Text) {ps : List Text}
    → read_from between t ≡ some ps
    → read_from (after_quote f) (b' ' ∷ t) ≡ some (f ∷ ps)
unfolding read_from
read_next f t h = rw h

read-join : (fs : List Text) → read_from between (join (quote_all fs)) ≡ some fs
unfolding join quote_all
read-join [] = unfold read_from in refl
read-join (f ∷ []) =
    rw (← append-nil (quote_field f)) (read-quote_field f [] ∙ unfold read_from in refl)
read-join (f ∷ g ∷ fs) =
    read-quote_field f (b' ' ∷ join (quote_all (g ∷ fs)))
    ∙ read_next f (join (quote_all (g ∷ fs))) (read-join (g ∷ fs))

-- The fields are the text without its spaces, cut where it has them.
abbrev pub IsField : Text → Type 0
IsField f = (is_empty f ≡ false) × All (λ c. is_space c ≡ false) f

abbrev pub flat : List Text → Text
flat [] = []
flat (f ∷ fs) = f ++ flat fs

abbrev pub no_spaces : Text → Text
no_spaces = keep (λ c. not (is_space c))

close-IsField :
    (field : Text) (rest : List Text) (t : Text)
    → All (λ c. is_space c ≡ false) field
    → All IsField rest × (flat rest ≡ t)
    → All IsField (if is_empty field then rest else field ∷ rest)
      × (flat (if is_empty field then rest else field ∷ rest) ≡ field ++ t)
close-IsField [] rest t h r = r
close-IsField (d ∷ field) rest t h r = (((refl, h), r.0), ap (λ u. (d ∷ field) ++ u) r.1)

fields_from_lem :
    (field s : Text)
    → All (λ c. is_space c ≡ false) field
    → All IsField (fields_from field s) × (flat (fields_from field s) ≡ field ++ no_spaces s)
unfolding fields_from
fields_from_lem [] [] h = (tt, refl)
fields_from_lem (d ∷ field) [] h = (((refl, h), tt), refl)
fields_from_lem field (c ∷ s) h = elim (Bool-cases (is_space c)) [
  | inl space ↦ rw space (close-IsField field (fields_from [] s) _ h (fields_from_lem [] s tt))
  | inr letter ↦
      let more = fields_from_lem (field ++ c ∷ []) s (All-append _ field (c ∷ []) h (letter, tt)) in
      rw letter (more.0, more.1 ∙ append_assoc field (c ∷ []) (no_spaces s))
]

-- Whatever the user typed, the query that is handed to FTS5 is a sequence of quoted phrases, and
-- no character of the text is read as an operator: the phrases are not empty, hold no space, and
-- spell the text without its spaces.
pub read-sanitize :
    (query : Text)
    → (phrases : List Text) × (read_phrases (sanitize_match_query query) ≡ some phrases)
      × All IsField phrases
      × (flat phrases ≡ no_spaces query)
unfolding read_phrases sanitize_match_query
read-sanitize query =
    let spelt = fields_from_lem [] query tt in
    (fields query, read-join (fields query), spelt.0, spelt.1)
