-- ===== src/Api/Event/OneLine.antt =====
-- An event is one line of the stream.
use grepod.Prelude.{ℕ, ◌/◌, ◌%◌, ◌≤◌, List, [], ◌∷◌, Text, All, All-append, arith}
use grepod.Api.Event.{
  TailEvent, hex_digit, json_char, json_chars, json_string, json_field, json_fields, fields_of,
  marshal,
}

-- No character below the space, such as a line break.
abbrev pub IsInline : ℕ → Type 0
IsInline c = 32 ≤ c

hex_digit-IsInline : (n : ℕ) → IsInline (hex_digit n)
hex_digit-IsInline n = ground arith

json_char-IsInline : (c : ℕ) → All IsInline (json_char c)
unfolding json_char
json_char-IsInline c = ground (
  arith,
  hex_digit-IsInline (c / 4096 % 16),
  hex_digit-IsInline (c / 256 % 16),
  hex_digit-IsInline (c / 16 % 16),
  hex_digit-IsInline (c % 16),
)

json_string-IsInline : (s : Text) → All IsInline (json_string s)
json_string-IsInline s =
    (omega arith, All-append IsInline (json_chars s) _ (json_chars-IsInline s) (omega arith, tt))
  where
    json_chars-IsInline : (s : Text) → All IsInline (json_chars s)
    json_chars-IsInline [] = tt
    json_chars-IsInline (c ∷ s) =
        All-append IsInline (json_char c) (json_chars s) (json_char-IsInline c)
          (json_chars-IsInline s)

json_field-IsInline : (name value : Text) → All IsInline (json_field name value)
json_field-IsInline name value =
    All-append IsInline (json_string name) (b':' ∷ json_string value) (json_string-IsInline name)
      (omega arith, json_string-IsInline value)

json_fields-IsInline : (fields : List (Text × Text)) → All IsInline (json_fields fields)
json_fields-IsInline [] = tt
json_fields-IsInline ((name, value) ∷ []) = json_field-IsInline name value
json_fields-IsInline ((name, value) ∷ field ∷ fields) =
    All-append IsInline (json_field name value) (b',' ∷ json_fields (field ∷ fields))
      (json_field-IsInline name value) (omega arith, json_fields-IsInline (field ∷ fields))

-- Whatever a line of a container holds, the JSON of its event has no line break and no other control
-- character: an event is one `data:` line of the stream, and no content can end it early.
pub marshal-IsInline : (e : TailEvent) → All IsInline (marshal e)
unfolding marshal
marshal-IsInline e = (
  omega arith,
  All-append IsInline (json_fields (fields_of e)) (b'}' ∷ []) (json_fields-IsInline (fields_of e))
      (omega arith, tt),
)
