-- ===== src/Api/Event.antt =====
-- internal/api/handler.go: tailEvent, and json.Marshal of it.
pub mod OneLine
use grepod.Prelude.{
  ℕ, ◌/◌, ◌%◌, ◌+◌, ◌-◌, Bool, true, false, List, [], ◌∷◌, ◌++◌, ◌||◌, if◌then◌else◌, nat_beq, ltb,
  Text, codes, ◌≡◌, refl,
}

pub record TailEvent : Type 0 where
  pub pod : Text
  pub namespace : Text
  pub container : Text
  pub timestamp : Text
  pub level : Text
  pub content : Text

abbrev pub hex_digit : ℕ → ℕ
hex_digit n = if ltb n 10 then b'0' + n else b'a' + (n - 10)

-- A character by its number, in four hexadecimal digits.
abbrev pub by_number : ℕ → Text
by_number c =
    b'\\'
    ∷ b'u'
    ∷ hex_digit (c / 4096 % 16)
    ∷ hex_digit (c / 256 % 16)
    ∷ hex_digit (c / 16 % 16)
    ∷ hex_digit (c % 16)
    ∷ []

-- encoding/json escapes quotes, control characters, what HTML reads, and two line separators.
unfoldable pub json_char : ℕ → Text
json_char c =
    if nat_beq c b'"' || nat_beq c b'\\'
    then b'\\' ∷ c ∷ []
    else if nat_beq c 8
    then codes "\\b"
    else if nat_beq c 9
    then codes "\\t"
    else if nat_beq c 10
    then codes "\\n"
    else if nat_beq c 12
    then codes "\\f"
    else if nat_beq c 13
    then codes "\\r"
    else if ltb c 32
        || nat_beq c b'<'
        || nat_beq c b'>'
        || nat_beq c b'&'
        || nat_beq c 0x2028
        || nat_beq c 0x2029
    then by_number c
    else c ∷ []

abbrev pub json_chars : Text → Text
json_chars [] = []
json_chars (c ∷ s) = json_char c ++ json_chars s

abbrev pub json_string : Text → Text
json_string s = b'"' ∷ json_chars s ++ b'"' ∷ []

abbrev pub json_field : Text → Text → Text
json_field name value = json_string name ++ b':' ∷ json_string value

abbrev pub json_fields : List (Text × Text) → Text
json_fields [] = []
json_fields ((name, value) ∷ []) = json_field name value
json_fields ((name, value) ∷ fields) = json_field name value ++ b',' ∷ json_fields fields

-- The fields by the names of their tags.
abbrev pub fields_of : TailEvent → List (Text × Text)
fields_of e =
    (codes "pod", e.pod)
    ∷ (codes "namespace", e.namespace)
    ∷ (codes "container", e.container)
    ∷ (codes "timestamp", e.timestamp)
    ∷ (codes "level", e.level)
    ∷ (codes "content", e.content)
    ∷ []

unfoldable pub marshal : TailEvent → Text
unfolding json_char
marshal e = b'{' ∷ json_fields (fields_of e) ++ b'}' ∷ []

json_char_runs :
    (json_char b'<' ≡ codes "\\u003c")
    × (json_char 0x1f ≡ codes "\\u001f")
    × (json_char b'a' ≡ codes "a")
unfolding json_char
json_char_runs = (refl, refl, refl)
