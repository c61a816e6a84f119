-- ===== src/Storage/Cursor.antt =====
-- internal/storage/sqlite.go: searchCursor, encodeCursor and decodeCursor, with strings.SplitN. Every
-- error of decodeCursor is none.
pub mod RoundTrip
use grepod.Prelude.{
  ℕ, ◌-◌, Bool, true, false, Option, none, some, List, [], ◌∷◌, ◌++◌, nat_beq, if◌then◌else◌, Text,
  codes, text_beq, ◌>>=◌,
}
use grepod.Prelude.Int.{ℤ}
use grepod.Prelude.Decimal.{format_int, parse_int}
use grepod.Prelude.Base64.{encode, decode}
use grepod.Storage.Ranks.{Ranks}

abbrev pub separator : ℕ
separator = b'|'

-- At most `n` parts, where `part` was read of the current one.
pub split_from : ℕ → Text → Text → List Text
split_from n part [] = part ∷ []
split_from n part (c ∷ s) =
    let next = split_from (n - 1) [] s in
    let more = split_from n (part ++ c ∷ []) s in
    if nat_beq n 1 then (part ++ c ∷ s) ∷ [] else if nat_beq c separator then part ∷ next else more

pub split_n : Text → ℕ → List Text
unfolding split_from
split_n s n = split_from n [] s

module _ (ranks : Ranks) where
  pub record SearchCursor : Type 0 where
    pub browse : Bool
    pub rank : ranks.Rank
    pub shard : Text
    pub row_id : ℤ

  -- The text before its encoding.
  pub raw_cursor : SearchCursor → Text
  raw_cursor c =
      (if c.browse then codes "b" else codes "m")
      ++ (separator
          ∷ (ranks.format_float c.rank
              ++ (separator ∷ (c.shard ++ (separator ∷ format_int c.row_id)))))

  pub encode_cursor : SearchCursor → Text
  encode_cursor c = encode (raw_cursor c)

  pub read_parts : List Text → Option SearchCursor
  read_parts (mode ∷ rank ∷ shard ∷ row_id ∷ []) = do
    r ← ranks.parse_float rank
    i ← parse_int row_id
    some (record { browse = text_beq mode (codes "b"); rank = r; shard = shard; row_id = i })
  read_parts _ = none

  pub decode_cursor : Text → Option SearchCursor
  decode_cursor s = do raw ← decode s; read_parts (split_n raw 4)
