-- ===== src/Storage/Cursor/RoundTrip.antt =====
-- What a cursor carries comes back from its text.
use grepod.Prelude.{
  ℕ, ◌-◌, ◌<◌, ◌≡◌, refl, Bool, true, false, some, [], ◌∷◌, ◌++◌, append_assoc, append-nil,
  if◌then◌else◌, Text, codes, All, All-append, All-weaken, arith,
}
use grepod.Prelude.Int.{ℤ}
use grepod.Prelude.Decimal.{format_int, IsInt64, parse_int-format_int, format_int-IsNumeral}
use grepod.Prelude.Base64.{encode, decode-encode}
use grepod.Storage.Ranks.{Ranks, IsPlain}
use grepod.Storage.Cursor.{
  separator, split_from, split_n, SearchCursor, raw_cursor, encode_cursor, read_parts,
  decode_cursor,
}

-- A part without the separator is split off, unless it is the last one.
split_from-part :
    (n : ℕ) (part p s : Text)
    → 1 < n
    → All IsPlain p
    → split_from n part (p ++ (separator ∷ s)) ≡ (part ++ p) ∷ split_from (n - 1) [] s
unfolding split_from
split_from-part n part [] s h plain = ground (arith, append-nil part)
split_from-part n part (c ∷ p) s h plain =
    ground (arith, split_from-part n (part ++ c ∷ []) p s h plain.1, append_assoc part (c ∷ []) p)

split_from-last : (part s : Text) → split_from 1 part s ≡ (part ++ s) ∷ []
unfolding split_from
split_from-last part [] = rw (append-nil part) refl
split_from-last part (c ∷ s) = refl

split_n-parts :
    (mode rank shard row_id : Text)
    → All IsPlain mode
    → All IsPlain rank
    → All IsPlain shard
    → split_n (mode ++ (separator ∷ (rank ++ (separator ∷ (shard ++ (separator ∷ row_id)))))) 4
      ≡ mode ∷ rank ∷ shard ∷ row_id ∷ []
unfolding split_n
split_n-parts mode rank shard row_id hm hr hs =
    rw
      (
        split_from-part 4 [] mode (rank ++ (separator ∷ (shard ++ (separator ∷ row_id))))
            (omega arith) hm,
        split_from-part 3 [] rank (shard ++ (separator ∷ row_id)) (omega arith) hr,
        split_from-part 2 [] shard row_id (omega arith) hs,
        split_from-last [] row_id,
      )
      refl

abbrev IsByte : ℕ → Type 0
IsByte c = c < 256

plain_bytes : (s : Text) → All IsPlain s → All IsByte s
plain_bytes = All-weaken (λ c h. omega (arith, h.0))

mode-IsPlain : (b : Bool) → All IsPlain (if b then codes "b" else codes "m")
mode-IsPlain true = ((omega arith, λ e. omega arith), tt)
mode-IsPlain false = ((omega arith, λ e. omega arith), tt)

encode_nonempty : (a b : ℕ) (s : Text) → (x : ℕ) × (t : Text) × (encode (a ∷ b ∷ s) ≡ x ∷ t)
unfolding encode
encode_nonempty a b [] = (_, _, refl)
encode_nonempty a b (c ∷ s) = (_, _, refl)

module _ (ranks : Ranks) where
  raw_cursor_bytes :
      (c : SearchCursor ranks) → All IsPlain c.shard → All IsByte (raw_cursor ranks c)
  unfolding raw_cursor
  raw_cursor_bytes c plain =
      let row_id : All IsByte (format_int c.row_id) =
        All-weaken (λ d h. omega (arith, h.1)) _ (format_int-IsNumeral c.row_id) in
      let shard : All IsByte (c.shard ++ (separator ∷ format_int c.row_id)) =
        All-append IsByte c.shard _ (plain_bytes c.shard plain) (omega arith, row_id) in
      let rank : All IsByte (
          ranks.format_float c.rank
          ++ (separator ∷ (c.shard ++ (separator ∷ format_int c.row_id)))) =
        All-append IsByte _ _ (plain_bytes _ (ranks.format-IsPlain c.rank)) (omega arith, shard) in
      All-append IsByte _ _ (plain_bytes _ (mode-IsPlain c.browse)) (omega arith, rank)

  read_back :
      (b : Bool) (rank : ranks.Rank) (shard : Text) (row_id : ℤ)
      → IsInt64 row_id
      → read_parts ranks (
          (if b then codes "b" else codes "m")
          ∷ ranks.format_float rank
          ∷ shard
          ∷ format_int row_id
          ∷ [])
        ≡ some (record { browse = b; rank = rank; shard = shard; row_id = row_id })
  unfolding read_parts
  read_back true rank shard row_id h =
      rw (ranks.parse-format rank, parse_int-format_int row_id h) refl
  read_back false rank shard row_id h =
      rw (ranks.parse-format rank, parse_int-format_int row_id h) refl

  -- The cursor of a row reads back as it was, where the shard's alias is plain ASCII without the
  -- separator and the row id an int64.
  pub decode-encode_cursor :
      (c : SearchCursor ranks)
      → All IsPlain c.shard
      → IsInt64 c.row_id
      → decode_cursor ranks (encode_cursor ranks c) ≡ some c
  unfolding decode_cursor encode_cursor
  decode-encode_cursor c plain bound =
      rw (decode-encode (raw_cursor ranks c) (raw_cursor_bytes c plain)) (
        unfold raw_cursor in
        rw
          (split_n-parts (if c.browse then codes "b" else codes "m") (ranks.format_float c.rank)
            c.shard (format_int c.row_id) (mode-IsPlain c.browse) (ranks.format-IsPlain c.rank)
            plain)
          (read_back c.browse c.rank c.shard c.row_id bound))

  -- No cursor is the empty text, which stands for none.
  pub encode_cursor_nonempty :
      (c : SearchCursor ranks) → (x : ℕ) × (s : Text) × (encode_cursor ranks c ≡ x ∷ s)
  unfolding encode_cursor raw_cursor
  encode_cursor_nonempty c =
      elim c.browse
        as (λ b.
          (x : ℕ) × (s : Text) × (encode (
              (if b then codes "b" else codes "m")
              ++ (separator
                  ∷ (ranks.format_float c.rank
                      ++ (separator ∷ (c.shard ++ (separator ∷ format_int c.row_id))))))
            ≡ x ∷ s)) [ true ↦ encode_nonempty _ _ _ | false ↦ encode_nonempty _ _ _ ]
