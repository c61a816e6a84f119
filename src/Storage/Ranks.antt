-- ===== src/Storage/Ranks.antt =====
-- The ranks of bm25, which are float64 in internal/storage/sqlite.go: what the code asks of them is
-- their order and the texts of strconv.FormatFloat (format 'x', precision -1) and ParseFloat.
pub mod Whole
use grepod.Prelude.{ℕ, ◌<◌, ◌≡◌, ◌≢◌, ◌⊎◌, Bool, true, false, Option, some, Text, All}

-- Characters that stand in a cursor's fields: ASCII, and not the separator.
abbrev pub IsPlain : ℕ → Type 0
IsPlain c = (c < 128) × (c ≢ b'|')

pub record Ranks : Type 1 where
  pub Rank : Type 0
  pub zero_rank : Rank
  pub rank_ltb : Rank → Rank → Bool
  pub format_float : Rank → Text
  pub parse_float : Text → Option Rank
  pub ltb_irrefl : (r : Rank) → rank_ltb r r ≡ false
  pub ltb_trans : (r s t : Rank) → rank_ltb r s ≡ true → rank_ltb s t ≡ true → rank_ltb r t ≡ true
  pub ltb_total : (r s : Rank) → (rank_ltb r s ≡ true) ⊎ ((r ≡ s) ⊎ (rank_ltb s r ≡ true))
  pub parse-format : (r : Rank) → parse_float (format_float r) ≡ some r
  pub format-IsPlain : (r : Rank) → All IsPlain (format_float r)
