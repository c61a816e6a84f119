-- ===== src/Storage/Ranks/Whole.antt =====
-- Natural numbers as ranks: what is asked of float64 can hold.
use grepod.Prelude.{ℕ, ◌≡◌, ◌⊎◌, true, false, All, All-weaken, ltb, arith}
use grepod.Prelude.Decimal.{format_nat, parse_nat, parse_nat-format, format_nat-IsNumeral}
use grepod.Storage.Ranks.{Ranks, IsPlain}

pub whole_ltb_total : (r s : ℕ) → (ltb r s ≡ true) ⊎ ((r ≡ s) ⊎ (ltb s r ≡ true))
whole_ltb_total r s = ground arith

pub whole_ltb_trans : (r s t : ℕ) → ltb r s ≡ true → ltb s t ≡ true → ltb r t ≡ true
whole_ltb_trans r s t h k = ground arith

pub whole_ltb_irrefl : (r : ℕ) → ltb r r ≡ false
whole_ltb_irrefl r = ground arith

pub whole-IsPlain : (r : ℕ) → All IsPlain (format_nat r)
whole-IsPlain r =
    All-weaken (λ c h. (omega (arith, h.1), λ e. omega (arith, h.1))) _ (format_nat-IsNumeral r)

abbrev pub whole_ranks : Ranks
whole_ranks = record {
  Rank = ℕ;
  zero_rank = 0;
  rank_ltb = ltb;
  format_float = format_nat;
  parse_float = parse_nat;
  ltb_irrefl = whole_ltb_irrefl;
  ltb_trans = whole_ltb_trans;
  ltb_total = whole_ltb_total;
  parse-format = parse_nat-format;
  format-IsPlain = whole-IsPlain;
}
