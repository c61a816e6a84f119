-- ===== src/Storage/Search/Order.antt =====
-- The order of the hits is strict.
use grepod.Prelude.{
  ◌≡◌, Bool, true, false, text_beq_iff, text_ltb_irrefl, text_ltb_trans, inl, inr, arith,
}
use grepod.Prelude.Int.{int_ltb_irrefl, int_ltb_trans}
use grepod.Storage.Ranks.{Ranks}
use grepod.Storage.Search.{Key, key_before, same_rank}

module _ (ranks : Ranks) where
  -- Ranks that neither precede each other are the same.
  same_rank→≡ : (r s : ranks.Rank) → same_rank ranks r s ≡ true → r ≡ s
  same_rank→≡ r s h = elim (ranks.ltb_total r s) [
    | inl e ↦ absurd (ground (arith, e))
    | inr (inl e) ↦ e
    | inr (inr e) ↦ absurd (ground (arith, e))
  ]

  pub key_before_irrefl : (browse : Bool) (a : Key ranks) → key_before ranks browse a a ≡ false
  unfolding key_before
  key_before_irrefl true a = ground (arith, text_ltb_irrefl a.shard, int_ltb_irrefl a.row_id)
  key_before_irrefl false a =
      ground (arith, ranks.ltb_irrefl a.rank, text_ltb_irrefl a.shard, int_ltb_irrefl a.row_id)

  pub key_before_trans :
      (browse : Bool) (a b c : Key ranks)
      → key_before ranks browse a b ≡ true
      → key_before ranks browse b c ≡ true
      → key_before ranks browse a c ≡ true
  unfolding key_before
  key_before_trans true a b c h k = ground (
    arith,
    text_ltb_trans c.shard b.shard a.shard,
    int_ltb_trans c.row_id b.row_id a.row_id,
    (text_beq_iff b.shard a.shard).0,
    (text_beq_iff c.shard b.shard).0,
    (text_beq_iff c.shard a.shard).1,
  )
  key_before_trans false a b c h k = ground (
    arith,
    text_ltb_trans a.shard b.shard c.shard,
    int_ltb_trans a.row_id b.row_id c.row_id,
    (text_beq_iff a.shard b.shard).0,
    (text_beq_iff b.shard c.shard).0,
    (text_beq_iff a.shard c.shard).1,
    ranks.ltb_trans a.rank b.rank c.rank,
    same_rank→≡ a.rank b.rank,
    same_rank→≡ b.rank c.rank,
    ranks.ltb_irrefl a.rank,
  )
