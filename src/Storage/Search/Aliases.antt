-- ===== src/Storage/Search/Aliases.antt =====
-- The shard of a hit is the alias of its day, which a cursor can carry.
use grepod.Prelude.{
  ℕ, true, false, List, [], ◌∷◌, map, keep, if◌then◌else◌, is_empty, All, All-append, All-map,
}
use grepod.Storage.Match.{sanitize_match_query}
use grepod.Storage.Dates.{alias-IsPlain}
use grepod.Storage.Ranks.{Ranks, IsPlain}
use grepod.Storage.Search.{select, raw_result, conditions, SearchOptions, Engine, union_all}

module _ (ranks : Ranks) (engine : Engine ranks) (opts : SearchOptions) where
  select-IsPlain : (date : ℕ) → All (λ r. All IsPlain r.key.shard) (select ranks engine opts date)
  unfolding select raw_result
  select-IsPlain date =
      elim (is_empty opts.query)
        as (λ b.
          All (λ r. All IsPlain r.key.shard)
            (if b
              then map (λ r. raw_result ranks date r ranks.zero_rank r.line)
                  (keep (conditions opts) (engine.rows date))
              else map (λ h. raw_result ranks date h.row h.bm25 h.snippet)
                  (keep (λ h. conditions opts h.row)
                    (engine.matches (sanitize_match_query opts.query) date)))) [
                      | true ↦ All-map _ _ _ (λ r. alias-IsPlain date)
                      | false ↦ All-map _ _ _ (λ h. alias-IsPlain date)
                    ]

  pub union_all-IsPlain :
      (dates : List ℕ) → All (λ r. All IsPlain r.key.shard) (union_all ranks engine opts dates)
  unfolding union_all
  union_all-IsPlain [] = tt
  union_all-IsPlain (date ∷ dates) =
      All-append (λ r. All IsPlain r.key.shard) (select ranks engine opts date) _
        (select-IsPlain date) (union_all-IsPlain dates)
