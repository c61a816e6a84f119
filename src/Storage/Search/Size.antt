-- ===== src/Storage/Search/Size.antt =====
-- The size of a page.
use grepod.Prelude.{
  ℕ, ◌≤◌, ◌≡◌, inl, inr, none, some, List, [], ◌∷◌, length, map, take, length-take, arith,
  Bool-cases, Ensures, Option, is_empty, Bool, if◌then◌else◌,
}
use grepod.Prelude.Int.{ℤ}
use grepod.Storage.Ranks.{Ranks}
use grepod.Storage.Shards.{existing_shard_dates}
use grepod.Storage.Cursor.{SearchCursor}
use grepod.Storage.Search.{
  Engine, SearchOptions, SearchPage, RawResult, page_limit, page_of, query, union_all, attached,
  search_shards, search, cursor_of, empty_page,
}

page_limit-bound : (n : ℤ) → page_limit n ≤ 500
page_limit-bound n = ground arith

length-map {ℓ κ} :
    {A : Type ℓ} {B : Type κ} (f : A → B) (xs : List A) → length (map f xs) ≡ length xs
length-map f [] = omega arith
length-map f (x ∷ xs) = omega (arith, length-map f xs)

module _ (ranks : Ranks) where
  -- A page of so many results at most, where there is a page.
  abbrev pub Fits : ℕ → Option (SearchPage ranks) → Type 0
  Fits n o = Ensures (λ page. length page.results ≤ n) o

  page_of-Fits :
      (browse : Bool) (limit n : ℕ) (raw : List (RawResult ranks))
      → limit ≤ n
      → length (page_of ranks browse limit raw).results ≤ n
  unfolding page_of
  page_of-Fits browse limit n raw h =
      omega (arith, h, length-map (λ r. r.result) (take limit raw), length-take limit raw)

  search_shards-Fits :
      (engine : Engine ranks) (opts : SearchOptions) (cursor : Option (SearchCursor ranks))
      → Fits 500 (search_shards ranks engine opts cursor)
  unfolding search_shards
  search_shards-Fits engine opts cursor = elim (Bool-cases engine.opens) [
    | inl opens ↦ simp opens (over (attached ranks engine opts))
    | inr shut ↦ simp shut tt
  ]
    where
      over :
          (dates : List ℕ)
          → Fits 500 (elim dates [
            | [] ↦ some (empty_page ranks)
            | date ∷ rest ↦
                if engine.answers
                then some (
                    page_of ranks (is_empty opts.query) (page_limit opts.limit) (
                      query ranks
                        (is_empty opts.query)
                        cursor
                        (page_limit opts.limit)
                        (union_all ranks engine opts (date ∷ rest))))
                else none
          ])
      over [] = omega arith
      over (date ∷ rest) = elim (Bool-cases engine.answers) [
        | inl answers ↦ simp answers (page_of-Fits _ _ 500 _ (page_limit-bound opts.limit))
        | inr refuses ↦ simp refuses tt
      ]

  -- No page has more than 500 results.
  pub search-Fits :
      (engine : Engine ranks) (opts : SearchOptions) → Fits 500 (search ranks engine opts)
  unfolding search
  search-Fits engine opts = elim (Bool-cases engine.cancelled) [
    | inl ended ↦ simp ended tt
    | inr going ↦ simp going (
        over (existing_shard_dates engine.exists opts.start opts.end).0
          (cursor_of ranks opts.cursor))
  ]
    where
      over :
          (dates : List ℕ) (o : Option (Option (SearchCursor ranks)))
          → Fits 500 (elim dates [
            | [] ↦ some (empty_page ranks)
            | date ∷ rest ↦ elim o [
              | none ↦ none
              | some cursor ↦ search_shards ranks engine opts cursor
            ]
          ])
      over [] o = omega arith
      over (date ∷ rest) none = tt
      over (date ∷ rest) (some cursor) = search_shards-Fits engine opts cursor
