-- ===== src/Storage/Search/Turn.antt =====
-- One page of a search: what it shows of the hits that are left, and where it leads.
use grepod.Prelude.{
  ℕ, suc, ◌+◌, ◌-◌, ◌<◌, ◌≤◌, ◌≡◌, ◌⊎◌, refl, sym, ap, ◌∙◌, subst, Bool, true, Option, some, List,
  [], ◌∷◌, ◌++◌, append_assoc, map, length, length-take, take, drop, keep, ltb, All, inl, inr,
  Bool-cases, lt→ltb, le→ltb, tests, arith,
}
use grepod.Prelude.Decimal.{IsInt64}
use grepod.Prelude.Sorting.{
  sort, nth, Sorted, NoTies, sort-Sorted, keep-sort, keep_after, nth-take, take-take, split_at,
}
use grepod.Storage.Ranks.{Ranks, IsPlain}
use grepod.Storage.Cursor.{SearchCursor, encode_cursor}
use grepod.Storage.Search.{SearchPage, RawResult, before, behind_cursor, cursor_behind, page_of}
use grepod.Storage.Search.Order.{key_before_irrefl, key_before_trans}

the_index : (k : ℕ) → suc k - 1 ≡ k
the_index k = omega arith

module _ (ranks : Ranks) (browse : Bool) where
  abbrev pub IsKeyed : RawResult ranks → Type 0
  IsKeyed r = All IsPlain r.key.shard × IsInt64 r.key.row_id

  abbrev pub cursor_at : RawResult ranks → SearchCursor ranks
  cursor_at r = record {
    browse = browse;
    rank = r.key.rank;
    shard = r.key.shard;
    row_id = r.key.row_id;
  }

  -- The hits behind a cursor, in order.
  abbrev pub rest_of : List (RawResult ranks) → Option (SearchCursor ranks) → List (RawResult ranks)
  rest_of hits cursor = sort (before ranks browse) (keep (behind_cursor ranks browse cursor) hits)

  hit_trans :
      (x y z : RawResult ranks)
      → before ranks browse x y ≡ true
      → before ranks browse y z ≡ true
      → before ranks browse x z ≡ true
  hit_trans x y z = key_before_trans ranks browse x.key y.key z.key

  rest_behind :
      (hits shown : List (RawResult ranks)) (c : RawResult ranks) (left : List (RawResult ranks))
      → NoTies (before ranks browse) hits
      → sort (before ranks browse) hits ≡ shown ++ (c ∷ left)
      → rest_of hits (some (cursor_at c)) ≡ left
  rest_behind hits shown c left d e =
      let sorted : Sorted (before ranks browse) (shown ++ (c ∷ left)) =
        subst (Sorted (before ranks browse)) e
          (sort-Sorted (before ranks browse) hit_trans hits d) in
      sym (keep-sort (before ranks browse) hit_trans (before ranks browse c) hits d)
      ∙ (ap (keep (before ranks browse c)) e
          ∙ keep_after (before ranks browse) hit_trans (λ x. key_before_irrefl ranks browse x.key)
              shown c left sorted)

  -- What a page shows of the hits that are left, and where it leads.
  pub record Turned (k : ℕ) (hits left : List (RawResult ranks)) (page : SearchPage ranks)
      : Type 0 where
    pub shown : page.results ≡ map (λ r. r.result) (take (suc k) left)
    pub turned :
        ((page.next_cursor ≡ []) × (length left ≤ suc k))
        ⊎ ((c : RawResult ranks) × (page.next_cursor ≡ encode_cursor ranks (cursor_at c))
            × (suc k < length left)
            × (rest_of hits (some (cursor_at c)) ≡ drop (suc k) left)
            × (seen : List (RawResult ranks)) × (sort (before ranks browse) hits
                ≡ seen ++ (c ∷ drop (suc k) left)))

  pub page_of-Turned :
      (k : ℕ) (hits done left : List (RawResult ranks))
      → NoTies (before ranks browse) hits
      → sort (before ranks browse) hits ≡ done ++ left
      → Turned k hits left (page_of ranks browse (suc k) (take (suc k + 1) left))
  unfolding page_of cursor_behind
  page_of-Turned k hits done left d e =
      let more : suc k + 1 ≡ suc (suc k) = omega arith in
      let around : (c : RawResult ranks)
          → left ≡ take k left ++ (c ∷ drop (suc k) left)
          → sort (before ranks browse) hits ≡ (done ++ take k left) ++ (c ∷ drop (suc k) left) =
        λ c w.
          e
          ∙ (ap (λ t. done ++ t) w
              ∙ sym (append_assoc done (take k left) (c ∷ drop (suc k) left))) in
      let size = length-take (suc (suc k)) left in
      elim (Bool-cases (ltb (suc k) (length left))) [
        | inr few ↦
            let fewer : length (take (suc (suc k)) left) ≤ suc k = omega (tests, size) in
            rw more (record {
              shown = ap (map (λ r. r.result)) (take-take (suc k) left);
              turned =
                  inl (
                    rw (le→ltb (suc k) (length (take (suc (suc k)) left)) fewer) refl,
                    omega tests,
                  );
            })
        | inl many ↦
            let longer : suc k < length (take (suc (suc k)) left) = omega (tests, size) in
            let (c, at, whole, part) = split_at k left (omega tests) in
            let found : nth (suc k - 1) (take (suc (suc k)) left) ≡ some c =
              rw (the_index k) (nth-take k (suc (suc k)) left (omega arith) ∙ at) in
            rw more (record {
              shown = ap (map (λ r. r.result)) (take-take (suc k) left);
              turned = inr (
                c,
                rw (lt→ltb (suc k) (length (take (suc (suc k)) left)) longer, found) refl,
                omega tests,
                rest_behind hits (done ++ take k left) c (drop (suc k) left) d (around c whole),
                done ++ take k left,
                around c whole,
              );
            })
      ]
