-- ===== src/Storage/Search/Paging.antt =====
-- The pages of a search that follows its cursors.
use grepod.Prelude.{
  ℕ, zero, suc, ◌+◌, ◌<◌, ◌≡◌, ◌≢◌, refl, sym, ap, ◌∙◌, subst, Bool, true, false, Option, none,
  some, List, [], ◌∷◌, ◌++◌, append_assoc, map, length, length-drop, take, drop, keep, take_all,
  take-append-drop, ltb, if◌then◌else◌, is_empty, All, All-zip, List-cases, keep-true,
  map-append_lem, inl, inr, Bool-cases, arith, ◌>>=◌, Text,
}
use grepod.Prelude.Int.{ℤ, pos, negsuc}
use grepod.Prelude.Decimal.{IsInt64}
use grepod.Prelude.Sorting.{sort, NoTies, length-sort, All-sort, All-at}
use grepod.Storage.Shards.{existing_shard_dates}
use grepod.Storage.Ranks.{Ranks, IsPlain}
use grepod.Storage.Cursor.{SearchCursor, encode_cursor, decode_cursor}
use grepod.Storage.Cursor.RoundTrip.{decode-encode_cursor, encode_cursor_nonempty}
use grepod.Storage.Search.{
  select, empty_page, SearchOptions, Engine, SearchResult, SearchPage, RawResult, page_limit,
  before, query, page_of, cursor_of, attached, union_all, search_shards, search,
}
use grepod.Storage.Search.Aliases.{union_all-IsPlain}
use grepod.Storage.Search.Turn.{IsKeyed, cursor_at, rest_of, Turned, page_of-Turned}

page_limit_pos : (n : ℤ) → (k : ℕ) × (page_limit n ≡ suc k)
page_limit_pos (pos zero) = (499, refl)
page_limit_pos (pos (suc n)) = elim (Bool-cases (ltb 500 (suc n))) [
  | inl e ↦ rw e (499, refl)
  | inr e ↦ rw e (n, refl)
]
page_limit_pos (negsuc n) = (499, refl)

cursor_of-some :
    (ranks : Ranks) (s : Text) (x : ℕ) (t : Text) {c : SearchCursor ranks}
    → s ≡ x ∷ t
    → decode_cursor ranks s ≡ some c
    → cursor_of ranks s ≡ some (some c)
cursor_of-some ranks [] x t e h = cc
cursor_of-some ranks (y ∷ s) x t e h = rw (h, cursor_of) refl

is_empty-false : (s : Text) (x : ℕ) (t : Text) → s ≡ x ∷ t → is_empty s ≡ false
is_empty-false [] x t e = cc
is_empty-false (y ∷ s) x t e = refl

module _ (ranks : Ranks) (engine : Engine ranks) (opts : SearchOptions) where
  abbrev pub hits : List (RawResult ranks)
  hits = union_all ranks engine opts (attached ranks engine opts)

  union_all-cursor :
      (s : Text) (dates : List ℕ)
      → union_all ranks engine (record opts { cursor = s }) dates
        ≡ union_all ranks engine opts dates
  unfolding union_all select
  union_all-cursor s [] = refl
  union_all-cursor s (date ∷ dates) = rw (union_all-cursor s dates) refl

  -- Pages of the request with the cursor `s`, and of the requests with the cursors that these return.
  unfoldable pub pages : ℕ → Text → Option (List (SearchResult ranks))
  pages zero s = some []
  pages (suc fuel) s = do
    page ← search ranks engine (record opts { cursor = s })
    if is_empty page.next_cursor
        then some page.results
        else (pages fuel page.next_cursor >>= (λ more. some (page.results ++ more)))

  module _
      (working : (engine.cancelled ≡ false) × (engine.opens ≡ true) × (engine.answers ≡ true)) where
    shards_page :
        (s : Text) (cursor : Option (SearchCursor ranks)) (dates : List ℕ)
        → attached ranks engine opts ≡ dates
        → dates ≢ []
        → search_shards ranks engine (record opts { cursor = s }) cursor
          ≡ some (
              page_of ranks (is_empty opts.query) (page_limit opts.limit) (
                query ranks
                  (is_empty opts.query)
                  cursor
                  (page_limit opts.limit)
                  (union_all ranks engine opts dates)))
    unfolding search_shards
    shards_page s cursor [] e some_date = absurd (some_date refl)
    shards_page s cursor (date ∷ dates) e some_date =
        simp (working.1, working.2, e, union_all-cursor s (date ∷ dates))

    search_dates :
        (s : Text) (cursor : Option (SearchCursor ranks)) (dates : List ℕ)
        → cursor_of ranks s ≡ some cursor
        → (existing_shard_dates engine.exists opts.start opts.end).0 ≡ dates
        → dates ≢ []
        → search ranks engine (record opts { cursor = s })
          ≡ search_shards ranks engine (record opts { cursor = s }) cursor
    unfolding search
    search_dates s cursor [] c e some_date = absurd (some_date refl)
    search_dates s cursor (date ∷ dates) c e some_date = simp (working.0, e, c)

    search_page :
        (s : Text) (cursor : Option (SearchCursor ranks))
        → cursor_of ranks s ≡ some cursor
        → attached ranks engine opts ≢ []
        → search ranks engine (record opts { cursor = s })
          ≡ some (
              page_of ranks
                (is_empty opts.query)
                (page_limit opts.limit)
                (query ranks (is_empty opts.query) cursor (page_limit opts.limit) hits))
    search_page s cursor c some_shard =
        search_dates s cursor _ c refl (λ e. some_shard (ap (keep engine.attaches) e))
        ∙ shards_page s cursor _ refl some_shard

    abbrev browse : Bool
    browse = is_empty opts.query

    abbrev results_of : List (RawResult ranks) → List (SearchResult ranks)
    results_of = map (λ r. r.result)

    cursor_of-encode :
        (c : RawResult ranks)
        → IsKeyed ranks browse c
        → cursor_of ranks (encode_cursor ranks (cursor_at ranks browse c))
          ≡ some (some (cursor_at ranks browse c))
    cursor_of-encode c keyed =
        let (x, t, shape) = encode_cursor_nonempty ranks (cursor_at ranks browse c) in
        cursor_of-some ranks _ x t shape
          (decode-encode_cursor ranks (cursor_at ranks browse c) keyed.0 keyed.1)

    -- What the requests behind a page return.
    abbrev Follows : ℕ → Type 0
    Follows fuel =
        (s : Text) (cursor : Option (SearchCursor ranks)) (done left : List (RawResult ranks))
        → cursor_of ranks s ≡ some cursor
        → rest_of ranks browse hits cursor ≡ left
        → sort (before ranks browse) hits ≡ done ++ left
        → length left < fuel
        → pages fuel s ≡ some (results_of left)

    turn_page :
        (fuel k : ℕ) (s : Text) (done left : List (RawResult ranks)) (page : SearchPage ranks)
        → All (IsKeyed ranks browse) hits
        → search ranks engine (record opts { cursor = s }) ≡ some page
        → Turned ranks browse k hits left page
        → sort (before ranks browse) hits ≡ done ++ left
        → length left < suc fuel
        → Follows fuel
        → pages (suc fuel) s ≡ some (results_of left)
    unfolding pages
    turn_page fuel k s done left page keyed found turned e enough rec = elim turned.turned [
      | inl (last, few) ↦
          rw (found, last) (ap some (turned.shown ∙ ap results_of (take_all (suc k) left few)))
      | inr (c, next, many, rest, seen, at) ↦
          let (x, t, shape) = encode_cursor_nonempty ranks (cursor_at ranks browse c) in
          let fewer : length (drop (suc k) left) < fuel = omega (arith, length-drop (suc k) left) in
          let later =
            rec (encode_cursor ranks (cursor_at ranks browse c)) (some (cursor_at ranks browse c))
              (done ++ take (suc k) left) (drop (suc k) left)
              (cursor_of-encode c (
                All-at (before ranks browse) (IsKeyed ranks browse) seen c (drop (suc k) left) (
                  subst (All (IsKeyed ranks browse)) at
                    (All-sort (before ranks browse) (IsKeyed ranks browse) hits keyed))))
              rest
              (e
                ∙ (ap (λ t. done ++ t) (sym (take-append-drop (suc k) left))
                    ∙ sym (append_assoc done (take (suc k) left) (drop (suc k) left))))
              fewer in
          rw (found, next, is_empty-false _ x t shape, later, turned.shown)
            (ap some (
              map-append_lem (λ r. r.result) (take (suc k) left) (drop (suc k) left)
              ∙ ap results_of (take-append-drop (suc k) left)))
    ]

    follows :
        (fuel : ℕ)
        → All (IsKeyed ranks browse) hits
        → NoTies (before ranks browse) hits
        → attached ranks engine opts ≢ []
        → Follows fuel
    follows zero keyed d some_shard s cursor done left c r e enough = absurd (omega arith)
    follows (suc fuel) keyed d some_shard s cursor done left c r e enough =
        let (k, limit) = page_limit_pos opts.limit in
        turn_page fuel k s done left (page_of ranks browse (suc k) (take (suc k + 1) left)) keyed
          (search_page s cursor c some_shard ∙ unfold query in rw (limit, r) refl)
          (page_of-Turned ranks browse k hits done left d e) e enough
          (follows fuel keyed d some_shard)

  shards_none :
      (engine.cancelled ≡ false) × (engine.opens ≡ true) × (engine.answers ≡ true)
      → attached ranks engine opts ≡ []
      → search_shards ranks engine (record opts { cursor = [] }) none ≡ some (empty_page ranks)
  unfolding search_shards
  shards_none working e = simp (working.1, e)

  search_none :
      (dates : List ℕ)
      → (engine.cancelled ≡ false) × (engine.opens ≡ true) × (engine.answers ≡ true)
      → (existing_shard_dates engine.exists opts.start opts.end).0 ≡ dates
      → attached ranks engine opts ≡ []
      → search ranks engine (record opts { cursor = [] }) ≡ some (empty_page ranks)
  unfolding search
  search_none [] working e none_attached = simp (working.0, e)
  search_none (date ∷ dates) working e none_attached =
      search_dates working [] none (date ∷ dates) refl e (λ q. cc)
      ∙ shards_none working none_attached

  no_shards :
      (engine.cancelled ≡ false) × (engine.opens ≡ true) × (engine.answers ≡ true)
      → attached ranks engine opts ≡ []
      → pages (suc (length hits)) []
        ≡ some (map (λ r. r.result) (sort (before ranks (is_empty opts.query)) hits))
  unfolding pages union_all sort
  no_shards working e = rw (search_none _ working refl e) (
      ap
        (λ dates. some (
          map (λ r. r.result)
            (sort (before ranks (is_empty opts.query)) (union_all ranks engine opts dates))))
        (sym e))

  -- Where no request is cancelled, SQLite answers, the shards do not change, the row ids are int64 and
  -- no two hits tie in the order: the request without a cursor, followed by one request for each
  -- cursor returned, ends after at most one request more than there are hits, and the pages together
  -- hold every hit of the attached shards once, in order.
  pub pages_lem :
      (engine.cancelled ≡ false) × (engine.opens ≡ true) × (engine.answers ≡ true)
      → All (λ r. IsInt64 r.key.row_id) hits
      → NoTies (before ranks (is_empty opts.query)) hits
      → pages (suc (length hits)) []
        ≡ some (map (λ r. r.result) (sort (before ranks (is_empty opts.query)) hits))
  pages_lem working bounded d = elim (List-cases (attached ranks engine opts)) [
    | inl none_attached ↦ no_shards working none_attached
    | inr some_shard ↦
        follows working (suc (length hits))
          (All-zip (λ r. All IsPlain r.key.shard) (λ r. IsInt64 r.key.row_id) hits
            (union_all-IsPlain ranks engine opts (attached ranks engine opts)) bounded)
          d some_shard [] none [] (sort (before ranks (is_empty opts.query)) hits) refl
          (ap (sort (before ranks (is_empty opts.query))) (keep-true hits)) refl
          (omega (arith, length-sort (before ranks (is_empty opts.query)) hits))
  ]
