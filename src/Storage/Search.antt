-- ===== src/Storage/Search.antt =====
-- internal/storage/sqlite.go: Search, over the daily shards.
-- The SQL that Search builds is read as its meaning: the SELECT of each attached shard with its
-- WHERE conditions, UNION ALL, the condition of the cursor, ORDER BY and LIMIT. What SQLite and the
-- file system answer is a parameter: which files there are and can be attached, the rows of a
-- shard, and, for a MATCH, the rows that match with bm25() and snippet() of each. Every error is none.
pub mod Order
mod Aliases
pub mod Turn
pub mod Paging
pub mod Size
mod Tests
use grepod.Prelude.{
  ℕ, suc, ◌+◌, ◌-◌, Bool, true, false, Option, none, some, List, [], ◌∷◌, ◌++◌, length, take, keep,
  map, ltb, if◌then◌else◌, not, ◌&&◌, ◌||◌, Text, text_beq, text_ltb, is_empty,
}
use grepod.Prelude.Int.{ℤ, int_ltb, is_positive, magnitude}
use grepod.Prelude.Sorting.{sort, nth}
use grepod.Storage.Line.{Time}
use grepod.Storage.Level.{levels_at_or_above}
use grepod.Storage.Snippet.{escape_snippet}
use grepod.Storage.Match.{sanitize_match_query}
use grepod.Storage.Shards.{existing_shard_dates}
use grepod.Storage.Dates.{alias}
use grepod.Storage.Ranks.{Ranks}
use grepod.Storage.Cursor.{SearchCursor, encode_cursor, decode_cursor}

pub record Row : Type 0 where
  pub row_id : ℤ
  pub pod : Text
  pub namespace : Text
  pub container : Text
  pub timestamp : Text
  pub level : Text
  pub line : Text

pub record SearchOptions : Type 0 where
  pub query : Text
  pub start : Time
  pub end : Time
  pub limit : ℤ
  pub cursor : Text
  pub min_level : Text
  pub pod : Text

-- `limit <= 0 || limit > 500` stands for 500.
abbrev pub page_limit : ℤ → ℕ
page_limit n = if not (is_positive n) || ltb 500 (magnitude n) then 500 else magnitude n

abbrev pub is_among : List Text → Text → Bool
is_among [] level = false
is_among (l ∷ ls) level = text_beq l level || is_among ls level

-- `level IN (...)`, where levels are filtered.
abbrev pub level_condition : Option (List Text) → Row → Bool
level_condition none r = true
level_condition (some levels) r = is_among levels r.level

-- `pod = ?`, where a pod is given.
abbrev pub pod_condition : Text → Row → Bool
pod_condition pod r = if is_empty pod then true else text_beq r.pod pod

abbrev pub conditions : SearchOptions → Row → Bool
conditions opts r =
    level_condition (levels_at_or_above opts.min_level) r && pod_condition opts.pod r

module _ (ranks : Ranks) where
  -- A row that matches, with its bm25() and its snippet().
  pub record Match : Type 0 where
    pub row : Row
    pub bm25 : ranks.Rank
    pub snippet : Text

  pub record Engine : Type 0 where
    pub cancelled : Bool
    pub exists : ℕ → Bool
    pub opens : Bool
    pub attaches : ℕ → Bool
    pub rows : ℕ → List Row
    pub matches : Text → ℕ → List Match
    pub answers : Bool

  pub record SearchResult : Type 0 where
    pub pod : Text
    pub namespace : Text
    pub container : Text
    pub timestamp : Text
    pub level : Text
    pub snippet : Text
    pub rank : ranks.Rank

  -- What a hit is sorted by.
  pub record Key : Type 0 where
    pub rank : ranks.Rank
    pub shard : Text
    pub row_id : ℤ

  pub record RawResult : Type 0 where
    pub result : SearchResult
    pub key : Key

  pub record SearchPage : Type 0 where
    pub results : List SearchResult
    pub next_cursor : Text

  abbrev pub empty_page : SearchPage
  empty_page = record { results = []; next_cursor = [] }

  pub raw_result : ℕ → Row → ranks.Rank → Text → RawResult
  raw_result date r rank snippet = record {
    result = record {
      pod = r.pod;
      namespace = r.namespace;
      container = r.container;
      timestamp = r.timestamp;
      level = r.level;
      snippet = escape_snippet snippet;
      rank = rank;
    };
    key = record { rank = rank; shard = alias date; row_id = r.row_id };
  }

  -- The SELECT of one shard.
  pub select : Engine → SearchOptions → ℕ → List RawResult
  unfolding raw_result
  select engine opts date =
      if is_empty opts.query
      then map (λ r. raw_result date r ranks.zero_rank r.line)
          (keep (conditions opts) (engine.rows date))
      else map (λ h. raw_result date h.row h.bm25 h.snippet)
          (keep (λ h. conditions opts h.row)
            (engine.matches (sanitize_match_query opts.query) date))

  pub union_all : Engine → SearchOptions → List ℕ → List RawResult
  union_all engine opts [] = []
  union_all engine opts (date ∷ dates) = select engine opts date ++ union_all engine opts dates

  abbrev pub same_rank : ranks.Rank → ranks.Rank → Bool
  same_rank r s = not (ranks.rank_ltb r s) && not (ranks.rank_ltb s r)

  -- The order of the hits, and the condition of a cursor: in browse mode `shard DESC, local_rowid
  -- DESC`, else `rank ASC, shard ASC, local_rowid ASC`.
  unfoldable pub key_before : Bool → Key → Key → Bool
  key_before true a b =
      text_ltb b.shard a.shard || (text_beq b.shard a.shard && int_ltb b.row_id a.row_id)
  key_before false a b =
      ranks.rank_ltb a.rank b.rank
      || (same_rank a.rank b.rank
          && (text_ltb a.shard b.shard || (text_beq a.shard b.shard && int_ltb a.row_id b.row_id)))

  abbrev pub before : Bool → RawResult → RawResult → Bool
  before browse a b = key_before browse a.key b.key

  abbrev pub behind_cursor : Bool → Option (SearchCursor ranks) → RawResult → Bool
  behind_cursor browse none r = true
  behind_cursor browse (some c) r =
      key_before browse (record { rank = c.rank; shard = c.shard; row_id = c.row_id }) r.key

  -- One row more than the limit tells whether there is a next page.
  pub query : Bool → Option (SearchCursor ranks) → ℕ → List RawResult → List RawResult
  query browse cursor limit hits =
      take (limit + 1) (sort (before browse) (keep (behind_cursor browse cursor) hits))

  pub cursor_behind : Bool → Option RawResult → Text
  cursor_behind browse none = []
  cursor_behind browse (some last) = encode_cursor ranks (record {
    browse = browse;
    rank = last.key.rank;
    shard = last.key.shard;
    row_id = last.key.row_id;
  })

  pub page_of : Bool → ℕ → List RawResult → SearchPage
  page_of browse limit raw = record {
    results = map (λ r. r.result) (take limit raw);
    next_cursor = if ltb limit (length raw) then cursor_behind browse (nth (limit - 1) raw) else [];
  }

  -- The cursor of a request: none is an error, and `some none` that there is no cursor.
  abbrev pub cursor_of : Text → Option (Option (SearchCursor ranks))
  cursor_of [] = some none
  cursor_of (c ∷ s) = elim (decode_cursor ranks (c ∷ s)) [
    | none ↦ none
    | some cursor ↦ some (some cursor)
  ]

  abbrev pub attached : Engine → SearchOptions → List ℕ
  attached engine opts =
      keep engine.attaches (existing_shard_dates engine.exists opts.start opts.end).0

  pub search_shards : Engine → SearchOptions → Option (SearchCursor ranks) → Option SearchPage
  search_shards engine opts cursor =
      let browse = is_empty opts.query in
      let limit = page_limit opts.limit in
      if not engine.opens then none else elim (attached engine opts) [
        | [] ↦ some empty_page
        | date ∷ dates ↦
            if engine.answers
            then some (
                page_of browse limit
                  (query browse cursor limit (union_all engine opts (date ∷ dates))))
            else none
      ]

  pub search : Engine → SearchOptions → Option SearchPage
  search engine opts =
      if engine.cancelled
      then none
      else elim (existing_shard_dates engine.exists opts.start opts.end).0 [
        | [] ↦ some empty_page
        | date ∷ dates ↦ elim (cursor_of opts.cursor) [
          | none ↦ none
          | some cursor ↦ search_shards engine opts cursor
        ]
      ]
