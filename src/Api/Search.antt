-- ===== src/Api/Search.antt =====
-- internal/api/handler.go: handleSearch. `engine` is what the store's file system and SQLite answer,
-- `reason` the text of an error, and `elapsed` how long the search took.
pub mod Window
pub mod Counts
mod Tests
use grepod.Prelude.{
  ℕ, ◌+◌, ◌-◌, ◌*◌, Bool, true, false, Option, none, some, List, [], ◌∷◌, ◌++◌, length,
  if◌then◌else◌, ◌&&◌, Text, codes, is_empty,
}
use grepod.Prelude.Int.{ℤ, pos, negsuc, magnitude, int_ltb}
use grepod.Metrics.{Metrics}
use grepod.Storage.Line.{Time}
use grepod.Storage.Match.{is_space}
use grepod.Storage.Shards.{day_length, day_of}
use grepod.Storage.Dates.Parse.{parse_date}
use grepod.Storage.Dates.Days.{days_before, format_day}
use grepod.Storage.Ranks.{Ranks}
use grepod.Storage.Search.{Engine, SearchOptions, SearchResult, SearchPage, search}
use grepod.Api.{Response, write_json, write_json_error}

-- strings.TrimSpace.
abbrev trim_left : Text → Text
trim_left [] = []
trim_left (c ∷ s) = let rest = trim_left s in if is_space c then rest else c ∷ s

abbrev trim_right : Text → Text
trim_right [] = []
trim_right (c ∷ s) = let rest = trim_right s in if is_empty rest && is_space c then [] else c ∷ rest

unfoldable pub trim_space : Text → Text
unfolding is_space
trim_space s = trim_right (trim_left s)

-- A parameter, or what it is by default.
abbrev pub or_text : Text → Text → Text
or_text s default = if is_empty s then default else s

-- The times of the two dates. No shard is older than January 1 of year 1, so that an earlier start is
-- that day, and a window that ends earlier is empty.
abbrev pub window : ℤ → ℤ → Time × Time
window start (negsuc n) = (day_length, 0)
window (pos start) (pos end) = (start * day_length, end * day_length)
window (negsuc n) (pos end) = (0, end * day_length)

-- With nil metrics nothing is counted.
unfoldable pub count_search : ℕ → Option Metrics → Option Metrics
count_search elapsed none = none
count_search elapsed (some m) = some (record m {
  search_requests_total = m.search_requests_total + 1;
  search_duration = elapsed ∷ m.search_duration;
})

unfoldable pub count_search_error : Option Metrics → Option Metrics
count_search_error none = none
count_search_error (some m) = some (record m { search_errors_total = m.search_errors_total + 1 })

-- The texts of the window: the dates of the request, or the days up to today.
unfoldable pub start_text : ℤ → Time → (Text → Text) → Text
start_text days now get =
    or_text (get (codes "start")) (format_day (days_before (day_of now) (magnitude days - 1)))

unfoldable pub end_text : Time → (Text → Text) → Text
end_text now get = or_text (get (codes "end")) (format_day (pos (day_of now)))

-- The dates of the window, or why there are none.
pub data DateRange : Type 0 where
  invalid : Text → DateRange
  valid : ℤ → ℤ → DateRange

unfoldable pub read_dates : Text → Text → DateRange
read_dates start_str end_str = elim (parse_date start_str) [
  | none ↦ invalid (codes "invalid start date, expected YYYY-MM-DD")
  | some start ↦ elim (parse_date end_str) [
    | none ↦ invalid (codes "invalid end date, expected YYYY-MM-DD")
    | some end ↦
        if int_ltb end start
        then invalid (codes "end date must not be before start date")
        else valid start end
  ]
]

abbrev pub options_of : ℤ → ℤ → (Text → Text) → SearchOptions
options_of start end get = record {
  query = trim_space (get (codes "q"));
  start = (window start end).0;
  end = (window start end).1;
  limit = pos 500;
  cursor = get (codes "cursor");
  min_level = get (codes "level");
  pod = get (codes "pod");
}

module _ (ranks : Ranks) where
  pub record SearchResponse : Type 0 where
    pub query : Text
    pub start : Text
    pub end : Text
    pub level : Text
    pub pod : Text
    pub count : ℕ
    pub results : List (SearchResult ranks)
    pub next_cursor : Text

  abbrev pub response_of : Text → Text → (Text → Text) → SearchPage ranks → SearchResponse
  response_of start_str end_str get page = record {
    query = trim_space (get (codes "q"));
    start = start_str;
    end = end_str;
    level = get (codes "level");
    pod = get (codes "pod");
    count = length page.results;
    results = page.results;
    next_cursor = page.next_cursor;
  }

  -- What is behind the call of Search.
  unfoldable pub answer :
      Text
      → ℕ
      → Text
      → Text
      → (Text → Text)
      → Option Metrics
      → Option (SearchPage ranks)
      → Response SearchResponse × Option Metrics
  unfolding count_search count_search_error
  answer reason elapsed start_str end_str get metrics none = (
    write_json_error 500 (codes "search failed: " ++ reason),
    count_search_error (count_search elapsed metrics),
  )
  answer reason elapsed start_str end_str get metrics (some page) =
      (write_json 200 (response_of start_str end_str get page), count_search elapsed metrics)

  -- What is behind the reading of the dates.
  unfoldable pub search_range :
      Engine ranks
      → Text
      → ℕ
      → Text
      → Text
      → (Text → Text)
      → Option Metrics
      → DateRange
      → Response SearchResponse × Option Metrics
  unfolding answer
  search_range engine reason elapsed start_str end_str get metrics (invalid msg) =
      (write_json_error 400 msg, metrics)
  search_range engine reason elapsed start_str end_str get metrics (valid start end) =
      answer reason elapsed start_str end_str get metrics
        (search ranks engine (options_of start end get))

  unfoldable pub handle_search :
      Engine ranks
      → Text
      → ℕ
      → ℤ
      → Time
      → (Text → Text)
      → Option Metrics
      → Response SearchResponse × Option Metrics
  unfolding search_range
  handle_search engine reason elapsed default_search_days now get metrics =
      let start_str = start_text default_search_days now get in
      let end_str = end_text now get in
      search_range engine reason elapsed start_str end_str get metrics
        (read_dates start_str end_str)
