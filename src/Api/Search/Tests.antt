-- ===== src/Api/Search/Tests.antt =====
-- Searches over HTTP, on one shard.
use grepod.Prelude.{
  ℕ, ◌+◌, ◌-◌, ◌*◌, ◌≡◌, refl, true, false, some, List, [], ◌∷◌, length, drop, keep, nat_beq,
  if◌then◌else◌, Text, codes, text_beq, arith,
}
use grepod.Prelude.Int.{pos}
use grepod.Metrics.{Metrics, new}
use grepod.Storage.Line.{Time}
use grepod.Storage.Shards.{day_length, max_attached_shards, existing_shard_dates}
use grepod.Storage.Shards.Range.{days_from}
use grepod.Storage.Dates.{format_date}
use grepod.Storage.Dates.Parse.{parse_date}
use grepod.Storage.Ranks.Whole.{whole_ranks}
use grepod.Storage.Search.{Engine, Row, search}
use grepod.Api.Search.{trim_space, read_dates, invalid, options_of, answer, handle_search}
use grepod.Api.Search.Window.{default_window_lem}
use grepod.Api.Search.Counts.{Call, serve, Counted, searches-Counted}

abbrev rows : ℕ → List Row
rows date =
    if nat_beq date 19
    then record {
      row_id = pos 1;
      pod = codes "web";
      namespace = codes "default";
      container = codes "app";
      timestamp = codes "0001-01-20T00:00:00Z";
      level = codes "INFO";
      line = codes "hello";
    }
      ∷ []
    else []

abbrev engine : Engine whole_ranks
engine = record {
  cancelled = false;
  exists = λ date. nat_beq date 19;
  opens = true;
  attaches = λ date. true;
  rows = rows;
  matches = λ query date. [];
  answers = true;
}

-- No parameter at all, at noon of the 21st day.
abbrev no_query : Text → Text
no_query name = []

abbrev now : Time
now = 20 * day_length + 43_200_000_000_000

-- A start that is no date.
abbrev bad_start : Text → Text
bad_start name = if text_beq name (codes "start") then codes "2024-02-30" else []

default_window_lem_example :
    let shards = keep engine.exists (days_from 14 7) in
    let opts = options_of (pos 14) (pos 20) no_query in
    (handle_search whole_ranks engine [] 3 (pos 7) now no_query (some new)
      ≡ answer whole_ranks [] 3
          (format_date 14)
          (format_date 20)
          no_query
          (some new)
          (search whole_ranks engine opts))
    × ((existing_shard_dates engine.exists opts.start opts.end).0
        ≡ drop (length shards - max_attached_shards) shards)
default_window_lem_example =
    default_window_lem whole_ranks engine [] 3 6 now no_query (some new) refl refl (omega arith)
      (omega arith)

abbrev call : (Text → Text) → Call whole_ranks
call get = record { engine = engine; reason = []; elapsed = 3; now = now; get = get }

searches-Counted_example :
    let served_all = serve whole_ranks (pos 7) (call no_query ∷ call bad_start ∷ []) (some new) in
    (m' : Metrics) × (served_all.1 ≡ some m') × Counted whole_ranks served_all.0 new m'
searches-Counted_example =
    searches-Counted whole_ranks (pos 7) (call no_query ∷ call bad_start ∷ []) new

dates_read :
    (read_dates (codes "2024-02-30") (codes "2024-03-01")
      ≡ invalid (codes "invalid start date, expected YYYY-MM-DD"))
    × (read_dates (codes "2024-03-02") (codes "2024-03-01")
        ≡ invalid (codes "end date must not be before start date"))
    × (trim_space (codes "  a b ") ≡ codes "a b")
unfolding read_dates parse_date trim_space
dates_read = (refl, refl, refl)
