-- ===== src/Storage/Search/Tests.antt =====
-- A search over two shards, a page at a time.
use grepod.Prelude.{
  ℕ, suc, ◌*◌, if◌then◌else◌, nat_beq, ◌≡◌, refl, true, false, inr, some, List, [], ◌∷◌, Text,
  codes, All, map, length, arith,
}
use grepod.Prelude.Int.{pos}
use grepod.Prelude.Decimal.{IsInt64}
use grepod.Prelude.Sorting.{sort, NoTies}
use grepod.Storage.Shards.{day_length, shard_dates, existing_shard_dates}
use grepod.Storage.Dates.{alias}
use grepod.Storage.Ranks.Whole.{whole_ranks}
use grepod.Storage.Cursor.{SearchCursor, encode_cursor, decode_cursor}
use grepod.Storage.Cursor.RoundTrip.{decode-encode_cursor}
use grepod.Storage.Level.{levels_at_or_above, severity_of}
use grepod.Storage.Search.{
  Row, Engine, SearchOptions, before, key_before, union_all, select, raw_result,
}
use grepod.Storage.Search.Paging.{hits, pages, pages_lem}

abbrev cursor : SearchCursor whole_ranks
cursor = record { browse = true; rank = 0; shard = codes "d20240301"; row_id = pos 7 }

decode-encode_cursor_example :
    decode_cursor whole_ranks (encode_cursor whole_ranks cursor) ≡ some cursor
decode-encode_cursor_example = decode-encode_cursor whole_ranks cursor (ground arith) (omega arith)

abbrev row : ℕ → Text → Row
row id line = record {
  row_id = pos id;
  pod = codes "web";
  namespace = codes "default";
  container = codes "app";
  timestamp = codes "2024-03-01T00:00:00Z";
  level = codes "INFO";
  line = line;
}

-- Two days with a shard each, of two rows and one.
abbrev shard_rows : ℕ → List Row
shard_rows date =
    if nat_beq date 5 then row 1 (codes "a") ∷ row 2 (codes "b") ∷ [] else row 1 (codes "c") ∷ []

abbrev engine : Engine whole_ranks
engine = record {
  cancelled = false;
  exists = λ date. true;
  opens = true;
  attaches = λ date. true;
  rows = shard_rows;
  matches = λ query date. [];
  answers = true;
}

abbrev options : SearchOptions
options = record {
  query = [];
  start = 5 * day_length;
  end = 6 * day_length;
  limit = pos 2;
  cursor = [];
  min_level = codes "ALL";
  pod = [];
}

hits_row_ids : All (λ r. IsInt64 r.key.row_id) (hits whole_ranks engine options)
unfolding union_all select raw_result existing_shard_dates shard_dates levels_at_or_above
    severity_of
hits_row_ids = (omega arith, (omega arith, (omega arith, tt)))

hits-NoTies : NoTies (before whole_ranks true) (hits whole_ranks engine options)
unfolding union_all select raw_result existing_shard_dates shard_dates levels_at_or_above
    severity_of key_before alias
hits-NoTies = ((inr refl, (inr refl, tt)), ((inr refl, tt), (tt, tt)))

pages_lem_example :
    pages whole_ranks engine options (suc (length (hits whole_ranks engine options))) []
    ≡ some (map (λ r. r.result) (sort (before whole_ranks true) (hits whole_ranks engine options)))
pages_lem_example = pages_lem whole_ranks engine options (refl, refl, refl) hits_row_ids hits-NoTies
