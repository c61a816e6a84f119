-- ===== src/Api/Known/Tests.antt =====
-- The pick-lists of the search page.
use grepod.Prelude.{
  ℕ, ◌+◌, ◌*◌, ◌≡◌, refl, true, List, [], ◌∷◌, nat_beq, if◌then◌else◌, Text, codes, arith, inl,
  keep,
}
use grepod.Prelude.Decimal.{parse_int}
use grepod.Prelude.Sorting.{sort}
use grepod.Storage.Line.{Time}
use grepod.Storage.Shards.{day_length, existing_shard_dates}
use grepod.Storage.Shards.Range.{days_from}
use grepod.Storage.Known.{KnownFilters, Origin, KnownEngine, known_pods}
use grepod.Storage.Known.Listed.{FiltersOf, all_origins}
use grepod.Api.{write_json, write_json_error}
use grepod.Api.Known.{handle_known}
use grepod.Api.Known.Recent.{newest, handle_known_lem}

abbrev origins : ℕ → List Origin
origins date =
    if nat_beq date 4
    then (codes "web", codes "app") ∷ (codes "db", codes "app") ∷ (codes "web", codes "app") ∷ []
    else []

abbrev engine : KnownEngine
engine = record {
  exists = λ date. nat_beq date 4;
  opens = true;
  attaches = λ date. true;
  origins = origins;
  answers = true;
}

abbrev now : Time
now = 4 * day_length + 60

abbrev no_query : Text → Text
no_query name = []

handle_known_lem_example :
    let recent = newest (keep engine.exists (days_from 4 1)) in
    (filters : KnownFilters) × (handle_known engine [] now no_query ≡ write_json 200 filters)
    × FiltersOf (all_origins engine.origins (keep engine.attaches recent)) filters
handle_known_lem_example =
    handle_known_lem engine [] now no_query 0 refl refl (inl (refl, refl)) (omega arith)
      (omega arith)

known_answers :
    (handle_known engine [] now no_query
      ≡ write_json 200
          (record { pods = codes "db" ∷ codes "web" ∷ []; containers = codes "app" ∷ [] }))
    × (handle_known engine [] now (λ name. codes "0")
        ≡ write_json_error 400 (codes "invalid days, expected a positive integer"))
unfolding handle_known known_pods existing_shard_dates parse_int sort
known_answers = (refl, refl)
