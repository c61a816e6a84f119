-- ===== src/Storage/Known.antt =====
-- internal/storage/sqlite.go: KnownPods. The statement that it builds is read as its meaning: of the
-- attached shards the distinct pairs of a pod and a container. What SQLite and the file system answer
-- is a parameter, and every error is none.
mod Members
pub mod Listed
use grepod.Prelude.{
  ℕ, ◌≡◌, Bool, true, false, Option, none, some, List, [], ◌∷◌, ◌++◌, map, keep, not, ◌&&◌, ◌||◌,
  if◌then◌else◌, Text, text_beq, text_ltb,
}
use grepod.Prelude.Sorting.{sort}
use grepod.Storage.Line.{Time}
use grepod.Storage.Shards.{existing_shard_dates}
use grepod.Storage.Search.{is_among}

pub record KnownFilters : Type 0 where
  pub pods : List Text
  pub containers : List Text

-- The pod and the container of a row.
abbrev pub Origin : Type 0
Origin = Text × Text

pub record KnownEngine : Type 0 where
  pub exists : ℕ → Bool
  pub opens : Bool
  pub attaches : ℕ → Bool
  pub origins : ℕ → List Origin
  pub answers : Bool

abbrev pub origin_among : List Origin → Origin → Bool
origin_among [] o = false
origin_among (p ∷ ps) o = (text_beq p.0 o.0 && text_beq p.1 o.1) || origin_among ps o

-- SELECT DISTINCT of each shard, and UNION.
abbrev pub distinct : List Origin → List Origin
distinct [] = []
distinct (o ∷ os) = let rest = distinct os in if origin_among rest o then rest else o ∷ rest

abbrev pub union : (ℕ → List Origin) → List ℕ → List Origin
union origins [] = []
union origins (date ∷ dates) = distinct (origins date ++ union origins dates)

-- The keys of a map in which each of the texts is set.
abbrev pub key_set : List Text → List Text
key_set [] = []
key_set (t ∷ ts) = let rest = key_set ts in if is_among rest t then rest else t ∷ rest

unfoldable pub sorted_keys : List Text → List Text
sorted_keys ts = sort text_ltb (key_set ts)

abbrev pub no_filters : KnownFilters
no_filters = record { pods = []; containers = [] }

unfoldable pub filters_of : List Origin → KnownFilters
unfolding sorted_keys
filters_of rows = record {
  pods = sorted_keys (map (λ o. o.0) rows);
  containers = sorted_keys (map (λ o. o.1) rows);
}

-- The statement over the attached shards.
unfoldable pub query_known : KnownEngine → List ℕ → Option KnownFilters
unfolding filters_of
query_known engine [] = some no_filters
query_known engine (date ∷ dates) =
    if engine.answers then some (filters_of (union engine.origins (date ∷ dates))) else none

-- From the dates that have a shard.
unfoldable pub known_of : KnownEngine → List ℕ → Option KnownFilters
unfolding query_known
known_of engine [] = some no_filters
known_of engine (date ∷ dates) =
    if engine.opens then query_known engine (keep engine.attaches (date ∷ dates)) else none

unfoldable pub known_pods : KnownEngine → Time → Time → Option KnownFilters
unfolding known_of
known_pods engine since today = known_of engine (existing_shard_dates engine.exists since today).0
