-- ===== src/Storage/Tests.antt =====
-- Levels, snippets, queries and shard ranges of internal/storage/sqlite.go on concrete inputs.
use grepod.Prelude.{
  ℕ, ◌+◌, ◌-◌, ◌*◌, ◌≤◌, ◌≡◌, ◌↔◌, ◌⊎◌, refl, Bool, true, none, some, List, ◌∷◌, ◌++◌, Text, codes,
  All, length, drop, keep, ltb, nat_beq, not, to_upper, arith,
}
use grepod.Storage.Level.{severity_of, levels_at_or_above}
use grepod.Storage.Level.Laws.{levels_select, member}
use grepod.Storage.Snippet.{escape_snippet}
use grepod.Storage.Snippet.Safe.{read_html, pieces_of, read-escape_snippet}
use grepod.Storage.Match.{sanitize_match_query}
use grepod.Storage.Match.Phrases.{read_phrases, IsField, flat, no_spaces, read-sanitize}
use grepod.Storage.Shards.{day_length, day_of, max_attached_shards, existing_shard_dates}
use grepod.Storage.Shards.Range.{days_from, existing_shard_dates_lem}

error_rank : severity_of (codes "error") ≡ some 1
unfolding severity_of
error_rank = refl

levels_select_example :
    ((levels_at_or_above (codes "WARN") ≡ none) × (severity_of (codes "WARN") ≡ none))
    ⊎ ((levels : List Text) × (idx : ℕ) × (levels_at_or_above (codes "WARN") ≡ some levels)
        × (severity_of (codes "WARN") ≡ some idx)
        × ((member (to_upper (codes "error")) levels ≡ true) ↔ (1 ≤ idx)))
levels_select_example = levels_select (codes "WARN") (codes "error") 1 error_rank

-- A hit that is marked up as a script.
abbrev hostile : Text
hostile = codes "<script>" ++ 1 ∷ codes "hit" ++ 2 ∷ codes "&amp;"

read-escape_snippet_example : read_html (escape_snippet hostile) ≡ some (pieces_of hostile)
read-escape_snippet_example = read-escape_snippet hostile

read-sanitize_example :
    (phrases : List Text) × (read_phrases (sanitize_match_query (codes "a-b OR \"c"))
      ≡ some phrases)
    × All IsField phrases
    × (flat phrases ≡ no_spaces (codes "a-b OR \"c"))
read-sanitize_example = read-sanitize (codes "a-b OR \"c")

-- Every day but one has a shard.
abbrev there : ℕ → Bool
there d = not (nat_beq d 739_002)

existing_shard_dates_lem_example :
    let shards = keep there (days_from 739_000 (day_of (739_013 * day_length) + 1 - 739_000)) in
    ((existing_shard_dates there (739_000 * day_length) (739_013 * day_length)).0
      ≡ drop (length shards - max_attached_shards) shards)
    × ((existing_shard_dates there (739_000 * day_length) (739_013 * day_length)).1
        ≡ ltb max_attached_shards (length shards))
    × (length (existing_shard_dates there (739_000 * day_length) (739_013 * day_length)).0
        ≤ max_attached_shards)
existing_shard_dates_lem_example =
    existing_shard_dates_lem there 739_000 (739_013 * day_length) (omega arith)
