-- ===== src/Storage/Level.antt =====
-- internal/storage/sqlite.go: levelOrder, severityOf and levelsAtOrAbove.
pub mod Laws
use grepod.Prelude.{
  ℕ, suc, ◌+◌, Bool, true, false, Option, none, some, List, [], ◌∷◌, take, if◌then◌else◌, Text,
  codes, text_beq, to_upper,
}

abbrev pub level_order : List Text
level_order =
    codes "FATAL" ∷ codes "ERROR" ∷ codes "WARN" ∷ codes "INFO" ∷ codes "DEBUG" ∷ codes "TRACE" ∷ []

-- The loop over `levelOrder` from index `i` on.
index_of : List Text → Text → ℕ → Option ℕ
index_of [] level i = none
index_of (l ∷ ls) level i = if text_beq l level then some i else index_of ls level (i + 1)

-- The pair `(rank, ok)` of the source: none is `(-1, false)`.
unfoldable pub severity_of : Text → Option ℕ
unfolding index_of
severity_of level = index_of level_order (to_upper level) 0

-- The pair `(levels, ok)`: none is `(nil, false)`.
unfoldable pub levels_at_or_above : Text → Option (List Text)
levels_at_or_above min_level = elim (severity_of min_level) [
  | none ↦ none
  | some idx ↦ some (take (suc idx) level_order)
]
