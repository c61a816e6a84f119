-- ===== src/Storage/Level/Laws.antt =====
-- The set of levels that a tab of the UI selects.
use grepod.Prelude.{
  ℕ, zero, suc, ◌+◌, ◌≤◌, ◌<◌, ◌≡◌, refl, ◌↔◌, ◌⊎◌, inl, inr, Bool, true, false, none, some, List,
  [], ◌∷◌, take, length, if◌then◌else◌, Text, codes, text_beq, to_upper, arith, Bool-cases,
  Option-cases,
}
use grepod.Storage.Level.{level_order, index_of, severity_of, levels_at_or_above}

abbrev pub member : Text → List Text → Bool
member t [] = false
member t (l ∷ ls) = if text_beq l t then true else member t ls

-- The loop finds an element at its index, and the elements up to an index are those found by it.
index_of-bounds :
    (ls : List Text) (t : Text) (i r : ℕ) → index_of ls t i ≡ some r → (i ≤ r) × (r < i + length ls)
unfolding index_of
index_of-bounds [] t i r h = cc
index_of-bounds (l ∷ ls) t i r h = ground (arith, index_of-bounds ls t (i + 1) r)

member-take :
    (ls : List Text) (t : Text) (i r k : ℕ)
    → index_of ls t i ≡ some r
    → (member t (take k ls) ≡ true) ↔ (r < i + k)
unfolding index_of
member-take [] t i r k h = cc
member-take (l ∷ ls) t i r zero h = ground (arith, index_of-bounds (l ∷ ls) t i r h)
member-take (l ∷ ls) t i r (suc k) h = elim (Bool-cases (text_beq l t)) [
  | inl same ↦ ground arith
  | inr other ↦
      let later = member-take ls t (i + 1) r k (ground arith) in ground (arith, later.0, later.1)
]

member-take_order :
    (level : Text) (rank k : ℕ)
    → severity_of level ≡ some rank
    → (member (to_upper level) (take k level_order) ≡ true) ↔ (rank < 0 + k)
unfolding severity_of
member-take_order level rank k h = member-take level_order (to_upper level) 0 rank k h

-- A recognized minimum selects exactly the recognized levels that are at least as severe, in either
-- case of letters; an unrecognized one selects no set, so nothing is filtered.
pub levels_select :
    (min_level level : Text) (rank : ℕ)
    → severity_of level ≡ some rank
    → ((levels_at_or_above min_level ≡ none) × (severity_of min_level ≡ none))
      ⊎ ((levels : List Text) × (idx : ℕ) × (levels_at_or_above min_level ≡ some levels)
          × (severity_of min_level ≡ some idx)
          × ((member (to_upper level) levels ≡ true) ↔ (rank ≤ idx)))
unfolding levels_at_or_above
levels_select min_level level rank h = elim (Option-cases (severity_of min_level)) [
  | inl e ↦ inl (rw (e, levels_at_or_above), e)
  | inr (idx, e) ↦
      let (into, back) = member-take_order level rank (suc idx) h in
      inr (
        take (suc idx) level_order,
        idx,
        rw (e, levels_at_or_above),
        e,
        ((λ m. omega (arith, into m)), λ le. back (omega arith)),
      )
]

-- The six levels are ranked by their place in the list, FATAL first.
severity_of_order :
    (severity_of (codes "FATAL") ≡ some 0)
    × (severity_of (codes "warn") ≡ some 2)
    × (severity_of (codes "TRACE") ≡ some 5)
    × (severity_of [] ≡ none)
unfolding severity_of
severity_of_order = (refl, refl, refl, refl)
