-- ===== src/Prelude/Maps.antt =====
-- Go maps as association lists: a key stands at most once where `insert` and `delete` built the
-- list, and a lookup of a missing key gives none.
use grepod.Prelude.Tests.{HasEquality, ◌==◌, if◌then◌else◌, Bool-cases, ==_self, ==_ne}
use mathlib.Core.Path.{◌≡◌, refl, ap}
use mathlib.Core.Logic.{◌≢◌, inl, inr}
use mathlib.Core.List.{List, [], ◌∷◌}
use mathlib.Core.Option.{Option, none, some}

module _ {ℓ κ} {K : Type ℓ} {V : Type κ} ⦃e : HasEquality K⦄ where
  unfoldable pub lookup : K → List (K × V) → Option V
  lookup k [] = none
  lookup k ((j, v) ∷ m) = if j == k then some v else lookup k m

  unfoldable pub delete : K → List (K × V) → List (K × V)
  delete k [] = []
  delete k ((j, v) ∷ m) = if j == k then delete k m else (j, v) ∷ delete k m

  unfoldable pub insert : K → V → List (K × V) → List (K × V)
  unfolding delete
  insert k v m = (k, v) ∷ delete k m

  pub lookup-delete_self : (k : K) (m : List (K × V)) → lookup k (delete k m) ≡ none
  unfolding lookup delete
  lookup-delete_self k [] = refl
  lookup-delete_self k ((j, v) ∷ m) = elim (Bool-cases (j == k)) [
    | inl same ↦ rw same (lookup-delete_self k m)
    | inr other ↦ rw (other, other) (lookup-delete_self k m)
  ]

  pub lookup-delete_ne : (k j : K) (m : List (K × V)) → k ≢ j → lookup j (delete k m) ≡ lookup j m
  unfolding lookup delete
  lookup-delete_ne k j [] h = refl
  lookup-delete_ne k j ((i, v) ∷ m) h = elim (Bool-cases (i == k)) [
    | inl same ↦
        rw (same, ==_ne i j (λ q. h (cc ((e.equal_iff i k).0 same, q)))) (lookup-delete_ne k j m h)
    | inr other ↦ rw other (ap (λ t. if i == j then some v else t) (lookup-delete_ne k j m h))
  ]

  pub lookup-insert_self : (k : K) (v : V) (m : List (K × V)) → lookup k (insert k v m) ≡ some v
  unfolding lookup delete insert
  lookup-insert_self k v m = rw (==_self k)

  pub lookup-insert_ne :
      (k j : K) (v : V) (m : List (K × V)) → k ≢ j → lookup j (insert k v m) ≡ lookup j m
  unfolding lookup insert
  lookup-insert_ne k j v m h = rw (==_ne k j h) (lookup-delete_ne k j m h)

  pub lookup-delete :
      (k j : K) (m : List (K × V)) → lookup j (delete k m) ≡ (if k == j then none else lookup j m)
  lookup-delete k j m = elim (Bool-cases (k == j)) [
    | inl same ↦ rw (same, (e.equal_iff k j).0 same) (lookup-delete_self j m)
    | inr other ↦ rw other (lookup-delete_ne k j m (λ q. cc (other, (e.equal_iff k j).1 q)))
  ]

  pub lookup-insert :
      (k j : K) (v : V) (m : List (K × V))
      → lookup j (insert k v m) ≡ (if k == j then some v else lookup j m)
  lookup-insert k j v m = elim (Bool-cases (k == j)) [
    | inl same ↦ rw (same, (e.equal_iff k j).0 same) (lookup-insert_self j v m)
    | inr other ↦ rw other (lookup-insert_ne k j v m (λ q. cc (other, (e.equal_iff k j).1 q)))
  ]
