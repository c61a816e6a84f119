-- ===== src/Prelude/Sorting.antt =====
-- Sorting by a strict order, as ORDER BY does: with no ties there is one sorted list, and a filter can
-- be applied before or after.
use Prim.Native.Nat.{ℕ, zero, suc, ◌<◌}
use mathlib.Core.Path.{◌≡◌, refl, ap}
use mathlib.Core.Logic.{◌⊎◌, inl, inr}
use mathlib.Core.Bool.{Bool, true, false}
use mathlib.Core.Option.{Option, none, some}
use mathlib.Core.List.{List, [], ◌∷◌, ◌++◌}
use native.Mathlib.Omega.{arith}
use grepod.Prelude.Tests.{if◌then◌else◌, Bool-cases}
use grepod.Prelude.Lists.{length, take, drop, keep, All, All-weaken}

abbrev pub nth {ℓ} : {A : Type ℓ} → ℕ → List A → Option A
nth n [] = none
nth zero (x ∷ xs) = some x
nth (suc n) (x ∷ xs) = nth n xs

module _ {ℓ} {A : Type ℓ} (before : A → A → Bool) where
  unfoldable pub insert_sorted : A → List A → List A
  insert_sorted x [] = x ∷ []
  insert_sorted x (y ∷ ys) =
      let rest = insert_sorted x ys in if before x y then x ∷ y ∷ ys else y ∷ rest

  unfoldable pub sort : List A → List A
  unfolding insert_sorted
  sort [] = []
  sort (x ∷ xs) = insert_sorted x (sort xs)

  abbrev pub Sorted : List A → Type ℓ
  Sorted [] = Unit
  Sorted (x ∷ xs) = All (λ y. before x y ≡ true) xs × Sorted xs

  abbrev pub Compares : A → A → Type 0
  Compares x y = (before x y ≡ true) ⊎ (before y x ≡ true)

  -- No two elements tie in the order.
  abbrev pub NoTies : List A → Type ℓ
  NoTies [] = Unit
  NoTies (x ∷ xs) = All (Compares x) xs × NoTies xs

  All-insert {κ} :
      (P : A → Type κ) (x : A) (ys : List A) → P x → All P ys → All P (insert_sorted x ys)
  unfolding insert_sorted
  All-insert P x [] px h = (px, tt)
  All-insert P x (y ∷ ys) px h = elim (Bool-cases (before x y)) [
    | inl e ↦ rw e (px, h)
    | inr e ↦ rw e (h.0, All-insert P x ys px h.1)
  ]

  pub All-sort {κ} : (P : A → Type κ) (xs : List A) → All P xs → All P (sort xs)
  unfolding sort
  All-sort P [] h = tt
  All-sort P (x ∷ xs) h = All-insert P x (sort xs) h.0 (All-sort P xs h.1)

  length-insert : (x : A) (ys : List A) → length (insert_sorted x ys) ≡ suc (length ys)
  unfolding insert_sorted
  length-insert x [] = refl
  length-insert x (y ∷ ys) = elim (Bool-cases (before x y)) [
    | inl e ↦ rw e refl
    | inr e ↦ rw e (ap suc (length-insert x ys))
  ]

  pub length-sort : (xs : List A) → length (sort xs) ≡ length xs
  unfolding sort
  length-sort [] = refl
  length-sort (x ∷ xs) = omega (arith, length-insert x (sort xs), length-sort xs)

  pub All-at {κ} : (P : A → Type κ) (xs : List A) (c : A) (ys : List A) → All P (xs ++ c ∷ ys) → P c
  All-at P [] c ys h = h.0
  All-at P (x ∷ xs) c ys h = All-at P xs c ys h.1

  All-keep {κ} : (P : A → Type κ) (p : A → Bool) (xs : List A) → All P xs → All P (keep p xs)
  All-keep P p [] h = tt
  All-keep P p (x ∷ xs) h = elim (Bool-cases (p x)) [
    | inl e ↦ rw e (h.0, All-keep P p xs h.1)
    | inr e ↦ rw e (All-keep P p xs h.1)
  ]

  module _
      (before_trans : (a b c : A) → before a b ≡ true → before b c ≡ true → before a c ≡ true) where
    -- What is before the first of a sorted list is before all of it.
    before_rest :
        (x y : A) (ys : List A)
        → before x y ≡ true
        → All (λ z. before y z ≡ true) ys
        → All (λ z. before x z ≡ true) ys
    before_rest x y ys e = All-weaken (λ z h. before_trans x y z e h) ys

    insert-Sorted :
        (x : A) (ys : List A) → Sorted ys → All (Compares x) ys → Sorted (insert_sorted x ys)
    unfolding insert_sorted
    insert-Sorted x [] s h = (tt, tt)
    insert-Sorted x (y ∷ ys) s h = elim (Bool-cases (before x y)) [
      | inl e ↦ rw e ((e, before_rest x y ys e s.0), s)
      | inr e ↦ rw e (
        All-insert (λ z. before y z ≡ true) x ys (ground (h.0, arith)) s.0,
        insert-Sorted x ys s.1 h.1,
      )
    ]

    pub sort-Sorted : (xs : List A) → NoTies xs → Sorted (sort xs)
    unfolding sort
    sort-Sorted [] h = tt
    sort-Sorted (x ∷ xs) h =
        insert-Sorted x (sort xs) (sort-Sorted xs h.1) (All-sort (Compares x) xs h.0)

    insert_first :
        (x : A) (ys : List A) → All (λ y. before x y ≡ true) ys → insert_sorted x ys ≡ x ∷ ys
    unfolding insert_sorted
    insert_first x [] h = refl
    insert_first x (y ∷ ys) h = rw h.0 refl

    keep-insert :
        (p : A → Bool) (x : A) (ys : List A)
        → Sorted ys
        → keep p (insert_sorted x ys) ≡ (if p x then insert_sorted x (keep p ys) else keep p ys)
    unfolding insert_sorted
    keep-insert p x [] s = elim (Bool-cases (p x)) [ inl e ↦ rw e refl | inr e ↦ rw e refl ]
    keep-insert p x (y ∷ ys) s = elim (Bool-cases (before x y)) [
      | inl e ↦
          let behind : All (λ z. before x z ≡ true) (keep p (y ∷ ys)) =
            All-keep (λ z. before x z ≡ true) p (y ∷ ys) (e, before_rest x y ys e s.0) in
          rw (e, insert_first x (keep p (y ∷ ys)) behind) refl
      | inr e ↦ ground (arith, e, keep-insert p x ys s.1)
    ]

    pub keep-sort : (p : A → Bool) (xs : List A) → NoTies xs → keep p (sort xs) ≡ sort (keep p xs)
    unfolding sort
    keep-sort p [] h = refl
    keep-sort p (x ∷ xs) h = elim (Bool-cases (p x)) [
      | inl e ↦
          rw (keep-insert p x (sort xs) (sort-Sorted xs h.1), e)
            (ap (insert_sorted x) (keep-sort p xs h.1))
      | inr e ↦ rw (keep-insert p x (sort xs) (sort-Sorted xs h.1), e) (keep-sort p xs h.1)
    ]

    keep_whole : (p : A → Bool) (xs : List A) → All (λ x. p x ≡ true) xs → keep p xs ≡ xs
    keep_whole p [] h = refl
    keep_whole p (x ∷ xs) h = rw h.0 (ap (λ t. x ∷ t) (keep_whole p xs h.1))

    -- Of a sorted list, what is behind one of its elements is the rest.
    pub keep_after :
        ((a : A) → before a a ≡ false)
        → (xs : List A) (c : A) (ys : List A) → Sorted (xs ++ c ∷ ys)
        → keep (before c) (xs ++ c ∷ ys) ≡ ys
    keep_after irrefl [] c ys s = rw (irrefl c) (keep_whole (before c) ys s.0)
    keep_after irrefl (x ∷ xs) c ys s =
        let below : before x c ≡ true = All-at (λ z. before x z ≡ true) xs c ys s.0 in
        elim (Bool-cases (before c x)) [
          | inl q ↦
              let own : before x x ≡ true = before_trans x c x below q in
              absurd (ground (arith, own, irrefl x))
          | inr q ↦ rw q (keep_after irrefl xs c ys s.1)
        ]

pub nth-take {ℓ} : {A : Type ℓ} (k n : ℕ) (xs : List A) → k < n → nth k (take n xs) ≡ nth k xs
nth-take k zero xs h = absurd (omega arith)
nth-take k (suc n) [] h = refl
nth-take zero (suc n) (x ∷ xs) h = refl
nth-take (suc k) (suc n) (x ∷ xs) h = nth-take k n xs (omega arith)

pub take-take {ℓ} : {A : Type ℓ} (n : ℕ) (xs : List A) → take n (take (suc n) xs) ≡ take n xs
take-take zero xs = refl
take-take (suc n) [] = refl
take-take (suc n) (x ∷ xs) = ap (λ t. x ∷ t) (take-take n xs)

-- A list around one of its elements.
pub split_at {ℓ} :
    {A : Type ℓ} (k : ℕ) (xs : List A)
    → k < length xs
    → (c : A) × (nth k xs ≡ some c)
      × (xs ≡ take k xs ++ (c ∷ drop (suc k) xs))
      × (take (suc k) xs ≡ take k xs ++ c ∷ [])
split_at k [] h = absurd (omega arith)
split_at zero (x ∷ xs) h = (x, refl, refl, refl)
split_at (suc k) (x ∷ xs) h =
    let (c, at, whole, part) = split_at k xs (omega arith) in
    (c, at, ap (λ t. x ∷ t) whole, ap (λ t. x ∷ t) part)
