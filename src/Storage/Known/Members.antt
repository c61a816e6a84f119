-- ===== src/Storage/Known/Members.antt =====
-- Members of lists of texts, and the keys of a set.
use grepod.Prelude.{
  ◌≡◌, refl, ap, sym, ◌∙◌, inl, inr, true, false, List, [], ◌∷◌, ◌++◌, ◌||◌, Text, text_beq,
  text_beq_iff, text_ltb, Bool-cases, arith, All, nat_beq, ltb,
}
use grepod.Prelude.Sorting.{sort, insert_sorted, NoTies, Compares}
use grepod.Storage.Search.{is_among}
use grepod.Storage.Known.{key_set}

text_ltb_total : (s t : Text) → text_beq s t ≡ false → Compares text_ltb s t
text_ltb_total [] [] h = cc
text_ltb_total [] (b ∷ t) h = inl refl
text_ltb_total (a ∷ s) [] h = inr refl
text_ltb_total (a ∷ s) (b ∷ t) h = elim (Bool-cases (nat_beq a b)) [
  | inl e ↦
      let same : a ≡ b = ground (arith, e) in
      elim (text_ltb_total s t (ground (arith, e, h))) [
        | inl k ↦ inl (ground (arith, e, k))
        | inr k ↦ inr (ground (arith, same, k))
      ]
  | inr e ↦ elim (Bool-cases (ltb a b)) [
    | inl k ↦ inl (rw k refl)
    | inr k ↦ inr (ground (arith, e, k))
  ]
]

text_beq_sym : (s t : Text) → text_beq s t ≡ true → text_beq t s ≡ true
text_beq_sym s t h = (text_beq_iff t s).1 (sym ((text_beq_iff s t).0 h))

pub is_among-append :
    (ts us : List Text) (t : Text) → is_among (ts ++ us) t ≡ (is_among ts t || is_among us t)
is_among-append [] us t = refl
is_among-append (s ∷ ts) us t = ground (arith, is_among-append ts us t)

-- A text that is there already adds none.
pub absorbed :
    (s : Text) (ts : List Text) (t : Text)
    → is_among ts s ≡ true
    → is_among ts t ≡ (text_beq s t || is_among ts t)
absorbed s ts t h = elim (Bool-cases (text_beq s t)) [
  | inl e ↦ rw (sym ((text_beq_iff s t).0 e)) (rw h (ground arith))
  | inr e ↦ rw e refl
]

pub is_among-key_set : (ts : List Text) (t : Text) → is_among (key_set ts) t ≡ is_among ts t
is_among-key_set [] t = refl
is_among-key_set (s ∷ ts) t = elim (Bool-cases (is_among (key_set ts) s)) [
  | inl e ↦ rw e (is_among-key_set ts t ∙ absorbed s ts t (sym (is_among-key_set ts s) ∙ e))
  | inr e ↦ rw e (ap (λ b. text_beq s t || b) (is_among-key_set ts t))
]

is_among-insert :
    (s : Text) (ts : List Text) (t : Text)
    → is_among (insert_sorted text_ltb s ts) t ≡ (text_beq s t || is_among ts t)
unfolding insert_sorted
is_among-insert s [] t = refl
is_among-insert s (u ∷ ts) t = ground (arith, is_among-insert s ts t)

pub is_among-sort : (ts : List Text) (t : Text) → is_among (sort text_ltb ts) t ≡ is_among ts t
unfolding sort
is_among-sort [] t = refl
is_among-sort (s ∷ ts) t =
    is_among-insert s (sort text_ltb ts) t ∙ ap (λ b. text_beq s t || b) (is_among-sort ts t)

Compares-each : (t : Text) (ts : List Text) → is_among ts t ≡ false → All (Compares text_ltb t) ts
Compares-each t [] h = tt
Compares-each t (s ∷ ts) h = (
  text_ltb_total t s (ground (arith, h, text_beq_sym t s)),
  Compares-each t ts (ground (arith, h)),
)

pub key_set-NoTies : (ts : List Text) → NoTies text_ltb (key_set ts)
key_set-NoTies [] = tt
key_set-NoTies (t ∷ ts) = elim (Bool-cases (is_among (key_set ts) t)) [
  | inl e ↦ rw e (key_set-NoTies ts)
  | inr e ↦ rw e (Compares-each t (key_set ts) e, key_set-NoTies ts)
]
