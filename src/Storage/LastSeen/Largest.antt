-- ===== src/Storage/LastSeen/Largest.antt =====
-- The largest of the texts of some lines, and lines among the rows that are kept.
use grepod.Prelude.{
  ◌≡◌, refl, ap, sym, subst, inl, inr, ◌⊎◌, ◌∙◌, Bool, true, false, Option, none, some, List, [],
  ◌∷◌, map, keep, if◌then◌else◌, Text, text_ltb, text_ltb_irrefl, text_ltb_trans, All, All-weaken,
  Bool-cases, arith,
}
use grepod.Storage.Line.{LogLine}
use grepod.Storage.Times.{format_time}
use grepod.Storage.LastSeen.{max_text}

-- A line among some rows.
abbrev pub Among : LogLine → List LogLine → Type 0
Among l [] = false ≡ true
Among l (k ∷ rows) = (k ≡ l) ⊎ Among l rows

pub Among-All :
    (P : LogLine → Type 0) (l : LogLine) (rows : List LogLine) → Among l rows → All P rows → P l
Among-All P l [] among all = cc
Among-All P l (k ∷ rows) (inl e) all = subst P e all.0
Among-All P l (k ∷ rows) (inr among) all = Among-All P l rows among all.1

module _ (p : LogLine → Bool) where
  pub keep-none : (rows : List LogLine) → keep p rows ≡ [] → All (λ l. p l ≡ false) rows
  keep-none [] e = tt
  keep-none (k ∷ rows) e = elim (Bool-cases (p k)) [
    | inl q ↦ absurd (cc (sym (subst (λ b. (if b then k ∷ keep p rows else keep p rows) ≡ []) q e)))
    | inr q ↦
        (q, keep-none rows (subst (λ b. (if b then k ∷ keep p rows else keep p rows) ≡ []) q e))
  ]

  pub Among-keep :
      (l : LogLine) (rows : List LogLine) → Among l (keep p rows) → Among l rows × (p l ≡ true)
  Among-keep l [] among = cc
  Among-keep l (k ∷ rows) among = elim (Bool-cases (p k)) [
    | inl q ↦ elim (subst (λ b. Among l (if b then k ∷ keep p rows else keep p rows)) q among) [
      | inl e ↦ (inl e, ap p (sym e) ∙ q)
      | inr later ↦ let (there, h) = Among-keep l rows later in (inr there, h)
    ]
    | inr q ↦
        let (there, h) =
          Among-keep l rows
            (subst (λ b. Among l (if b then k ∷ keep p rows else keep p rows)) q among) in
        (inr there, h)
  ]

  pub All-of_keep :
      (P : LogLine → Type 0) (rows : List LogLine)
      → All P (keep p rows)
      → All (λ l. p l ≡ true → P l) rows
  All-of_keep P [] h = tt
  All-of_keep P (k ∷ rows) h = elim (Bool-cases (p k)) [
    | inl q ↦
        let h' = subst (λ b. All P (if b then k ∷ keep p rows else keep p rows)) q h in
        ((λ e. h'.0), All-of_keep P rows h'.1)
    | inr q ↦
        let h' = subst (λ b. All P (if b then k ∷ keep p rows else keep p rows)) q h in
        ((λ e. absurd (ground (arith, e, q))), All-of_keep P rows h')
  ]

-- The line with the largest text among some, by the order of texts.
abbrev pub Largest : List LogLine → Option Text → Type 0
Largest rows none = rows ≡ []
Largest rows (some raw) =
    (l : LogLine) × (raw ≡ format_time l.timestamp)
    × Among l rows
    × All (λ k. text_ltb raw (format_time k.timestamp) ≡ false) rows

under : (u t k : Text) → text_ltb u t ≡ true → text_ltb u k ≡ false → text_ltb t k ≡ false
under u t k h below = ground (arith, text_ltb_trans u t k)

pub max_text-Largest :
    (rows : List LogLine) → Largest rows (max_text (map (λ l. format_time l.timestamp) rows))
max_text-Largest [] = refl
max_text-Largest (l ∷ rows) =
    larger l rows (max_text (map (λ k. format_time k.timestamp) rows)) (max_text-Largest rows)
  where
    larger :
        (l : LogLine) (rows : List LogLine) (o : Option Text)
        → Largest rows o
        → Largest (l ∷ rows) (elim o [
          | none ↦ some (format_time l.timestamp)
          | some u ↦
              some (if text_ltb u (format_time l.timestamp) then format_time l.timestamp else u)
        ])
    larger l rows none e = rw e (l, refl, inl refl, (text_ltb_irrefl (format_time l.timestamp), tt))
    larger l rows (some u) (m, e, among, all) =
        elim (Bool-cases (text_ltb u (format_time l.timestamp))) [
          | inl h ↦
              subst (λ b. Largest (l ∷ rows) (some (if b then format_time l.timestamp else u)))
                (sym h)
                (
                  l,
                  refl,
                  inl refl,
                  (
                    text_ltb_irrefl (format_time l.timestamp),
                    All-weaken
                        (λ k below.
                          under u (format_time l.timestamp) (format_time k.timestamp) h below)
                        rows all,
                  ),
                )
          | inr h ↦
              subst (λ b. Largest (l ∷ rows) (some (if b then format_time l.timestamp else u)))
                (sym h) (m, e, inr among, (h, all))
        ]
