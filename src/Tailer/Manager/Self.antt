-- ===== src/Tailer/Manager/Self.antt =====
-- grepod never tails its own pod.
use grepod.Prelude.{
  ℕ, ◌≡◌, refl, ap, sym, ◌∙◌, ◌≢◌, Bool, true, false, Option, none, some, List, [], ◌∷◌, update,
  nat_beq, inl, inr, if◌then◌else◌, Text, text_beq_iff, is_empty, arith, Bool-cases,
}
use grepod.Prelude.Maps.{lookup, delete}
use grepod.Tailer.Key.{ContainerKey, key_eq}
use grepod.Tailer.Manager.{
  Manager, Tailer, Pod, ContainerStatus, start_container, stop_container, cancelled_of,
  reconcile_container, reconcile_all, reconcile_pod, stop_keys, stop_pod, PodEvent, added, updated,
  deleted, handle, handle_all, new_manager, up_to_date, statuses_of, is_self, keys_of,
}

module _ (self : Text) (named : self ≢ []) where
  record TailsOthers (m : Manager) : Type 0 where
    same : m.self_pod ≡ self
    others : (c : ℕ) (t : Tailer) → m.tailers c ≡ some t → t.key.pod ≢ self

  start_container-TailsOthers :
      (key : ContainerKey) (count : ℕ) (m : Manager)
      → key.pod ≢ self
      → TailsOthers m
      → TailsOthers (start_container key count m)
  unfolding start_container
  start_container-TailsOthers key count m ne v = record {
    same = v.same;
    others = λ c t h e. ne (ground (arith, v.others c t));
  }

  stop_container-TailsOthers :
      (key : ContainerKey) (m : Manager) → TailsOthers m → TailsOthers (stop_container key m)
  unfolding stop_container
  stop_container-TailsOthers key m v = go (lookup key m.cancels)
    where
      tailer :
          (o : Option Tailer) (t : Tailer)
          → cancelled_of o ≡ some t
          → (u : Tailer) × (o ≡ some u) × (u.key ≡ t.key)
      tailer none t h = absurd (cc)
      tailer (some u) t h = (u, refl, ground arith)

      go :
          (o : Option ℕ)
          → TailsOthers (elim o [
            | none ↦ m
            | some c ↦ record m {
              cancels = delete key m.cancels;
              tailers = update m.tailers c (cancelled_of (m.tailers c));
            }
          ])
      go none = v
      go (some c) = record {
        same = v.same;
        others = λ d t h e. elim (Bool-cases (nat_beq c d)) [
          | inl here ↦
              let (u, was, k) = tailer (m.tailers c) t (ground arith) in
              v.others c u was (ap (λ j. j.pod) k ∙ e)
          | inr there ↦ v.others d t (ground arith) e
        ];
      }

  reconcile_container-TailsOthers :
      (key : ContainerKey) (count : ℕ) (m : Manager)
      → key.pod ≢ self
      → TailsOthers m
      → TailsOthers (reconcile_container key count m)
  unfolding reconcile_container
  reconcile_container-TailsOthers key count m ne v =
      elim (up_to_date key count m)
        as (λ b. TailsOthers (if b then m else start_container key count (stop_container key m))) [
          | true ↦ v
          | false ↦
              start_container-TailsOthers key count (stop_container key m) ne
                (stop_container-TailsOthers key m v)
        ]

  reconcile_all-TailsOthers :
      (pod : Text) (css : List ContainerStatus) (m : Manager)
      → pod ≢ self
      → TailsOthers m
      → TailsOthers (reconcile_all pod css m)
  unfolding reconcile_all
  reconcile_all-TailsOthers pod [] m ne v = v
  reconcile_all-TailsOthers pod (cs ∷ css) m ne v = reconcile_all-TailsOthers pod css _ ne (
      reconcile_container-TailsOthers (record { pod = pod; container = cs.name }) cs.restart_count m
        ne v)

  not_empty : is_empty self ≡ false
  not_empty = go self named
    where
      go : (s : Text) → s ≢ [] → is_empty s ≡ false
      go [] h = absurd (h refl)
      go (c ∷ s) h = refl

  not_self : (pod : Pod) (m : Manager) → m.self_pod ≡ self → is_self m pod ≡ false → pod.name ≢ self
  unfolding is_self
  not_self pod m same other e =
      ground
        (arith, (text_beq_iff pod.name m.self_pod).1 (e ∙ sym same), ap is_empty same ∙ not_empty)

  reconcile_pod-TailsOthers :
      (pod : Pod) (m : Manager) → TailsOthers m → TailsOthers (reconcile_pod pod m)
  unfolding reconcile_pod
  reconcile_pod-TailsOthers pod m v = elim (Bool-cases (is_self m pod)) [
    | inl own ↦ rw own v
    | inr other ↦
        rw other
          (reconcile_all-TailsOthers pod.name (statuses_of m pod) m (not_self pod m v.same other) v)
  ]

  stop_keys-TailsOthers :
      (ks : List ContainerKey) (m : Manager) → TailsOthers m → TailsOthers (stop_keys ks m)
  unfolding stop_keys
  stop_keys-TailsOthers [] m v = v
  stop_keys-TailsOthers (k ∷ ks) m v =
      let v' = stop_container-TailsOthers k m v in
      stop_keys-TailsOthers ks _ (record { same = v'.same; others = v'.others })

  handle_all-TailsOthers :
      (es : List PodEvent) (m : Manager) → TailsOthers m → TailsOthers (handle_all es m)
  unfolding handle_all handle stop_pod
  handle_all-TailsOthers [] m v = v
  handle_all-TailsOthers (added pod ∷ es) m v =
      handle_all-TailsOthers es _ (reconcile_pod-TailsOthers pod m v)
  handle_all-TailsOthers (updated pod ∷ es) m v =
      handle_all-TailsOthers es _ (reconcile_pod-TailsOthers pod m v)
  handle_all-TailsOthers (deleted name ∷ es) m v =
      handle_all-TailsOthers es _ (stop_keys-TailsOthers (keys_of name m.cancels) m v)

  -- Where grepod's own pod is named, no sequence of pod events starts a tailer for it, whatever the
  -- settings.
  pub self_never_tailed :
      (include_init : Bool) (es : List PodEvent) (c : ℕ) (t : Tailer)
      → (handle_all es (new_manager include_init self)).tailers c ≡ some t
      → t.key.pod ≢ self
  self_never_tailed include_init es c t h =
      let v =
        handle_all-TailsOthers es (new_manager include_init self)
          (unfold new_manager in record { same = refl; others = λ d u e. cc }) in
      v.others c t h
