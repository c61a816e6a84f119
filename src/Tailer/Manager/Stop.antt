-- ===== src/Tailer/Manager/Stop.antt =====
-- What stopPod stops, and what it spares.
use grepod.Prelude.{
  ℕ, ◌≡◌, refl, ap, ◌∙◌, ◌≢◌, inl, inr, Bool, true, false, none, some, List, [], ◌∷◌, if◌then◌else◌,
  Text, text_beq, text_beq_iff, arith, Bool-cases,
}
use grepod.Prelude.Maps.{lookup, delete, lookup-delete}
use grepod.Tailer.Key.{ContainerKey, key_eq, key_beq, key_beq_iff}
use grepod.Tailer.Markers.{delete_marker}
use grepod.Tailer.Manager.{Manager, Tailer, stop_container, stop_keys, stop_pod, keys_of}
use grepod.Tailer.Manager.Inv.{Inv, lookup-stop_container, stop_pod-Inv}

has : List ContainerKey → ContainerKey → Bool
has [] k = false
has (j ∷ ks) k = if key_beq j k then true else has ks k

has-keys_of :
    (pod : Text) (cs : List (ContainerKey × ℕ)) (k : ContainerKey) (c : ℕ)
    → lookup k cs ≡ some c
    → k.pod ≡ pod
    → has (keys_of pod cs) k ≡ true
unfolding has keys_of lookup
has-keys_of pod [] k c h e = cc
has-keys_of pod ((j, d) ∷ cs) k c h e = elim (Bool-cases (key_beq j k)) [
  | inl same ↦
      let at : j.pod ≡ pod = ap (λ i. i.pod) ((key_beq_iff j k).0 same) ∙ e in
      rw ((text_beq_iff j.pod pod).1 at, has, same)
  | inr other ↦
      let later = has-keys_of pod cs k c (rw other at h) e in
      elim (text_beq j.pod pod)
        as (λ b. has (if b then j ∷ keys_of pod cs else keys_of pod cs) k ≡ true) [
          | true ↦ rw (other, has) later
          | false ↦ later
        ]
]

has-keys_of_pod :
    (pod : Text) (cs : List (ContainerKey × ℕ)) (k : ContainerKey)
    → has (keys_of pod cs) k ≡ true
    → k.pod ≡ pod
unfolding has keys_of
has-keys_of_pod pod [] k h = cc
has-keys_of_pod pod ((j, d) ∷ cs) k h =
    ground (arith, has-keys_of_pod pod cs k, (text_beq_iff j.pod pod).0, (key_beq_iff j k).0)

lookup-stop_keys :
    (ks : List ContainerKey) (m : Manager) (k : ContainerKey)
    → lookup k (stop_keys ks m).cancels ≡ (if has ks k then none else lookup k m.cancels)
unfolding stop_keys has
lookup-stop_keys [] m k = refl
lookup-stop_keys (j ∷ ks) m k =
    let m' = stop_container j m in
    ground (
      arith,
      lookup-stop_keys ks (record m' { markers = delete_marker j m'.markers }) k,
      lookup-stop_container j k m,
    )

markers-stop_container : (k : ContainerKey) (m : Manager) → (stop_container k m).markers ≡ m.markers
unfolding stop_container
markers-stop_container k m = ground arith

marker-stop_keys :
    (ks : List ContainerKey) (m : Manager) (k : ContainerKey)
    → lookup k (stop_keys ks m).markers ≡ (if has ks k then none else lookup k m.markers)
unfolding stop_keys has delete_marker
marker-stop_keys [] m k = refl
marker-stop_keys (j ∷ ks) m k =
    let m' = stop_container j m in
    ground (
      arith,
      marker-stop_keys ks (record m' { markers = delete j m'.markers }) k,
      lookup-delete j k m'.markers,
      markers-stop_container j m,
    )

not-has-keys_of :
    (pod : Text) (m : Manager) (k : ContainerKey)
    → k.pod ≢ pod
    → has (keys_of pod m.cancels) k ≡ false
not-has-keys_of pod m k ne = elim (Bool-cases (has (keys_of pod m.cancels) k)) [
  | inl h ↦ absurd (ne (has-keys_of_pod pod m.cancels k h))
  | inr h ↦ h
]

-- After stopPod no tailer of the pod is live, and each of its containers that had one has lost its
-- marker; a live tailer of another pod goes on, and no marker of another pod is touched.
pub stop_pod_stops :
    (pod : Text) (m : Manager)
    → Inv m
    → ((c : ℕ) (t : Tailer)
        → (stop_pod pod m).tailers c ≡ some t
        → t.key.pod ≡ pod
        → t.cancelled ≡ true)
      × ((k : ContainerKey) (c : ℕ)
          → lookup k m.cancels ≡ some c
          → k.pod ≡ pod
          → lookup k (stop_pod pod m).markers ≡ none)
      × ((c : ℕ) (t : Tailer)
          → m.tailers c ≡ some t
          → t.cancelled ≡ false
          → t.key.pod ≢ pod
          → (stop_pod pod m).tailers c ≡ some t)
      × ((k : ContainerKey) → k.pod ≢ pod → lookup k (stop_pod pod m).markers ≡ lookup k m.markers)
stop_pod_stops pod m v = (
  stopped,
  forgotten,
  spared,
  λ k ne.
      unfold stop_pod in
      ground (arith, marker-stop_keys (keys_of pod m.cancels) m k, not-has-keys_of pod m k ne),
)
  where
    after : Inv (stop_pod pod m)
    after = stop_pod-Inv pod m v

    entry_after :
        (k : ContainerKey)
        → lookup k (stop_pod pod m).cancels
          ≡ (if has (keys_of pod m.cancels) k then none else lookup k m.cancels)
    entry_after k = unfold stop_pod in lookup-stop_keys (keys_of pod m.cancels) m k

    stopped :
        (c : ℕ) (t : Tailer)
        → (stop_pod pod m).tailers c ≡ some t
        → t.key.pod ≡ pod
        → t.cancelled ≡ true
    stopped c t h e = elim (Bool-cases t.cancelled) [
      | inl over ↦ over
      | inr live ↦
          ground
            (arith, after.live c t h live, entry_after t.key, has-keys_of pod m.cancels t.key c, e)
    ]

    forgotten :
        (k : ContainerKey) (c : ℕ)
        → lookup k m.cancels ≡ some c
        → k.pod ≡ pod
        → lookup k (stop_pod pod m).markers ≡ none
    forgotten k c h e =
        unfold stop_pod in
        ground
          (arith, marker-stop_keys (keys_of pod m.cancels) m k, has-keys_of pod m.cancels k c h e)

    spared :
        (c : ℕ) (t : Tailer)
        → m.tailers c ≡ some t
        → t.cancelled ≡ false
        → t.key.pod ≢ pod
        → (stop_pod pod m).tailers c ≡ some t
    spared c t h live ne = ground (
      arith,
      v.live c t h live,
      entry_after t.key,
      not-has-keys_of pod m t.key ne,
      after.owned t.key c,
    )
