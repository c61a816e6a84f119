-- ===== src/Tailer/Manager/Inv.antt =====
-- At most one live tailer for each container, and the manager can cancel it.
use grepod.Prelude.{
  ℕ, ◌<◌, ◌≡◌, refl, inl, inr, Bool, true, false, Option, none, some, List, [], ◌∷◌, update,
  if◌then◌else◌, Text, arith, Bool-cases,
}
use grepod.Prelude.Maps.{lookup, delete, lookup-insert, lookup-delete}
use grepod.Tailer.Key.{ContainerKey, key_eq, key_beq, key_beq_iff}
use grepod.Tailer.Manager.{
  Manager, Tailer, Pod, ContainerStatus, start_container, stop_container, cancelled_of,
  reconcile_container, reconcile_all, reconcile_pod, stop_keys, stop_pod, PodEvent, added, updated,
  deleted, handle, handle_all, new_manager, up_to_date, statuses_of, is_self, keys_of,
}

pub record Inv (m : Manager) : Type 0 where
  pub fresh : (c : ℕ) (t : Tailer) → m.tailers c ≡ some t → c < m.next
  pub live :
      (c : ℕ) (t : Tailer)
      → m.tailers c ≡ some t
      → t.cancelled ≡ false
      → lookup t.key m.cancels ≡ some c
  pub owned :
      (k : ContainerKey) (c : ℕ)
      → lookup k m.cancels ≡ some c
      → m.tailers c ≡ some (record { key = k; cancelled = false })
  pub counted :
      (k : ContainerKey) (c : ℕ)
      → lookup k m.cancels ≡ some c
      → (n : ℕ) × (lookup k m.restart_counts ≡ some n)

stop_container-Inv : (key : ContainerKey) (m : Manager) → Inv m → Inv (stop_container key m)
unfolding stop_container
stop_container-Inv key m v = go (lookup key m.cancels) refl
  where
    go :
        (o : Option ℕ)
        → lookup key m.cancels ≡ o
        → Inv (elim o [
          | none ↦ m
          | some c ↦ record m {
            cancels = delete key m.cancels;
            tailers = update m.tailers c (cancelled_of (m.tailers c));
          }
        ])
    go none e = v
    go (some c) e = record {
      fresh = λ d t h. ground (
        arith,
        v.owned key c e,
        v.fresh d t,
        v.fresh c (record { key = key; cancelled = false }),
      );
      live = λ d t h l. ground (
        arith,
        lookup-delete key t.key m.cancels,
        v.live d t,
        v.owned key c e,
        (key_beq_iff key t.key).0,
      );
      owned = λ k d h. ground (
        arith,
        lookup-delete key k m.cancels,
        v.owned k d,
        v.owned key c e,
        (key_beq_iff key k).0,
        (key_beq_iff key k).1,
      );
      counted = λ k d h. v.counted k d (ground (arith, lookup-delete key k m.cancels));
    }

start_container-Inv :
    (key : ContainerKey) (count : ℕ) (m : Manager)
    → Inv m
    → lookup key m.cancels ≡ none
    → Inv (start_container key count m)
unfolding start_container
start_container-Inv key count m v absent = record {
  fresh = λ d t h. ground (arith, v.fresh d t);
  live = λ d t h l. ground (
    arith,
    lookup-insert key t.key m.next m.cancels,
    v.live d t,
    absent,
    (key_beq_iff key t.key).0,
    (key_beq_iff key t.key).1,
  );
  owned = λ k d h. ground (
    arith,
    lookup-insert key k m.next m.cancels,
    v.owned k d,
    v.fresh d (record { key = k; cancelled = false }),
    (key_beq_iff key k).0,
  );
  counted = λ k d h. elim (Bool-cases (key_beq key k)) [
    | inl same ↦ (count, ground (arith, lookup-insert key k count m.restart_counts))
    | inr other ↦
        let (n, e) = v.counted k d (ground (arith, lookup-insert key k m.next m.cancels)) in
        (n, ground (arith, lookup-insert key k count m.restart_counts))
  ];
}

-- After a container was stopped, no entry is left for it.
pub lookup-stop_container :
    (key k : ContainerKey) (m : Manager)
    → lookup k (stop_container key m).cancels ≡ (if key_beq key k then none else lookup k m.cancels)
unfolding stop_container
lookup-stop_container key k m = ground (arith, lookup-delete key k m.cancels, (key_beq_iff key k).0)

pub lookup-start_container :
    (key k : ContainerKey) (count : ℕ) (m : Manager)
    → lookup k (start_container key count m).cancels
      ≡ (if key_beq key k then some m.next else lookup k m.cancels)
unfolding start_container
lookup-start_container key k count m = lookup-insert key k m.next m.cancels

reconcile_container-Inv :
    (key : ContainerKey) (count : ℕ) (m : Manager) → Inv m → Inv (reconcile_container key count m)
unfolding reconcile_container
reconcile_container-Inv key count m v =
    elim (up_to_date key count m)
      as (λ b. Inv (if b then m else start_container key count (stop_container key m))) [
        | true ↦ v
        | false ↦
            start_container-Inv key count (stop_container key m) (stop_container-Inv key m v)
              (ground (arith, lookup-stop_container key key m, (key_beq_iff key key).1))
      ]

reconcile_all-Inv :
    (pod : Text) (css : List ContainerStatus) (m : Manager) → Inv m → Inv (reconcile_all pod css m)
unfolding reconcile_all
reconcile_all-Inv pod [] m v = v
reconcile_all-Inv pod (cs ∷ css) m v =
    reconcile_all-Inv pod css _ (reconcile_container-Inv _ cs.restart_count m v)

pub reconcile_pod-Inv : (pod : Pod) (m : Manager) → Inv m → Inv (reconcile_pod pod m)
unfolding reconcile_pod
reconcile_pod-Inv pod m v =
    elim (is_self m pod)
      as (λ b. Inv (if b then m else reconcile_all pod.name (statuses_of m pod) m)) [
        | true ↦ v
        | false ↦ reconcile_all-Inv pod.name (statuses_of m pod) m v
      ]

stop_keys-Inv : (ks : List ContainerKey) (m : Manager) → Inv m → Inv (stop_keys ks m)
unfolding stop_keys
stop_keys-Inv [] m v = v
stop_keys-Inv (k ∷ ks) m v =
    let v' = stop_container-Inv k m v in
    stop_keys-Inv ks _
      (record { fresh = v'.fresh; live = v'.live; owned = v'.owned; counted = v'.counted })

pub stop_pod-Inv : (pod : Text) (m : Manager) → Inv m → Inv (stop_pod pod m)
unfolding stop_pod
stop_pod-Inv pod m v = stop_keys-Inv (keys_of pod m.cancels) m v

handle_all-Inv : (es : List PodEvent) (m : Manager) → Inv m → Inv (handle_all es m)
unfolding handle_all handle
handle_all-Inv [] m v = v
handle_all-Inv (added pod ∷ es) m v = handle_all-Inv es _ (reconcile_pod-Inv pod m v)
handle_all-Inv (updated pod ∷ es) m v = handle_all-Inv es _ (reconcile_pod-Inv pod m v)
handle_all-Inv (deleted name ∷ es) m v = handle_all-Inv es _ (stop_pod-Inv name m v)

-- After every sequence of pod events: each live tailer is the one that the manager would cancel for
-- its container, each such entry is of a live tailer of that container, with a restart count, and
-- no number of a context is used again.
pub handle_all_new-Inv :
    (include_init : Bool) (self_pod : Text) (es : List PodEvent)
    → Inv (handle_all es (new_manager include_init self_pod))
unfolding new_manager lookup
handle_all_new-Inv include_init self_pod es = handle_all-Inv es _ (record {
  fresh = λ c t h. cc;
  live = λ c t h l. cc;
  owned = λ k c h. cc;
  counted = λ k c h. cc;
})

-- After every sequence of pod events, two live goroutines that tail the same container are the same
-- goroutine.
pub one_live_tailer :
    (include_init : Bool) (self_pod : Text) (es : List PodEvent) (c d : ℕ) (t u : Tailer)
    → (handle_all es (new_manager include_init self_pod)).tailers c ≡ some t
    → (handle_all es (new_manager include_init self_pod)).tailers d ≡ some u
    → t.cancelled ≡ false
    → u.cancelled ≡ false
    → t.key ≡ u.key
    → c ≡ d
one_live_tailer include_init self_pod es c d t u ht hu lt lu same =
    let v = handle_all_new-Inv include_init self_pod es in
    ground (arith, v.live c t ht lt, v.live d u hu lu)
