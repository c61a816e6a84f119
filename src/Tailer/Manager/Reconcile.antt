-- ===== src/Tailer/Manager/Reconcile.antt =====
-- What reconcilePod achieves: each container of the pod has a live tailer for its restart count.
use grepod.Prelude.{
  ℕ, ◌≡◌, refl, sym, ap, subst, ◌∙◌, ◌≢◌, inl, inr, true, false, Option, none, some, List, [], ◌∷◌,
  ◌++◌, All, if◌then◌else◌, Text, arith, Bool-cases,
}
use grepod.Prelude.Maps.{lookup, lookup-insert}
use grepod.Tailer.Key.{ContainerKey, key_eq, key_beq_iff}
use grepod.Tailer.Manager.{
  Manager, Pod, ContainerStatus, start_container, stop_container, reconcile_container,
  reconcile_all, reconcile_pod, up_to_date, statuses_of, is_self,
}
use grepod.Tailer.Manager.Inv.{
  Inv, lookup-stop_container, lookup-start_container, reconcile_pod-Inv,
}

abbrev pub key_of : Text → ContainerStatus → ContainerKey
key_of pod cs = record { pod = pod; container = cs.name }

-- The manager has a tailer for the container, started for this restart count.
pub record IsTracked (m : Manager) (k : ContainerKey) (count : ℕ) : Type 0 where
  pub context : ℕ
  pub entered : lookup k m.cancels ≡ some context
  pub current : lookup k m.restart_counts ≡ some count

-- No two statuses have one name, as Kubernetes demands of the containers of a pod.
abbrev pub HasNoName : Text → List ContainerStatus → Type 0
HasNoName name = All (λ cs. cs.name ≢ name)

abbrev pub DistinctNames : List ContainerStatus → Type 0
DistinctNames [] = Unit
DistinctNames (cs ∷ css) = HasNoName cs.name css × DistinctNames css

up_to_date-IsTracked :
    (k : ContainerKey) (count : ℕ) (m : Manager) → up_to_date k count m ≡ true → IsTracked m k count
unfolding up_to_date
up_to_date-IsTracked k count m h = go (lookup k m.cancels) (lookup k m.restart_counts) refl refl
  where
    go :
        (o p : Option ℕ)
        → lookup k m.cancels ≡ o
        → lookup k m.restart_counts ≡ p
        → IsTracked m k count
    go none p e f = absurd (ground arith)
    go (some c) none e f = absurd (ground arith)
    go (some c) (some n) e f = record { context = c; entered = e; current = ground arith }

tracked_up_to_date :
    (k : ContainerKey) (count : ℕ) (m : Manager) → IsTracked m k count → up_to_date k count m ≡ true
unfolding up_to_date
tracked_up_to_date k count m t = ground arith

restart_counts-stop :
    (key : ContainerKey) (m : Manager) → (stop_container key m).restart_counts ≡ m.restart_counts
unfolding stop_container
restart_counts-stop key m = ground arith

reconcile_container_tracks :
    (k : ContainerKey) (count : ℕ) (m : Manager) → IsTracked (reconcile_container k count m) k count
unfolding reconcile_container
reconcile_container_tracks k count m = elim (Bool-cases (up_to_date k count m)) [
  | inl kept ↦ rw kept (up_to_date-IsTracked k count m kept)
  | inr changed ↦ rw changed (record {
    context = (stop_container k m).next;
    entered =
        ground (arith, lookup-start_container k k count (stop_container k m), (key_beq_iff k k).1);
    current =
        unfold start_container in
        ground
          (arith, lookup-insert k k count (stop_container k m).restart_counts, (key_beq_iff k k).1);
  })
]

reconcile_container_spares :
    (key k : ContainerKey) (count n : ℕ) (m : Manager)
    → key ≢ k
    → IsTracked m k n
    → IsTracked (reconcile_container key count m) k n
unfolding reconcile_container
reconcile_container_spares key k count n m ne t = elim (Bool-cases (up_to_date key count m)) [
  | inl kept ↦ rw kept t
  | inr changed ↦ rw changed (record {
    context = t.context;
    entered = ground (
      arith,
      lookup-start_container key k count (stop_container key m),
      lookup-stop_container key k m,
      (key_beq_iff key k).0,
      t.entered,
    );
    current = current_after t.current;
  })
]
  where
    current_after :
        lookup k m.restart_counts ≡ some n
        → lookup k (start_container key count (stop_container key m)).restart_counts ≡ some n
    current_after e =
        unfold start_container in
        ground (
          arith,
          lookup-insert key k count (stop_container key m).restart_counts,
          restart_counts-stop key m,
          (key_beq_iff key k).0,
        )

reconcile_all_spares :
    (pod : Text) (css : List ContainerStatus) (k : ContainerKey) (n : ℕ) (m : Manager)
    → HasNoName k.container css
    → IsTracked m k n
    → IsTracked (reconcile_all pod css m) k n
unfolding reconcile_all
reconcile_all_spares pod [] k n m h t = t
reconcile_all_spares pod (cs ∷ css) k n m h t = reconcile_all_spares pod css k n _ h.1 (
    reconcile_container_spares (key_of pod cs) k cs.restart_count n m
      (λ e. h.0 (ap (λ j. j.container) e)) t)

reconcile_all_tracks :
    (pod : Text) (css : List ContainerStatus) (m : Manager)
    → DistinctNames css
    → All (λ cs. IsTracked (reconcile_all pod css m) (key_of pod cs) cs.restart_count) css
unfolding reconcile_all
reconcile_all_tracks pod [] m d = tt
reconcile_all_tracks pod (cs ∷ css) m d = (
  reconcile_all_spares pod css (key_of pod cs) cs.restart_count _ d.0
      (reconcile_container_tracks (key_of pod cs) cs.restart_count m),
  reconcile_all_tracks pod css _ d.1,
)

reconcile_pod_other :
    (pod : Pod) (m : Manager)
    → is_self m pod ≡ false
    → reconcile_pod pod m ≡ reconcile_all pod.name (statuses_of m pod) m
unfolding reconcile_pod
reconcile_pod_other pod m h = rw h

reconcile_pod_self : (pod : Pod) (m : Manager) → is_self m pod ≡ true → reconcile_pod pod m ≡ m
unfolding reconcile_pod
reconcile_pod_self pod m h = rw h

-- A tailer of the container that runs, started for this restart count.
abbrev pub IsTailed : Manager → ContainerKey → ℕ → Type 0
IsTailed m k count =
    (c : ℕ) × (m.tailers c ≡ some (record { key = k; cancelled = false }))
    × (lookup k m.cancels ≡ some c)
    × (lookup k m.restart_counts ≡ some count)

-- After reconcilePod of a pod that is not grepod's own, every container of its statuses, whose names
-- are distinct, is tailed by a live goroutine that was started for the restart count reported.
pub reconcile_pod_tails :
    (pod : Pod) (m : Manager)
    → Inv m
    → is_self m pod ≡ false
    → DistinctNames (statuses_of m pod)
    → All
        (λ cs. IsTailed (reconcile_pod pod m) (key_of pod.name cs) cs.restart_count)
        (statuses_of m pod)
reconcile_pod_tails pod m v other d = tailed (statuses_of m pod) (
    subst (λ n. All (λ cs. IsTracked n (key_of pod.name cs) cs.restart_count) (statuses_of m pod))
      (sym (reconcile_pod_other pod m other))
      (reconcile_all_tracks pod.name (statuses_of m pod) m d))
  where
    after : Inv (reconcile_pod pod m)
    after = reconcile_pod-Inv pod m v

    tailed :
        (css : List ContainerStatus)
        → All (λ cs. IsTracked (reconcile_pod pod m) (key_of pod.name cs) cs.restart_count) css
        → All (λ cs. IsTailed (reconcile_pod pod m) (key_of pod.name cs) cs.restart_count) css
    tailed [] h = tt
    tailed (cs ∷ css) h = (
      (
        h.0.context,
        after.owned (key_of pod.name cs) h.0.context h.0.entered,
        h.0.entered,
        h.0.current,
      ),
      tailed css h.1,
    )

reconcile_all_tracked :
    (pod : Text) (css : List ContainerStatus) (m : Manager)
    → All (λ cs. IsTracked m (key_of pod cs) cs.restart_count) css
    → reconcile_all pod css m ≡ m
unfolding reconcile_all reconcile_container
reconcile_all_tracked pod [] m h = refl
reconcile_all_tracked pod (cs ∷ css) m h =
    rw (tracked_up_to_date (key_of pod cs) cs.restart_count m h.0)
      (reconcile_all_tracked pod css m h.1)

reconcile_all_settings :
    (pod : Text) (css : List ContainerStatus) (m : Manager)
    → ((reconcile_all pod css m).include_init ≡ m.include_init)
      × ((reconcile_all pod css m).self_pod ≡ m.self_pod)
unfolding reconcile_all reconcile_container start_container stop_container
reconcile_all_settings pod [] m = (refl, refl)
reconcile_all_settings pod (cs ∷ css) m =
    let rest =
      reconcile_all_settings pod css (reconcile_container (key_of pod cs) cs.restart_count m) in
    (ground (arith, rest.0), ground (arith, rest.1))

-- A second report of the same pod, whose containers have distinct names, changes nothing: no
-- goroutine is started or cancelled.
pub reconcile_pod_idempotent :
    (pod : Pod) (m : Manager)
    → DistinctNames (statuses_of m pod)
    → reconcile_pod pod (reconcile_pod pod m) ≡ reconcile_pod pod m
reconcile_pod_idempotent pod m d = elim (Bool-cases (is_self m pod)) [
  | inl self ↦ let same = reconcile_pod_self pod m self in ap (reconcile_pod pod) same
  | inr other ↦
      let settings = reconcile_all_settings pod.name (statuses_of m pod) m in
      let after = reconcile_all pod.name (statuses_of m pod) m in
      let same : is_self after pod ≡ false = unfold is_self in rw settings.1 other in
      let statuses : statuses_of after pod ≡ statuses_of m pod =
        ap
          (λ b.
            if b
            then pod.init_container_statuses ++ pod.container_statuses
            else pod.container_statuses)
          settings.0 in
      rw (reconcile_pod_other pod m other, reconcile_pod_other pod after same)
        (ap (λ css. reconcile_all pod.name css after) statuses
          ∙ reconcile_all_tracked pod.name (statuses_of m pod) after
              (reconcile_all_tracks pod.name (statuses_of m pod) m d))
]
