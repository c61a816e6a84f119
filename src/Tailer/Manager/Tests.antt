-- ===== src/Tailer/Manager/Tests.antt =====
-- The manager of internal/tailer/manager.go on a pod whose container restarts.
use grepod.Prelude.{ℕ, ◌≡◌, ◌≢◌, refl, true, false, some, none, List, [], ◌∷◌, Text, codes, All}
use grepod.Prelude.Maps.{lookup, insert, delete}
use grepod.Tailer.Key.{ContainerKey, key_beq, key_eq}
use grepod.Tailer.Manager.{
  Tailer, ContainerStatus, Pod, Manager, new_manager, reconcile_pod, reconcile_all,
  reconcile_container, start_container, stop_container, stop_pod, is_self, statuses_of, up_to_date,
  PodEvent, added, updated, handle, handle_all,
}
use grepod.Tailer.Manager.Inv.{Inv, handle_all_new-Inv, one_live_tailer}
use grepod.Tailer.Manager.Reconcile.{
  key_of, DistinctNames, IsTailed, reconcile_pod_tails, reconcile_pod_idempotent,
}
use grepod.Tailer.Manager.Stop.{stop_pod_stops}
use grepod.Tailer.Manager.Self.{self_never_tailed}

abbrev app : ContainerKey
app = record { pod = codes "web"; container = codes "app" }

abbrev status : Text → ℕ → ContainerStatus
status name count = record { name = name; restart_count = count }

abbrev web : Pod
web = record {
  name = codes "web";
  init_container_statuses = [];
  container_statuses = status (codes "app") 0 ∷ status (codes "proxy") 0 ∷ [];
}

abbrev restarted : Pod
restarted = record web { container_statuses = status (codes "app") 1 ∷ [] }

abbrev history : List PodEvent
history = added web ∷ updated restarted ∷ []

abbrev grepod_pod : Text
grepod_pod = codes "grepod-0"

abbrev manager : Manager
manager = handle_all history (new_manager false grepod_pod)

handle_all_new-Inv_example : Inv (handle_all history (new_manager false grepod_pod))
handle_all_new-Inv_example = handle_all_new-Inv false grepod_pod history

manager-Inv : Inv manager
manager-Inv = handle_all_new-Inv false grepod_pod history

-- The first tailer of the container was cancelled, and the third is its successor.
third_tailer : manager.tailers 2 ≡ some (record { key = app; cancelled = false })
unfolding handle_all handle reconcile_pod is_self reconcile_all reconcile_container up_to_date
    start_container stop_container new_manager lookup insert delete key_beq
third_tailer = refl

one_live_tailer_example : let c : ℕ = 2 in c ≡ 2
one_live_tailer_example =
    one_live_tailer false grepod_pod history 2 2 (record { key = app; cancelled = false })
      (record { key = app; cancelled = false }) third_tailer third_tailer refl refl refl

self_never_tailed_example : codes "web" ≢ grepod_pod
self_never_tailed_example =
    self_never_tailed grepod_pod (λ e. cc) false history 2 (record { key = app; cancelled = false })
      third_tailer

not_self : is_self manager web ≡ false
unfolding is_self handle_all handle reconcile_pod reconcile_all reconcile_container up_to_date
    start_container stop_container new_manager lookup insert delete key_beq
not_self = refl

web-DistinctNames : DistinctNames (statuses_of manager web)
unfolding is_self handle_all handle reconcile_pod reconcile_all reconcile_container up_to_date
    start_container stop_container new_manager lookup insert delete key_beq
web-DistinctNames = ((λ e. cc, tt), (tt, tt))

reconcile_pod_tails_example :
    All
      (λ cs. IsTailed (reconcile_pod web manager) (key_of (codes "web") cs) cs.restart_count)
      (statuses_of manager web)
reconcile_pod_tails_example = reconcile_pod_tails web manager manager-Inv not_self web-DistinctNames

reconcile_pod_idempotent_example :
    reconcile_pod web (reconcile_pod web manager) ≡ reconcile_pod web manager
reconcile_pod_idempotent_example = reconcile_pod_idempotent web manager web-DistinctNames

stop_pod_stops_example :
    ((c : ℕ) (t : Tailer)
      → (stop_pod (codes "web") manager).tailers c ≡ some t
      → t.key.pod ≡ codes "web"
      → t.cancelled ≡ true)
    × ((k : ContainerKey) (c : ℕ)
        → lookup k manager.cancels ≡ some c
        → k.pod ≡ codes "web"
        → lookup k (stop_pod (codes "web") manager).markers ≡ none)
    × ((c : ℕ) (t : Tailer)
        → manager.tailers c ≡ some t
        → t.cancelled ≡ false
        → t.key.pod ≢ codes "web"
        → (stop_pod (codes "web") manager).tailers c ≡ some t)
    × ((k : ContainerKey)
        → k.pod ≢ codes "web"
        → lookup k (stop_pod (codes "web") manager).markers ≡ lookup k manager.markers)
stop_pod_stops_example = stop_pod_stops (codes "web") manager manager-Inv
