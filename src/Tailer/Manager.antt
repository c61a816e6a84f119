-- ===== src/Tailer/Manager.antt =====
-- internal/tailer/manager.go: reconcilePod, startContainer, stopContainer and stopPod.
-- A goroutine is named by its context, a number: `tailers` holds every one that was spawned, and
-- whether its context was cancelled. The informer calls its handlers one after the other.
pub mod Inv
pub mod Reconcile
pub mod Stop
pub mod Self
mod Tests
use grepod.Prelude.{
  ℕ, suc, ◌+◌, ◌≡◌, Bool, true, false, Option, none, some, List, [], ◌∷◌, ◌++◌, map, keep, nat_beq,
  update, if◌then◌else◌, not, ◌&&◌, Text, text_beq, is_empty,
}
use grepod.Prelude.Maps.{lookup, insert, delete}
use grepod.Tailer.Key.{ContainerKey, key_eq}
use grepod.Tailer.Markers.{Markers, delete_marker}

pub record Tailer : Type 0 where
  pub key : ContainerKey
  pub cancelled : Bool

pub record ContainerStatus : Type 0 where
  pub name : Text
  pub restart_count : ℕ

pub record Pod : Type 0 where
  pub name : Text
  pub init_container_statuses : List ContainerStatus
  pub container_statuses : List ContainerStatus

pub record Manager : Type 0 where
  pub include_init : Bool
  pub self_pod : Text
  pub cancels : List (ContainerKey × ℕ)
  pub restart_counts : List (ContainerKey × ℕ)
  pub markers : Markers
  pub tailers : ℕ → Option Tailer
  pub next : ℕ

unfoldable pub new_manager : Bool → Text → Manager
new_manager include_init self_pod = record {
  include_init = include_init;
  self_pod = self_pod;
  cancels = [];
  restart_counts = [];
  markers = [];
  tailers = λ c. none;
  next = 0;
}

pub start_container : ContainerKey → ℕ → Manager → Manager
start_container key restart_count m = record m {
  cancels = insert key m.next m.cancels;
  restart_counts = insert key restart_count m.restart_counts;
  tailers = update m.tailers m.next (some (record { key = key; cancelled = false }));
  next = m.next + 1;
}

-- What cancel() does to the goroutine of a context.
abbrev cancelled_of : Option Tailer → Option Tailer
cancelled_of none = none
cancelled_of (some t) = some (record t { cancelled = true })

pub stop_container : ContainerKey → Manager → Manager
stop_container key m = elim (lookup key m.cancels) [
  | none ↦ m
  | some c ↦ record m {
    cancels = delete key m.cancels;
    tailers = update m.tailers c (cancelled_of (m.tailers c));
  }
]

-- `running && seen && lastCount == cs.RestartCount`
up_to_date : ContainerKey → ℕ → Manager → Bool
up_to_date key count m = elim (lookup key m.cancels) [
  | none ↦ false
  | some c ↦ elim (lookup key m.restart_counts) [ none ↦ false | some last ↦ nat_beq last count ]
]

pub reconcile_container : ContainerKey → ℕ → Manager → Manager
reconcile_container key count m =
    if up_to_date key count m then m else start_container key count (stop_container key m)

pub reconcile_all : Text → List ContainerStatus → Manager → Manager
reconcile_all pod [] m = m
reconcile_all pod (cs ∷ css) m =
    reconcile_all pod css
      (reconcile_container (record { pod = pod; container = cs.name }) cs.restart_count m)

abbrev pub statuses_of : Manager → Pod → List ContainerStatus
statuses_of m pod =
    if m.include_init
    then pod.init_container_statuses ++ pod.container_statuses
    else pod.container_statuses

pub is_self : Manager → Pod → Bool
is_self m pod = not (is_empty m.self_pod) && text_beq pod.name m.self_pod

pub reconcile_pod : Pod → Manager → Manager
unfolding is_self
reconcile_pod pod m = if is_self m pod then m else reconcile_all pod.name (statuses_of m pod) m

-- The keys of a pod among those with a tailer.
pub keys_of : Text → List (ContainerKey × ℕ) → List ContainerKey
keys_of pod [] = []
keys_of pod ((k, c) ∷ cs) = if text_beq k.pod pod then k ∷ keys_of pod cs else keys_of pod cs

pub stop_keys : List ContainerKey → Manager → Manager
stop_keys [] m = m
stop_keys (k ∷ ks) m =
    let m' = stop_container k m in stop_keys ks (record m' { markers = delete_marker k m'.markers })

pub stop_pod : Text → Manager → Manager
stop_pod pod m = stop_keys (keys_of pod m.cancels) m

-- What the informer tells.
pub data PodEvent : Type 0 where
  added updated : Pod → PodEvent
  deleted : Text → PodEvent

pub handle : PodEvent → Manager → Manager
handle (added pod) m = reconcile_pod pod m
handle (updated pod) m = reconcile_pod pod m
handle (deleted name) m = stop_pod name m

pub handle_all : List PodEvent → Manager → Manager
handle_all [] m = m
handle_all (e ∷ es) m = handle_all es (handle e m)
