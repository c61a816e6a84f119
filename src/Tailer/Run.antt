-- ===== src/Tailer/Run.antt =====
-- internal/tailer/manager.go: Run and Ready. What the informer and its cache do is a sequence of
-- events. `running` are the tailers that were started before the context was done and have not
-- returned; one that is started later finds its context done, and gets no stream to read.
pub mod Waits
pub mod Ends
use grepod.Prelude.{
  ℕ, zero, suc, ◌+◌, ◌-◌, Bool, true, false, Option, none, some, List, [], ◌∷◌, ◌++◌, ◌&&◌, ◌||◌,
  contains, remove, if◌then◌else◌, Text,
}
use grepod.Tailer.Manager.{
  Manager, Tailer, Pod, PodEvent, added, updated, deleted, handle, new_manager,
}

-- An object that the informer hands over: a pod, what it has kept of a deleted one, or another.
pub data Obj : Type 0 where
  pod_obj : Pod → Obj
  tombstone : Option Pod → Obj
  other_obj : Obj

pub data Notice : Type 0 where
  adds : Obj → Notice
  updates : Obj → Obj → Notice
  deletes : Obj → Notice

-- The three handlers, with their type assertions.
unfoldable pub event_of : Notice → Option PodEvent
event_of (adds (pod_obj pod)) = some (added pod)
event_of (updates old (pod_obj pod)) = some (updated pod)
event_of (deletes (pod_obj pod)) = some (deleted pod.name)
event_of (deletes (tombstone (some pod))) = some (deleted pod.name)
event_of _ = none

-- Where Run stands; `failed` is its return with an error.
pub data RunPhase : Type 0 where
  starting syncing following waiting returned failed : RunPhase

pub record Run : Type 0 where
  pub manager : Manager
  pub phase : RunPhase
  pub ctx_done : Bool
  pub ready : Bool
  pub running : List ℕ
  pub late : List ℕ

unfoldable pub new_run : Bool → Text → Run
unfolding new_manager
new_run include_init self_pod = record {
  manager = new_manager include_init self_pod;
  phase = starting;
  ctx_done = false;
  ready = false;
  running = [];
  late = [];
}

-- The contexts of the tailers that a handler has started.
abbrev pub contexts : ℕ → ℕ → List ℕ
contexts from zero = []
contexts from (suc n) = from ∷ contexts (suc from) n

-- A handler that has started tailers.
unfoldable pub start_tailers : Manager → Run → Run
start_tailers m r =
    let started = contexts r.manager.next (m.next - r.manager.next) in
    if r.ctx_done
    then record r { manager = m; late = started ++ r.late }
    else record r { manager = m; running = started ++ r.running }

unfoldable pub take_event : Option PodEvent → Run → Run
unfolding start_tailers
take_event none r = r
take_event (some e) r = start_tailers (handle e r.manager) r

unfoldable pub take_notice : Notice → Run → Run
unfolding take_event event_of
take_notice n r = take_event (event_of n) r

abbrev pub all_synced : List Bool → Bool
all_synced [] = true
all_synced (ok ∷ oks) = ok && all_synced oks

abbrev pub is_ended : Option Tailer → Bool
is_ended none = false
is_ended (some t) = t.cancelled

-- What can happen: the handlers are registered, or not; the informer tells something; the cache has
-- synced, or given up; the context is done; a tailer whose context is done returns; and Run goes on.
pub data RunEvent : Type 0 where
  registers : Bool → RunEvent
  notices : Notice → RunEvent
  syncs : List Bool → RunEvent
  cancels goes_on : RunEvent
  exits : ℕ → RunEvent

abbrev pub is_empty_list : List ℕ → Bool
is_empty_list [] = true
is_empty_list (x ∷ xs) = false

-- <-ctx.Done(), and then wg.Wait().
unfoldable pub go_on : RunPhase → Run → Run
go_on following r = if r.ctx_done then record r { phase = waiting } else r
go_on waiting r =
    if is_empty_list r.running && is_empty_list r.late then record r { phase = returned } else r
go_on _ r = r

unfoldable pub register : RunPhase → Bool → Run → Run
register starting ok r = if ok then record r { phase = syncing } else record r { phase = failed }
register _ ok r = r

-- Once the cache has synced, or the context is done.
unfoldable pub sync : RunPhase → List Bool → Run → Run
sync syncing oks r = record r { ready = all_synced oks; phase = following }
sync _ oks r = r

-- The informer runs once the factory is started.
abbrev pub is_started : RunPhase → Bool
is_started starting = false
is_started failed = false
is_started _ = true

-- Run has returned, so that its goroutine closes `mgrDone`.
abbrev pub is_over : RunPhase → Bool
is_over returned = true
is_over failed = true
is_over _ = false

unfoldable pub run_step : RunEvent → Run → Run
unfolding take_notice go_on register sync
run_step (registers ok) r = register r.phase ok r
run_step (notices n) r = if is_started r.phase then take_notice n r else r
run_step (syncs oks) r = sync r.phase oks r
run_step cancels r = record r { ctx_done = true }
run_step goes_on r = go_on r.phase r
run_step (exits c) r =
    if r.ctx_done || is_ended (r.manager.tailers c)
    then record r { running = remove c r.running; late = remove c r.late }
    else r

-- Ready.
abbrev pub is_ready : Run → Bool
is_ready r = r.ready
