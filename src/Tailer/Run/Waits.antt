-- ===== src/Tailer/Run/Waits.antt =====
-- When Run has returned, no tailer that could enqueue a line is left.
use grepod.Prelude.{
  ℕ, ap, ◌∙◌, ◌≡◌, refl, inl, inr, Bool, true, false, Option, none, some, List, [], ◌∷◌, remove,
  arith, Bool-cases, Text,
}
use grepod.Tailer.Manager.{Manager, PodEvent, handle}
use grepod.Tailer.Run.{
  start_tailers, take_event, Run, RunPhase, starting, syncing, following, waiting, returned, failed,
  RunEvent, registers, notices, syncs, cancels, goes_on, exits, new_run, take_notice, event_of,
  go_on, register, sync, run_step, is_over, is_started, is_empty_list,
}

-- A phase behind <-ctx.Done() finds the context done, and no tailer runs in one behind wg.Wait(), nor
-- before the informer is started.
pub record Waited (r : Run) : Type 0 where
  pub done_waiting : r.phase ≡ waiting → r.ctx_done ≡ true
  pub done_returned : r.phase ≡ returned → r.ctx_done ≡ true
  pub none_running : r.phase ≡ returned → r.running ≡ []
  pub none_started : is_started r.phase ≡ false → r.running ≡ []

pub new_run-Waited :
    (include_init : Bool) (self_pod : Text) → Waited (new_run include_init self_pod)
unfolding new_run
new_run-Waited include_init self_pod = record {
  done_waiting = λ e. cc;
  done_returned = λ e. cc;
  none_running = λ e. cc;
  none_started = λ e. refl;
}

start_tailers-Waited :
    (m : Manager) (r : Run) → is_started r.phase ≡ true → Waited r → Waited (start_tailers m r)
unfolding start_tailers
start_tailers-Waited m r h v = record {
  done_waiting = λ q. ground (arith, v.done_waiting);
  done_returned = λ q. ground (arith, v.done_returned);
  none_running = λ q. ground (arith, v.done_returned, v.none_running);
  none_started = λ q. ground (arith, h);
}

take_event-Waited :
    (o : Option PodEvent) (r : Run) → is_started r.phase ≡ true → Waited r → Waited (take_event o r)
unfolding take_event
take_event-Waited none r h v = v
take_event-Waited (some e) r h v = start_tailers-Waited (handle e r.manager) r h v

is_empty_list→≡ : (xs : List ℕ) → is_empty_list xs ≡ true → xs ≡ []
is_empty_list→≡ [] h = refl
is_empty_list→≡ (x ∷ xs) h = cc

go_on-Waited : (p : RunPhase) (r : Run) → r.phase ≡ p → Waited r → Waited (go_on p r)
unfolding go_on
go_on-Waited following r e v = record {
  done_waiting = λ q. ground (arith, e, v.done_waiting);
  done_returned = λ q. ground (arith, e, v.done_returned);
  none_running = λ q. ground (arith, e, v.none_running);
  none_started = λ q. ground (arith, e);
}
go_on-Waited waiting r e v = record {
  done_waiting = λ q. ground (arith, e, v.done_waiting);
  done_returned = λ q. ground (arith, e, v.done_waiting);
  none_running = λ q. ground (arith, e, v.none_running, is_empty_list→≡ r.running);
  none_started = λ q. ground (arith, e);
}
go_on-Waited _ r e v = v

register-Waited :
    (p : RunPhase) (ok : Bool) (r : Run) → r.phase ≡ p → Waited r → Waited (register p ok r)
unfolding register
register-Waited starting true r e v = record {
  done_waiting = λ q. cc;
  done_returned = λ q. cc;
  none_running = λ q. cc;
  none_started = λ q. cc;
}
register-Waited starting false r e v = record {
  done_waiting = λ q. cc;
  done_returned = λ q. cc;
  none_running = λ q. cc;
  none_started = λ q. v.none_started (ground (arith, e));
}
register-Waited _ ok r e v = v

sync-Waited : (p : RunPhase) (oks : List Bool) (r : Run) → Waited r → Waited (sync p oks r)
unfolding sync
sync-Waited syncing oks r v = record {
  done_waiting = λ q. cc;
  done_returned = λ q. cc;
  none_running = λ q. cc;
  none_started = λ q. cc;
}
sync-Waited _ oks r v = v

remove_nil : (c : ℕ) (xs : List ℕ) → xs ≡ [] → remove c xs ≡ []
remove_nil c [] h = refl
remove_nil c (x ∷ xs) h = cc

pub run_step-Waited : (e : RunEvent) (r : Run) → Waited r → Waited (run_step e r)
unfolding run_step take_notice
run_step-Waited (registers ok) r v = register-Waited r.phase ok r refl v
run_step-Waited (notices n) r v = elim (Bool-cases (is_started r.phase)) [
  | inl e ↦ simp e (take_event-Waited (event_of n) r e v)
  | inr e ↦ simp e v
]
run_step-Waited (syncs oks) r v = sync-Waited r.phase oks r v
run_step-Waited cancels r v = record {
  done_waiting = λ q. refl;
  done_returned = λ q. refl;
  none_running = v.none_running;
  none_started = v.none_started;
}
run_step-Waited goes_on r v = go_on-Waited r.phase r refl v
run_step-Waited (exits c) r v = record {
  done_waiting = λ q. ground (arith, v.done_waiting);
  done_returned = λ q. ground (arith, v.done_returned);
  none_running = λ q. ground (arith, v.none_running, remove_nil c r.running);
  none_started = λ q. ground (arith, v.none_started, remove_nil c r.running);
}

over-running : (p : RunPhase) (r : Run) → r.phase ≡ p → is_over p ≡ true → Waited r → r.running ≡ []
over-running returned r e h v = v.none_running e
over-running failed r e h v = v.none_started (rw e refl)
over-running starting r e h v = cc
over-running syncing r e h v = cc
over-running following r e h v = cc
over-running waiting r e h v = cc

-- When Run has returned, no tailer runs.
pub running_none : (r : Run) → Waited r → is_over r.phase ≡ true → r.running ≡ []
running_none r v h = over-running r.phase r refl h v

go_on-over : (p : RunPhase) (r : Run) → is_over p ≡ true → (go_on p r).phase ≡ r.phase
unfolding go_on
go_on-over returned r h = refl
go_on-over failed r h = refl
go_on-over starting r h = refl
go_on-over syncing r h = refl
go_on-over following r h = cc
go_on-over waiting r h = cc

register-over :
    (p : RunPhase) (ok : Bool) (r : Run) → is_over p ≡ true → (register p ok r).phase ≡ r.phase
unfolding register
register-over starting ok r h = cc
register-over returned ok r h = refl
register-over failed ok r h = refl
register-over syncing ok r h = refl
register-over following ok r h = refl
register-over waiting ok r h = refl

sync-over :
    (p : RunPhase) (oks : List Bool) (r : Run) → is_over p ≡ true → (sync p oks r).phase ≡ r.phase
unfolding sync
sync-over starting oks r h = refl
sync-over returned oks r h = refl
sync-over failed oks r h = refl
sync-over syncing oks r h = cc
sync-over following oks r h = refl
sync-over waiting oks r h = refl

take_event-phase : (o : Option PodEvent) (r : Run) → (take_event o r).phase ≡ r.phase
unfolding take_event start_tailers
take_event-phase none r = refl
take_event-phase (some e) r = ground arith

phase-over : (e : RunEvent) (r : Run) → is_over r.phase ≡ true → (run_step e r).phase ≡ r.phase
unfolding run_step take_notice
phase-over (registers ok) r h = register-over r.phase ok r h
phase-over (notices n) r h = elim (Bool-cases (is_started r.phase)) [
  | inl e ↦ simp e (take_event-phase (event_of n) r)
  | inr e ↦ simp e refl
]
phase-over (syncs oks) r h = sync-over r.phase oks r h
phase-over cancels r h = refl
phase-over goes_on r h = go_on-over r.phase r h
phase-over (exits c) r h = ground arith

-- Run does not begin again.
pub run_step-over :
    (e : RunEvent) (r : Run) → is_over r.phase ≡ true → is_over (run_step e r).phase ≡ true
run_step-over e r h = ap is_over (phase-over e r h) ∙ h
