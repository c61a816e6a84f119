-- ===== src/Tailer/Run/Ends.antt =====
-- Run can always return once its context is done.
use grepod.Prelude.{
  ℕ, zero, suc, ◌+◌, ◌≤◌, ◌≡◌, refl, sym, ap, subst, Bool, true, false, Option, none, some, List,
  [], ◌∷◌, length, remove, arith, All,
}
use grepod.Tailer.Run.{
  Run, RunPhase, starting, syncing, following, waiting, returned, failed, RunEvent, registers,
  notices, syncs, cancels, goes_on, exits, go_on, register, sync, run_step, is_over, take_notice,
  take_event, start_tailers, event_of,
}
use grepod.Tailer.Manager.{PodEvent}

abbrev pub run_all : List RunEvent → Run → Run
run_all [] r = r
run_all (e ∷ es) r = run_all es (run_step e r)

-- All events but the end of the context.
abbrev pub is_own : RunEvent → Bool
is_own cancels = false
is_own _ = true

-- Events by which Run comes to return.
pub record Returns (r : Run) : Type 0 where
  pub es : List RunEvent
  pub own : All (λ e. is_own e ≡ true) es
  pub over : is_over (run_all es r).phase ≡ true

length-remove : (c : ℕ) (xs : List ℕ) → length (remove c xs) ≤ length xs
length-remove c [] = ground arith
length-remove c (x ∷ xs) = ground (arith, length-remove c xs)

length-remove_first : (c : ℕ) (xs : List ℕ) → length (remove c (c ∷ xs)) ≤ length xs
length-remove_first c xs = ground (arith, length-remove c xs)

begun_by : (e : RunEvent) (r : Run) → is_own e ≡ true → Returns (run_step e r) → Returns r
begun_by e r o v = record { es = e ∷ v.es; own = (o, v.own); over = v.over }

goes_on-returned :
    (r : Run)
    → r.phase ≡ waiting
    → r.running ≡ []
    → r.late ≡ []
    → (run_step goes_on r).phase ≡ returned
unfolding run_step go_on
goes_on-returned r w a b = rw (w, go_on, a, b) refl

exits-one :
    (c : ℕ) (r : Run)
    → r.ctx_done ≡ true
    → run_step (exits c) r ≡ record r { running = remove c r.running; late = remove c r.late }
unfolding run_step
exits-one c r d = rw d refl

-- wg.Wait(), with the tailers that are still there.
waits-Returns :
    (n : ℕ) (xs ys : List ℕ) (r : Run)
    → r.running ≡ xs
    → r.late ≡ ys
    → r.phase ≡ waiting
    → r.ctx_done ≡ true
    → length xs + length ys ≤ n
    → Returns r
waits-Returns n [] [] r er el w d h = record {
  es = goes_on ∷ [];
  own = (refl, tt);
  over = ap is_over (goes_on-returned r w er el);
}
waits-Returns zero (c ∷ xs) ys r er el w d h = absurd (omega (arith, h))
waits-Returns zero [] (c ∷ ys) r er el w d h = absurd (omega (arith, h))
waits-Returns (suc n) (c ∷ xs) ys r er el w d h = begun_by (exits c) r refl (
    subst Returns (sym (exits-one c r d)) (
      waits-Returns n (remove c (c ∷ xs)) (remove c ys) _ (ap (remove c) er) (ap (remove c) el) w d
        (omega (arith, h, length-remove_first c xs, length-remove c ys))))
waits-Returns (suc n) [] (c ∷ ys) r er el w d h = begun_by (exits c) r refl (
    subst Returns (sym (exits-one c r d)) (
      waits-Returns n [] (remove c (c ∷ ys)) _ (ap (remove c) er) (ap (remove c) el) w d
        (omega (arith, h, length-remove_first c ys))))

waiting-Returns : (r : Run) → r.phase ≡ waiting → r.ctx_done ≡ true → Returns r
waiting-Returns r w d =
    waits-Returns (length r.running + length r.late) r.running r.late r refl refl w d (omega arith)

following-Returns : (r : Run) → r.phase ≡ following → r.ctx_done ≡ true → Returns r
unfolding run_step go_on
following-Returns r w d =
    begun_by goes_on r refl
      (waiting-Returns (run_step goes_on r) (rw (w, go_on, d) refl) (rw (w, go_on, d) refl))

syncing-Returns : (r : Run) → r.phase ≡ syncing → r.ctx_done ≡ true → Returns r
unfolding run_step sync
syncing-Returns r w d =
    begun_by (syncs []) r refl
      (following-Returns (run_step (syncs []) r) (rw (w, sync) refl) (rw (w, sync) d))

starting-Returns : (r : Run) → r.phase ≡ starting → r.ctx_done ≡ true → Returns r
unfolding run_step register
starting-Returns r w d =
    begun_by (registers true) r refl
      (syncing-Returns (run_step (registers true) r) (rw (w, register) refl) (rw (w, register) d))

phase-Returns : (p : RunPhase) (r : Run) → r.phase ≡ p → r.ctx_done ≡ true → Returns r
phase-Returns starting r e d = starting-Returns r e d
phase-Returns syncing r e d = syncing-Returns r e d
phase-Returns following r e d = following-Returns r e d
phase-Returns waiting r e d = waiting-Returns r e d
phase-Returns returned r e d = record { es = []; own = tt; over = ap is_over e }
phase-Returns failed r e d = record { es = []; own = tt; over = ap is_over e }

pub run-Returns : (r : Run) → r.ctx_done ≡ true → Returns r
run-Returns r d = phase-Returns r.phase r refl d

take_event-done :
    (o : Option PodEvent) (r : Run) → r.ctx_done ≡ true → (take_event o r).ctx_done ≡ true
unfolding take_event start_tailers
take_event-done none r d = d
take_event-done (some e) r d = ground (arith, d)

register-done :
    (p : RunPhase) (ok : Bool) (r : Run) → r.ctx_done ≡ true → (register p ok r).ctx_done ≡ true
unfolding register
register-done starting ok r d = ground (arith, d)
register-done _ ok r d = d

sync-done :
    (p : RunPhase) (oks : List Bool) (r : Run) → r.ctx_done ≡ true → (sync p oks r).ctx_done ≡ true
unfolding sync
sync-done syncing oks r d = d
sync-done _ oks r d = d

go_on-done : (p : RunPhase) (r : Run) → r.ctx_done ≡ true → (go_on p r).ctx_done ≡ true
unfolding go_on
go_on-done following r d = ground (arith, d)
go_on-done waiting r d = ground (arith, d)
go_on-done _ r d = d

-- The end of the context stays.
pub run_step-done : (e : RunEvent) (r : Run) → r.ctx_done ≡ true → (run_step e r).ctx_done ≡ true
unfolding run_step take_notice
run_step-done (registers ok) r d = register-done r.phase ok r d
run_step-done (notices n) r d = ground (arith, d, take_event-done (event_of n) r d)
run_step-done (syncs oks) r d = sync-done r.phase oks r d
run_step-done cancels r d = refl
run_step-done goes_on r d = go_on-done r.phase r d
run_step-done (exits c) r d = ground (arith, d)
