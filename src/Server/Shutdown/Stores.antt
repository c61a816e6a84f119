-- ===== src/Server/Shutdown/Stores.antt =====
-- The order of the shutdown: when main is about to close the store, all the lines that the queue took are
-- in it.
use grepod.Prelude.{
  ℕ, ◌≡◌, refl, sym, ap, ◌∙◌, ◌⊎◌, inl, inr, Bool, false, Option, some, List, [], ◌++◌,
  append_assoc, append-nil, Text, All, Bool-cases, Ensures_of_eq, nat_beq,
}
use grepod.Prelude.Int.{ℤ}
use grepod.Metrics.{Metrics}
use grepod.Storage.Line.{LogLine, Time}
use grepod.Storage.Shards.{day_of}
use grepod.Storage.Insert.{Store, Faults, group_of, close_all}
use grepod.Storage.Insert.Opened.{rows_of, IsReady}
use grepod.Storage.Insert.Works.{NoFaults}
use grepod.Storage.Queue.{BatchQueue, new_batch_queue, stopped}
use grepod.Storage.Queue.Held.{Held}
use grepod.Storage.Queue.Shutdown.{IsEmptied}
use grepod.Storage.Queue.Pipeline.{store_insert}
use grepod.Storage.Queue.Pipeline.Stored.{DaysOf, batch_stored, keep-append}
use grepod.Storage.Retention.{retention_days, is_expired}
use grepod.Storage.Retention.Spared.{cleanup_spares}
use grepod.Storage.Retention.Cron.{Cleanup}
use grepod.Server.Shutdown.{Process, Happening, clean_store, new_process, happen_all, accepted_in}
use grepod.Server.Shutdown.Known.{queue_closed}
use grepod.Server.Shutdown.Steps.{happen_all-Known, new_process-Known}
use grepod.Server.Shutdown.Lines.{Spares, happen_all-Held}

-- A cleanup for which a day is not expired.
abbrev pub SparesDay : ℤ → ℕ → Time → Cleanup → Type 0
SparesDay retention date now c = is_expired now (retention_days retention) date ≡ false

module _ (faults : Faults) (days : List LogLine → List ℕ) (fine : NoFaults faults)
    (keys : DaysOf days) (store : Store) (size interval timeout : ℤ) (m : Option Metrics)
    (retention : ℤ) (date : ℕ) where
  -- The day's shard holds what it held at the start, and then the lines of the day among some lines.
  HoldsDay : List LogLine → Store → Type 0
  HoldsDay f s =
      IsReady s × (rows_of (s.files date) ≡ rows_of (store.files date) ++ group_of date f)

  grows :
      (t : Option ℕ) (b f : List LogLine) (s : Store)
      → HoldsDay f s
      → HoldsDay (f ++ b) (store_insert faults days t b s).0
  unfolding HoldsDay
  grows t b f s (v, rows) =
      let (v', grown) = batch_stored faults days fine keys t b s v in
      (
        v',
        grown date
            ∙ (ap (λ r. r ++ group_of date b) rows
                ∙ (append_assoc (rows_of (store.files date)) (group_of date f) (group_of date b)
                    ∙ ap (λ r. rows_of (store.files date) ++ r)
                        (sym (keep-append (λ l. nat_beq (day_of l.timestamp) date) f b)))),
      )

  stays :
      (now : Time) (c : Cleanup) (f : List LogLine) (s : Store)
      → SparesDay retention date now c
      → HoldsDay f s
      → HoldsDay f (clean_store retention now c s)
  unfolding HoldsDay clean_store
  stays now c f s recent (v, rows) =
      let (v', same) = cleanup_spares c.faults c.removes c.entries now retention date s recent v in
      (v', same ∙ rows)

  stored_by :
      (acc : List LogLine) (q : BatchQueue Store)
      → Held HoldsDay acc q
      → IsEmptied q
      → q.phase ≡ stopped
      → rows_of (q.store.files date) ≡ rows_of (store.files date) ++ group_of date acc
  unfolding HoldsDay
  stored_by acc q c (inl live) e = absurd (live e)
  stored_by acc q c (inr (i, b)) e =
      let all : c.flushed ≡ acc = sym (append-nil c.flushed) ∙ (rw (b, i) at c.split) in
      c.holds.1 ∙ ap (λ ls. rows_of (store.files date) ++ group_of date ls) all

  -- Where SQLite refuses no insert, no insert's context has ended, the days of each batch are taken
  -- once each, in any order, the handles of the store stand for files with the table, and no cleanup
  -- begins when the day at hand is expired: whatever happens from the point where main waits for a
  -- signal, in any order, the process does not panic; and unless main has not got past queue.Close() yet,
  -- the shard of the day holds what it held at the start, and behind it all the lines of that day that the
  -- channel of the queue took from the tailers over what happened, in their order.
  pub shutdown_stores :
      (include_init : Bool) (self_pod : Text) (hs : List Happening)
      → IsReady store
      → All (Spares (SparesDay retention date)) hs
      → (p : Process Store) × (happen_all
            (store_insert faults days)
            close_all
            (clean_store retention)
            hs
            (new_process (new_batch_queue store size interval timeout m) include_init self_pod)
          ≡ some p)
        × ((queue_closed p.stage ≡ false)
            ⊎ (rows_of (p.queue.store.files date)
                ≡ rows_of (store.files date)
                  ++ group_of date (
                      accepted_in (store_insert faults days) close_all (clean_store retention) hs (
                        new_process
                          (new_batch_queue store size interval timeout m)
                          include_init
                          self_pod))))
  shutdown_stores include_init self_pod hs ready spared =
      let insert = store_insert faults days in
      let clean_up = clean_store retention in
      let p0 = new_process (new_batch_queue store size interval timeout m) include_init self_pod in
      let w =
        happen_all-Known insert close_all clean_up hs p0
          (new_process-Known store size interval timeout m include_init self_pod) in
      let held : Held HoldsDay (accepted_in insert close_all clean_up hs p0) w.next.queue =
        Ensures_of_eq _ _
          (happen_all-Held insert close_all clean_up HoldsDay grows (SparesDay retention date) stays
            hs [] p0 spared (begin ready))
          w.went in
      (
        w.next,
        w.went,
        elim (Bool-cases (queue_closed w.next.stage)) [
          | inr before ↦ inl before
          | inl closed ↦
              inr (stored_by _ w.next.queue held w.known.emptied (w.known.is_closed closed))
        ],
      )
    where
      begin :
          IsReady store
          → Held HoldsDay []
              (new_process
                (new_batch_queue store size interval timeout m)
                include_init
                self_pod).queue
      begin ready =
          unfold HoldsDay new_process new_batch_queue in
          record { flushed = []; holds = (ready, sym (append-nil _)); split = refl }
