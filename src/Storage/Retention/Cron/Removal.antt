-- ===== src/Storage/Retention/Cron/Removal.antt =====
-- What the daily loop leaves of the shards.
use grepod.Prelude.{
  ℕ, ◌+◌, ◌≡◌, refl, ◌∙◌, ◌⊎◌, inl, inr, Bool, true, some, none, List, [], ◌∷◌, contains, All,
  Bool-cases, Option,
}
use grepod.Prelude.Int.{ℤ}
use grepod.Storage.Line.{Time}
use grepod.Storage.Insert.{Store, Faults}
use grepod.Storage.Insert.Opened.{rows_of, IsReady}
use grepod.Storage.Retention.{Entry, shard_days, retention_days, is_expired, cleanup_old_dbs}
use grepod.Storage.Retention.Expired.{cleanup_old_dbs_lem}
use grepod.Storage.Retention.Cron.{next_three_am, Cleanup, Wake, fires, stops, start_retention_cron}

-- A cleanup that can remove files.
abbrev pub CanRemove : Wake → Type 0
CanRemove stops = Unit
CanRemove (fires c) = (date : ℕ) → c.removes date ≡ true

-- A store whose handles have their files, and what it finds of a day: nothing, or what was there.
record Thinned (s s' : Store) : Type 0 where
  ready : IsReady s'
  each : (d : ℕ) → (rows_of (s'.files d) ≡ []) ⊎ (rows_of (s'.files d) ≡ rows_of (s.files d))

cleanup-Thinned :
    (faults : Faults) (removes : ℕ → Bool) (entries : Option (List Entry)) (now : Time) (n : ℤ)
    (s : Store)
    → ((date : ℕ) → removes date ≡ true)
    → IsReady s
    → Thinned s (cleanup_old_dbs faults removes entries now n s).0
cleanup-Thinned faults removes none now n s works v =
    unfold cleanup_old_dbs in record { ready = v; each = λ d. inr refl }
cleanup-Thinned faults removes (some entries) now n s works v =
    let (ready, each) = cleanup_old_dbs_lem faults removes entries now n s works v in
    record {
      ready = ready;
      each = λ d. elim (Bool-cases (contains (shard_days entries) d)) [
        | inl listed ↦ elim (Bool-cases (is_expired now (retention_days n) d)) [
          | inl old ↦ inl (each d ∙ rw (listed, old) refl)
          | inr recent ↦ inr (each d ∙ rw (listed, recent) refl)
        ]
        | inr other ↦ inr (each d ∙ rw other refl)
      ];
    }

Thinned-trans : {s s' s'' : Store} → Thinned s s' → Thinned s' s'' → Thinned s s''
Thinned-trans t t' = record {
  ready = t'.ready;
  each = λ d. elim (t'.each d) [
    | inl e ↦ inl e
    | inr e ↦ elim (t.each d) [ inl q ↦ inl (e ∙ q) | inr q ↦ inr (e ∙ q) ]
  ];
}

cron-Thinned :
    (n : ℤ) (now : Time) (wakes : List Wake) (s : Store)
    → All CanRemove wakes
    → IsReady s
    → Thinned s (start_retention_cron n now wakes s).0
unfolding start_retention_cron
cron-Thinned n now [] s h v = record { ready = v; each = λ d. inr refl }
cron-Thinned n now (stops ∷ wakes) s h v = record { ready = v; each = λ d. inr refl }
cron-Thinned n now (fires c ∷ wakes) s h v =
    let began = next_three_am now + c.late in
    let t = cleanup-Thinned c.faults c.removes c.entries began n s h.0 v in
    Thinned-trans t (cron-Thinned n (began + c.took) wakes _ h.1 t.ready)

stays_empty :
    {s s' : Store} → Thinned s s' → (d : ℕ) → rows_of (s.files d) ≡ [] → rows_of (s'.files d) ≡ []
stays_empty t d e = elim (t.each d) [ inl q ↦ q | inr q ↦ q ∙ e ]

-- Where files can be removed and the handles of the store have their files, whatever SQLite does in the
-- vacuums: a shard that the directory lists at the first cleanup of StartRetentionCron, and whose day
-- began before the cutoff of that cleanup, holds no line when the loop has gone through any further
-- rounds; and of every day the store then has all the lines that it had, or none.
pub cron_removes :
    (n : ℤ) (now : Time) (c : Cleanup) (wakes : List Wake) (s : Store) (entries : List Entry)
    → All CanRemove (fires c ∷ wakes)
    → IsReady s
    → c.entries ≡ some entries
    → let s' = (start_retention_cron n now (fires c ∷ wakes) s).0 in
      ((d : ℕ)
        → contains (shard_days entries) d ≡ true
        → is_expired (next_three_am now + c.late) (retention_days n) d ≡ true
        → rows_of (s'.files d) ≡ [])
      × ((d : ℕ) → (rows_of (s'.files d) ≡ []) ⊎ (rows_of (s'.files d) ≡ rows_of (s.files d)))
unfolding start_retention_cron
cron_removes n now c wakes s entries h v e =
    let began = next_three_am now + c.late in
    let (ready, each) = cleanup_old_dbs_lem c.faults c.removes entries began n s h.0 v in
    let later = cron-Thinned n (began + c.took) wakes _ h.1 ready in
    (
      λ d listed old. simp e (stays_empty later d (each d ∙ rw (listed, old) refl)),
      (cron-Thinned n now (fires c ∷ wakes) s h v).each,
    )
