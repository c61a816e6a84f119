-- ===== src/Storage/Retention/Spared.antt =====
-- A day that is not expired is left alone by the retention, whatever the file system answers.
use grepod.Prelude.{
  ℕ, ◌≡◌, refl, ap, ◌∙◌, inl, inr, Bool, true, false, Option, none, some, List, [], ◌∷◌, nat_beq,
  Bool-cases, arith,
}
use grepod.Prelude.Int.{ℤ}
use grepod.Storage.Line.{Time}
use grepod.Storage.Insert.{Store, Faults, close_shard}
use grepod.Storage.Insert.Opened.{rows_of, IsReady}
use grepod.Storage.Retention.{
  Entry, shard_days, retention_days, is_expired, remove_file, sweep, cleanup_old_dbs,
}
use grepod.Storage.Retention.Expired.{kept_there, remove-IsReady, vacuum_all_keeps}

module _ (removes : ℕ → Bool) (now : Time) (days date : ℕ)
    (recent : is_expired now days date ≡ false) where
  other_day : (d : ℕ) → is_expired now days d ≡ true → nat_beq d date ≡ false
  other_day d old = elim (Bool-cases (nat_beq d date)) [
    | inr ne ↦ ne
    | inl same ↦
        let q : d ≡ date = ground (arith, same) in
        absurd (cc (old, recent, ap (is_expired now days) q))
  ]

  sweep_spares :
      (dates : List ℕ) (s : Store)
      → IsReady s
      → IsReady (sweep removes now days dates s).0
        × ((sweep removes now days dates s).0.files date ≡ s.files date)
  unfolding sweep
  sweep_spares [] s v = (v, refl)
  sweep_spares (d ∷ dates) s v = elim (Bool-cases (is_expired now days d)) [
    | inl old ↦
        let (v', same) =
          sweep_spares dates (remove_file removes d (close_shard d s))
            (remove-IsReady removes d s v) in
        rw old (v', same ∙ kept_there removes d date s (other_day d old))
    | inr young ↦ rw young (sweep_spares dates s v)
  ]

-- CleanupOldDBs, whatever it can read and remove, leaves the rows of a day that is not expired.
pub cleanup_spares :
    (faults : Faults) (removes : ℕ → Bool) (entries : Option (List Entry)) (now : Time) (n : ℤ)
    (date : ℕ) (s : Store)
    → is_expired now (retention_days n) date ≡ false
    → IsReady s
    → IsReady (cleanup_old_dbs faults removes entries now n s).0
      × (rows_of ((cleanup_old_dbs faults removes entries now n s).0.files date)
          ≡ rows_of (s.files date))
unfolding cleanup_old_dbs
cleanup_spares faults removes none now n date s recent v = (v, refl)
cleanup_spares faults removes (some entries) now n date s recent v =
    let days = shard_days entries in
    let swept = sweep removes now (retention_days n) days s in
    let (v', same) = sweep_spares removes now (retention_days n) date recent days s v in
    let (v'', rows) = vacuum_all_keeps faults swept.1 swept.0 v' in
    (v'', rows date ∙ ap rows_of same)
