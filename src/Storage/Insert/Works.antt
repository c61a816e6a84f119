-- ===== src/Storage/Insert/Works.antt =====
-- InsertBatch where SQLite refuses nothing.
use grepod.Prelude.{
  ℕ, ◌≡◌, refl, Bool, true, false, Option, none, some, List, [], ◌∷◌, contains, inl, inr,
  Bool-cases,
}
use grepod.Storage.Line.{LogLine}
use grepod.Storage.Insert.{
  File, no_table, table, Store, Faults, create_table, migrate_legacy_schema, keep_handle,
  get_or_open_db, all_execute, insert_group, group_of, and_then, insert_groups, insert_batch,
}

pub record NoFaults (faults : Faults) : Type 0 where
  pub opens : (date : ℕ) → faults.opens date ≡ true
  pub inits : (date : ℕ) → faults.inits date ≡ true
  pub checks : (date : ℕ) → faults.checks date ≡ true
  pub drops : (date : ℕ) → faults.drops date ≡ true
  pub recreates : (date : ℕ) → faults.recreates date ≡ true
  pub begins : (date : ℕ) → faults.begins date ≡ true
  pub prepares : (date : ℕ) → faults.prepares date ≡ true
  pub executes : (date : ℕ) (l : LogLine) → faults.executes date l ≡ true
  pub commits : (date : ℕ) → faults.commits date ≡ true

module _ (faults : Faults) (fine : NoFaults faults) where
  migrate_works :
      (date : ℕ) (f : Option File) → (migrate_legacy_schema faults date (create_table f)).1 ≡ true
  unfolding migrate_legacy_schema create_table
  migrate_works date none = simp (fine.checks date)
  migrate_works date (some no_table) = simp (fine.checks date)
  migrate_works date (some (table true rows)) = simp (fine.checks date)
  migrate_works date (some (table false rows)) =
      simp (fine.checks date, fine.drops date, fine.recreates date)

  keep_handle_ok :
      (date : ℕ) (result : File × Bool) (s : Store)
      → result.1 ≡ true
      → (keep_handle date result s).1 ≡ true
  unfolding keep_handle
  keep_handle_ok date (f, true) s h = refl
  keep_handle_ok date (f, false) s h = cc

  open_works : (date : ℕ) (s : Store) → (get_or_open_db faults date s).1 ≡ true
  unfolding get_or_open_db
  open_works date s = elim (Bool-cases (contains s.dbs date)) [
    | inl e ↦ rw e refl
    | inr e ↦
        rw (e, fine.opens date, fine.inits date)
          (keep_handle_ok date _ s (migrate_works date (s.files date)))
  ]

  all_execute_works : (date : ℕ) (ls : List LogLine) → all_execute faults date ls ≡ true
  all_execute_works date [] = refl
  all_execute_works date (l ∷ ls) = rw (fine.executes date l) (all_execute_works date ls)

  group_works :
      (date : ℕ) (ls : List LogLine) (s : Store) → (insert_group faults date ls s).1 ≡ true
  unfolding insert_group
  group_works date ls s =
      rw (fine.begins date, fine.prepares date, all_execute_works date ls, fine.commits date) refl

  and_then_ok :
      (result : Store × Bool) (next : Store → Store × Bool)
      → result.1 ≡ true
      → ((s : Store) → (next s).1 ≡ true)
      → (and_then result next).1 ≡ true
  and_then_ok (s, true) next h k = k s
  and_then_ok (s, false) next h k = cc

  groups_work :
      (lines : List LogLine) (dates : List ℕ) (s : Store)
      → (insert_groups faults lines dates s).1 ≡ true
  unfolding insert_groups
  groups_work lines [] s = refl
  groups_work lines (date ∷ dates) s =
      and_then_ok (get_or_open_db faults date s) _ (open_works date s) (λ opened.
        and_then_ok (insert_group faults date (group_of date lines) opened) _
          (group_works date (group_of date lines) opened) (groups_work lines dates))

  pub insert_batch_works :
      (dates : List ℕ) (lines : List LogLine) (s : Store)
      → (insert_batch faults false dates lines s).1 ≡ true
  unfolding insert_batch
  insert_batch_works dates [] s = refl
  insert_batch_works dates (l ∷ ls) s = groups_work (l ∷ ls) dates s
