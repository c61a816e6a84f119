-- ===== src/Storage/Retention/Expired.antt =====
-- What the retention removes, and what it keeps.
use grepod.Prelude.{
  ℕ, ◌≡◌, inl, inr, refl, sym, ap, ◌∙◌, Bool, true, false, none, some, List, [], ◌∷◌, contains,
  contains-remove, update-cases, nat_beq, if◌then◌else◌, Bool-cases, arith,
}
use grepod.Prelude.Int.{ℤ}
use grepod.Storage.Line.{LogLine, Time}
use grepod.Storage.Insert.{Store, Faults, get_or_open_db, close_shard}
use grepod.Storage.Insert.Opened.{rows_of, HasTable, IsReady, get_or_open_db-Opened}
use grepod.Storage.Retention.{
  Entry, shard_days, retention_days, is_expired, remove_file, sweep, vacuum_shard, vacuum_all,
  cleanup_old_dbs,
}

removed_here :
    (removes : ℕ → Bool) (date : ℕ) (s : Store)
    → removes date ≡ true
    → rows_of ((remove_file removes date (close_shard date s)).files date) ≡ []
unfolding remove_file close_shard
removed_here removes date s h = rw h (
    update-cases (λ f. rows_of f ≡ []) s.files date none date (λ q. refl)
      (λ ne. absurd (ground (arith, ne))))

pub kept_there :
    (removes : ℕ → Bool) (date d : ℕ) (s : Store)
    → nat_beq date d ≡ false
    → (remove_file removes date (close_shard date s)).files d ≡ s.files d
unfolding remove_file close_shard
kept_there removes date d s ne = elim (Bool-cases (removes date)) [
  | inl e ↦ rw (e, ne) refl
  | inr e ↦ rw e refl
]

-- Removing a file whose handle was closed leaves the other handles with their files.
pub remove-IsReady :
    (removes : ℕ → Bool) (date : ℕ) (s : Store)
    → IsReady s
    → IsReady (remove_file removes date (close_shard date s))
unfolding remove_file close_shard
remove-IsReady removes date s v = elim (Bool-cases (removes date)) [
  | inl e ↦ rw e (record {
    ready = λ d c.
        update-cases HasTable s.files date none d
          (λ q. absurd (ground (arith, c, q, contains-remove date d s.dbs)))
          (λ ne. v.ready d (ground (arith, c, contains-remove date d s.dbs)));
  })
  | inr e ↦
      rw e (record { ready = λ d c. v.ready d (ground (arith, c, contains-remove date d s.dbs)) })
]

-- What a day's shard holds behind the loop over some entries.
abbrev left_of : Time → ℕ → List ℕ → ℕ → List LogLine → List LogLine
left_of now days dates d rows =
    if contains dates d then (if is_expired now days d then [] else rows) else rows

record Swept (now : Time) (days : ℕ) (dates : List ℕ) (s s' : Store) : Type 0 where
  each : (d : ℕ) → rows_of (s'.files d) ≡ left_of now days dates d (rows_of (s.files d))
  is_ready : IsReady s'

left_of_nil : (now : Time) (days : ℕ) (dates : List ℕ) (d : ℕ) → left_of now days dates d [] ≡ []
left_of_nil now days dates d = elim (Bool-cases (contains dates d)) [
  | inl e ↦ elim (Bool-cases (is_expired now days d)) [
    | inl x ↦ rw (e, x) refl
    | inr x ↦ rw (e, x) refl
  ]
  | inr e ↦ rw e refl
]

left_of_recent :
    (now : Time) (days : ℕ) (dates : List ℕ) (d : ℕ) (rows : List LogLine)
    → is_expired now days d ≡ false
    → left_of now days dates d rows ≡ rows
left_of_recent now days dates d rows recent = elim (Bool-cases (contains dates d)) [
  | inl e ↦ rw (e, recent) refl
  | inr e ↦ rw e refl
]

module _ (removes : ℕ → Bool) (works : (date : ℕ) → removes date ≡ true) (now : Time)
    (days : ℕ) where
  after_old :
      (date : ℕ) (dates : List ℕ) (s s' : Store)
      → is_expired now days date ≡ true
      → Swept now days dates (remove_file removes date (close_shard date s)) s'
      → Swept now days (date ∷ dates) s s'
  after_old date dates s s' old w = record {
    each = λ d. elim (Bool-cases (nat_beq date d)) [
      | inl same ↦
          let q : date ≡ d = ground (arith, same) in
          let old' : is_expired now days d ≡ true = ap (is_expired now days) (sym q) ∙ old in
          let here =
            ap (λ i. rows_of ((remove_file removes date (close_shard date s)).files i)) (sym q)
            ∙ removed_here removes date s (works date) in
          w.each d
          ∙ (ap (left_of now days dates d) here
              ∙ (left_of_nil now days dates d ∙ rw (same, old') refl))
      | inr ne ↦
          w.each d
          ∙ (ap (λ f. left_of now days dates d (rows_of f)) (kept_there removes date d s ne)
              ∙ rw ne refl)
    ];
    is_ready = w.is_ready;
  }

  after_young :
      (date : ℕ) (dates : List ℕ) (s s' : Store)
      → is_expired now days date ≡ false
      → Swept now days dates s s'
      → Swept now days (date ∷ dates) s s'
  after_young date dates s s' recent w = record {
    each = λ d. elim (Bool-cases (nat_beq date d)) [
      | inl same ↦
          let q : date ≡ d = ground (arith, same) in
          let recent' : is_expired now days d ≡ false = ap (is_expired now days) (sym q) ∙ recent in
          w.each d ∙ (left_of_recent now days dates d _ recent' ∙ rw (same, recent') refl)
      | inr ne ↦ w.each d ∙ rw ne refl
    ];
    is_ready = w.is_ready;
  }

  sweep-Swept :
      (dates : List ℕ) (s : Store)
      → IsReady s
      → Swept now days dates s (sweep removes now days dates s).0
  unfolding sweep
  sweep-Swept [] s v = record { each = λ d. refl; is_ready = v }
  sweep-Swept (date ∷ dates) s v = elim (Bool-cases (is_expired now days date)) [
    | inl old ↦
        rw old
          (after_old date dates s _ old (sweep-Swept dates _ (remove-IsReady removes date s v)))
    | inr recent ↦ rw recent (after_young date dates s _ recent (sweep-Swept dates s v))
  ]

pub vacuum_all_keeps :
    (faults : Faults) (dates : List ℕ) (s : Store)
    → IsReady s
    → IsReady (vacuum_all faults dates s)
      × ((d : ℕ) → rows_of ((vacuum_all faults dates s).files d) ≡ rows_of (s.files d))
unfolding vacuum_all vacuum_shard
vacuum_all_keeps faults [] s v = (v, λ d. refl)
vacuum_all_keeps faults (date ∷ dates) s v =
    let o = get_or_open_db-Opened faults date s v in
    let (v', same) = vacuum_all_keeps faults dates (get_or_open_db faults date s).0 o.is_ready in
    (v', λ d. same d ∙ o.kept d)

-- CleanupOldDBs of a directory that can be read, where the handles stand for files with the table and
-- files can be removed, whatever SQLite does in the vacuum: a search then finds nothing in the listed
-- shards whose day began before the cutoff, and in every other shard what was there; and each handle
-- still stands for a file with the table. Days that are not positive stand for 7.
pub cleanup_old_dbs_lem :
    (faults : Faults) (removes : ℕ → Bool) (entries : List Entry) (now : Time) (n : ℤ) (s : Store)
    → ((date : ℕ) → removes date ≡ true)
    → IsReady s
    → let s' = (cleanup_old_dbs faults removes (some entries) now n s).0 in
      IsReady s'
      × ((d : ℕ)
          → rows_of (s'.files d) ≡ (
              if contains (shard_days entries) d
              then (if is_expired now (retention_days n) d then [] else rows_of (s.files d))
              else rows_of (s.files d)))
unfolding cleanup_old_dbs
cleanup_old_dbs_lem faults removes entries now n s works v =
    let w = sweep-Swept removes works now (retention_days n) (shard_days entries) s v in
    let (v', same) =
      vacuum_all_keeps faults (sweep removes now (retention_days n) (shard_days entries) s).1
        (sweep removes now (retention_days n) (shard_days entries) s).0 w.is_ready in
    (v', λ d. same d ∙ w.each d)
