-- ===== src/Storage/Insert/Opened.antt =====
-- What opening a shard leaves in its file.
use grepod.Prelude.{
  ℕ, ◌≡◌, inl, inr, refl, ap, ◌∙◌, Bool, true, false, Option, none, some, List, [], contains,
  update-cases, nat_beq, arith, Bool-cases,
}
use grepod.Storage.Line.{LogLine}
use grepod.Storage.Insert.{
  File, no_table, table, Store, Faults, create_table, migrate_legacy_schema, keep_handle,
  get_or_open_db,
}

-- The rows that a search finds in a file: those of a table with the column `level`.
abbrev pub rows_of : Option File → List LogLine
rows_of (some (table true rows)) = rows
rows_of _ = []

-- A handle stands for a file with the table.
abbrev pub HasTable : Option File → Type 0
HasTable f = (rows : List LogLine) × (f ≡ some (table true rows))

pub record IsReady (s : Store) : Type 0 where
  pub ready : (date : ℕ) → contains s.dbs date ≡ true → HasTable (s.files date)

-- What opening a shard does: no searchable row changes.
pub record Opened (date : ℕ) (s s' : Store) (ok : Bool) : Type 0 where
  pub kept : (d : ℕ) → rows_of (s'.files d) ≡ rows_of (s.files d)
  pub others : (d : ℕ) → nat_beq date d ≡ false → s'.files d ≡ s.files d
  pub is_ready : IsReady s'
  pub has_table : ok ≡ true → HasTable (s'.files date)

rows_of-create_table : (f : Option File) → rows_of (some (create_table f)) ≡ rows_of f
unfolding create_table
rows_of-create_table none = refl
rows_of-create_table (some no_table) = refl
rows_of-create_table (some (table true rows)) = refl
rows_of-create_table (some (table false rows)) = refl

record Migrated (f : File) (result : File × Bool) : Type 0 where
  kept : rows_of (some result.0) ≡ rows_of (some f)
  has_table : result.1 ≡ true → HasTable (some result.0)

migrate-Migrated :
    (faults : Faults) (date : ℕ) (f : File) → Migrated f (migrate_legacy_schema faults date f)
unfolding migrate_legacy_schema
migrate-Migrated faults date no_table = record { kept = refl; has_table = λ e. cc }
migrate-Migrated faults date (table true rows) = elim (Bool-cases (faults.checks date)) [
  | inl e ↦ rw e (record { kept = refl; has_table = λ t. (rows, refl) })
  | inr e ↦ rw e (record { kept = refl; has_table = λ t. cc })
]
migrate-Migrated faults date (table false rows) = elim (Bool-cases (faults.checks date)) [
  | inr e ↦ rw e (record { kept = refl; has_table = λ t. cc })
  | inl e ↦ elim (Bool-cases (faults.drops date)) [
    | inr e' ↦ rw (e, e') (record { kept = refl; has_table = λ t. cc })
    | inl e' ↦ elim (Bool-cases (faults.recreates date)) [
      | inr e'' ↦ rw (e, e', e'') (record { kept = refl; has_table = λ t. cc })
      | inl e'' ↦ rw (e, e', e'') (record { kept = refl; has_table = λ t. ([], refl) })
    ]
  ]
]

keep_handle-Opened :
    (date : ℕ) (s : Store) (result : File × Bool)
    → IsReady s
    → contains s.dbs date ≡ false
    → rows_of (some result.0) ≡ rows_of (s.files date)
    → (result.1 ≡ true → HasTable (some result.0))
    → Opened date s (keep_handle date result s).0 (keep_handle date result s).1
unfolding keep_handle
keep_handle-Opened date s (f, true) v unopened rows h = record {
  kept = λ d.
      update-cases (λ g. rows_of g ≡ rows_of (s.files d)) s.files date (some f) d
        (λ e. rows ∙ ap (λ i. rows_of (s.files i)) e) (λ ne. refl);
  others = λ d ne. rw ne refl;
  is_ready = record {
    ready = λ d c.
        update-cases HasTable s.files date (some f) d (λ e. h refl)
          (λ ne. v.ready d (ground (arith, c, ne)));
  };
  has_table = λ t.
      update-cases HasTable s.files date (some f) date (λ e. h refl)
        (λ ne. absurd (ground (arith, ne)));
}
keep_handle-Opened date s (f, false) v unopened rows h = record {
  kept = λ d.
      update-cases (λ g. rows_of g ≡ rows_of (s.files d)) s.files date (some f) d
        (λ e. rows ∙ ap (λ i. rows_of (s.files i)) e) (λ ne. refl);
  others = λ d ne. rw ne refl;
  is_ready = record {
    ready = λ d c.
        update-cases HasTable s.files date (some f) d
          (λ e. absurd (ground (arith, e, unopened, c, ap (contains s.dbs) e))) (λ ne. v.ready d c);
  };
  has_table = λ t. cc;
}

unchanged : (date : ℕ) (s : Store) → IsReady s → Opened date s s false
unchanged date s v = record {
  kept = λ d. refl;
  others = λ d ne. refl;
  is_ready = v;
  has_table = λ t. cc;
}

pub get_or_open_db-Opened :
    (faults : Faults) (date : ℕ) (s : Store)
    → IsReady s
    → Opened date s (get_or_open_db faults date s).0 (get_or_open_db faults date s).1
unfolding get_or_open_db
get_or_open_db-Opened faults date s v = elim (Bool-cases (contains s.dbs date)) [
  | inl e ↦ rw e (record {
    kept = λ d. refl;
    others = λ d ne. refl;
    is_ready = v;
    has_table = λ t. v.ready date e;
  })
  | inr e ↦ elim (Bool-cases (faults.opens date)) [
    | inr e' ↦ rw (e, e') (unchanged date s v)
    | inl e' ↦ elim (Bool-cases (faults.inits date)) [
      | inr e'' ↦ rw (e, e', e'') (unchanged date s v)
      | inl e'' ↦
          let f = create_table (s.files date) in
          let m = migrate-Migrated faults date f in
          rw (e, e', e'')
            (keep_handle-Opened date s (migrate_legacy_schema faults date f) v e
              (m.kept ∙ rows_of-create_table (s.files date)) m.has_table)
    ]
  ]
]
