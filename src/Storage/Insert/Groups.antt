-- ===== src/Storage/Insert/Groups.antt =====
-- What a transaction, and the loop over the days, leave in the shards.
use grepod.Prelude.{
  ℕ, ◌≡◌, ◌⊎◌, inl, inr, refl, sym, ap, ◌∙◌, Bool, true, false, Option, some, List, [], ◌∷◌, ◌++◌,
  contains, update-cases, nat_beq, if◌then◌else◌, ◌&&◌, Distinct, arith, Bool-cases,
}
use grepod.Storage.Line.{LogLine}
use grepod.Storage.Insert.{
  File, table, Store, Faults, get_or_open_db, all_execute, add_rows, insert_group, group_of,
  and_then, insert_groups,
}
use grepod.Storage.Insert.Opened.{rows_of, HasTable, IsReady, Opened, get_or_open_db-Opened}

-- What a transaction does: all of the group, or nothing.
record Grouped (date : ℕ) (ls : List LogLine) (s : Store) (result : Store × Bool) : Type 0 where
  failed : result.1 ≡ false → result.0 ≡ s
  grown :
      result.1 ≡ true
      → (d : ℕ)
      → rows_of (result.0.files d)
        ≡ (if nat_beq date d then rows_of (s.files d) ++ ls else rows_of (s.files d))
  is_ready : IsReady result.0

add_rows-table :
    (ls : List LogLine) (f : Option File) (rows : List LogLine)
    → f ≡ some (table true rows)
    → add_rows ls f ≡ some (table true (rows ++ ls))
unfolding add_rows
add_rows-table ls f rows e = rw e refl

insert_group-Grouped :
    (faults : Faults) (date : ℕ) (ls : List LogLine) (s : Store)
    → IsReady s
    → HasTable (s.files date)
    → Grouped date ls s (insert_group faults date ls s)
unfolding insert_group
insert_group-Grouped faults date ls s v (rows, e) =
    let added = add_rows-table ls (s.files date) rows e in
    elim (Bool-cases (
      faults.begins date
      && faults.prepares date
      && all_execute faults date ls
      && faults.commits date)) [
        | inr fails ↦ rw fails (record { failed = λ t. refl; grown = λ t. cc; is_ready = v })
        | inl works ↦ rw works (record {
          failed = λ t. cc;
          grown = λ t d. elim (Bool-cases (nat_beq date d)) [
            | inl same ↦
                let q : date ≡ d = ground (arith, same) in
                rw same (
                  ap rows_of added
                  ∙ ap (λ r. r ++ ls) (sym (ap rows_of e) ∙ ap (λ i. rows_of (s.files i)) q))
            | inr ne ↦ rw ne refl
          ];
          is_ready = record {
            ready = λ d c.
                update-cases HasTable s.files date (add_rows ls (s.files date)) d
                  (λ q. (rows ++ ls, added)) (λ ne. v.ready d c);
          };
        })
      ]

-- What the loop over some days does: each day's shard gets its whole group or stays as it is, and
-- without an error each of the days got its group.
pub record Inserted (lines : List LogLine) (dates : List ℕ) (s : Store) (result : Store × Bool)
    : Type 0 where
  pub each :
      (d : ℕ)
      → (rows_of (result.0.files d) ≡ rows_of (s.files d))
        ⊎ ((contains dates d ≡ true)
            × (rows_of (result.0.files d) ≡ rows_of (s.files d) ++ group_of d lines))
  pub done :
      result.1 ≡ true
      → (d : ℕ) → contains dates d ≡ true
      → rows_of (result.0.files d) ≡ rows_of (s.files d) ++ group_of d lines
  pub is_ready : IsReady result.0

module _ (lines : List LogLine) (date : ℕ) (dates : List ℕ) (s : Store)
    (once : contains dates date ≡ false) where
  unmoved :
      (t : Store)
      → IsReady t
      → ((d : ℕ) → rows_of (t.files d) ≡ rows_of (s.files d))
      → Inserted lines (date ∷ dates) s (t, false)
  unmoved t v same = record { each = λ d. inl (same d); done = λ e. cc; is_ready = v }

  -- The rows behind the group of the first day: its own have grown, the others are as they were.
  grown_here :
      (opened t : Store) (d : ℕ)
      → Opened date s opened true
      → Grouped date (group_of date lines) opened (t, true)
      → date ≡ d
      → rows_of (t.files d) ≡ rows_of (s.files d) ++ group_of d lines
  grown_here opened t d o g q =
      let same : nat_beq date d ≡ true = ground (arith, q) in
      g.grown refl d
      ∙ rw same (
          ap (λ r. r ++ group_of date lines) (o.kept d)
          ∙ ap (λ i. rows_of (s.files d) ++ group_of i lines) q)

  same_there :
      (opened t : Store) (d : ℕ)
      → Opened date s opened true
      → Grouped date (group_of date lines) opened (t, true)
      → nat_beq date d ≡ false
      → rows_of (t.files d) ≡ rows_of (s.files d)
  same_there opened t d o g ne = g.grown refl d ∙ rw ne (o.kept d)

  each_behind :
      (opened t : Store) (result : Store × Bool) (d : ℕ)
      → Opened date s opened true
      → Grouped date (group_of date lines) opened (t, true)
      → Inserted lines dates t result
      → (rows_of (result.0.files d) ≡ rows_of (s.files d))
        ⊎ ((contains (date ∷ dates) d ≡ true)
            × (rows_of (result.0.files d) ≡ rows_of (s.files d) ++ group_of d lines))
  each_behind opened t result d o g later = elim (Bool-cases (nat_beq date d)) [
    | inl same ↦
        let q : date ≡ d = ground (arith, same) in
        elim (later.each d) [
          | inl p ↦ inr (rw same refl, p ∙ grown_here opened t d o g q)
          | inr (c, p) ↦ absurd (ground (arith, once, c, ap (contains dates) q))
        ]
    | inr ne ↦ elim (later.each d) [
      | inl p ↦ inl (p ∙ same_there opened t d o g ne)
      | inr (c, p) ↦
          inr (rw ne c, p ∙ ap (λ r. r ++ group_of d lines) (same_there opened t d o g ne))
    ]
  ]

  done_behind :
      (opened t : Store) (result : Store × Bool) (d : ℕ)
      → Opened date s opened true
      → Grouped date (group_of date lines) opened (t, true)
      → Inserted lines dates t result
      → result.1 ≡ true
      → contains (date ∷ dates) d ≡ true
      → rows_of (result.0.files d) ≡ rows_of (s.files d) ++ group_of d lines
  done_behind opened t result d o g later e c = elim (Bool-cases (nat_beq date d)) [
    | inl same ↦
        let q : date ≡ d = ground (arith, same) in
        elim (later.each d) [
          | inl p ↦ p ∙ grown_here opened t d o g q
          | inr (c', p) ↦ absurd (ground (arith, once, c', ap (contains dates) q))
        ]
    | inr ne ↦
        later.done e d (ground (arith, ne, c))
        ∙ ap (λ r. r ++ group_of d lines) (same_there opened t d o g ne)
  ]

  behind_group :
      (opened : Store) (g : Store × Bool) (next : Store → Store × Bool)
      → Opened date s opened true
      → Grouped date (group_of date lines) opened g
      → ((t : Store) → IsReady t → Inserted lines dates t (next t))
      → Inserted lines (date ∷ dates) s (and_then g next)
  behind_group opened (t, false) next o g rec =
      unmoved t g.is_ready (λ d. ap (λ u. rows_of (u.files d)) (g.failed refl) ∙ o.kept d)
  behind_group opened (t, true) next o g rec =
      let later = rec t g.is_ready in
      record {
        each = λ d. each_behind opened t (next t) d o g later;
        done = λ e d c. done_behind opened t (next t) d o g later e c;
        is_ready = later.is_ready;
      }

  behind_open :
      (o : Store × Bool) (insert next : Store → Store × Bool)
      → Opened date s o.0 o.1
      → ((t : Store)
          → IsReady t
          → HasTable (t.files date)
          → Grouped date (group_of date lines) t (insert t))
      → ((t : Store) → IsReady t → Inserted lines dates t (next t))
      → Inserted lines (date ∷ dates) s (and_then o (λ opened. and_then (insert opened) next))
  behind_open (t, false) insert next o g rec = unmoved t o.is_ready o.kept
  behind_open (t, true) insert next o g rec =
      behind_group t (insert t) next o (g t o.is_ready (o.has_table refl)) rec

pub insert_groups-Inserted :
    (faults : Faults) (lines : List LogLine) (dates : List ℕ) (s : Store)
    → Distinct dates
    → IsReady s
    → Inserted lines dates s (insert_groups faults lines dates s)
unfolding insert_groups
insert_groups-Inserted faults lines [] s once v = record {
  each = λ d. inl refl;
  done = λ e d c. cc;
  is_ready = v;
}
insert_groups-Inserted faults lines (date ∷ dates) s once v =
    behind_open lines date dates s once.0 (get_or_open_db faults date s)
      (insert_group faults date (group_of date lines)) (insert_groups faults lines dates)
      (get_or_open_db-Opened faults date s v)
      (insert_group-Grouped faults date (group_of date lines))
      (λ t. insert_groups-Inserted faults lines dates t once.1)
