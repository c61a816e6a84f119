-- ===== src/Storage/Insert/Atomic.antt =====
-- What InsertBatch leaves in the shards.
use grepod.Prelude.{
  ℕ, ◌≡◌, ◌⊎◌, inl, inr, refl, sym, ap, ◌∙◌, Bool, true, false, List, [], ◌∷◌, ◌++◌, append-nil,
  contains, nat_beq, Distinct, All, arith, Bool-cases,
}
use grepod.Storage.Line.{LogLine}
use grepod.Storage.Shards.{day_of}
use grepod.Storage.Insert.{Store, Faults, group_of, insert_batch}
use grepod.Storage.Insert.Opened.{rows_of, IsReady}
use grepod.Storage.Insert.Groups.{insert_groups-Inserted}

-- A day that no line has has no group.
no_group :
    (dates : List ℕ) (date : ℕ) (lines : List LogLine)
    → All (λ l. contains dates (day_of l.timestamp) ≡ true) lines
    → contains dates date ≡ false
    → group_of date lines ≡ []
no_group dates date [] keyed absent = refl
no_group dates date (l ∷ ls) keyed absent = elim (Bool-cases (nat_beq (day_of l.timestamp) date)) [
  | inl same ↦
      let q : day_of l.timestamp ≡ date = ground (arith, same) in
      absurd (ground (arith, keyed.0, absent, ap (contains dates) q))
  | inr ne ↦ rw ne (no_group dates date ls keyed.1 absent)
]

-- InsertBatch into a store whose handles stand for files with the table, whatever SQLite refuses and
-- in whatever order the days are taken, each once: each shard then holds, for a search, what it held, or that and
-- all the lines of its day, in their order. No shard holds part of its lines, and none a line of
-- another day.
pub insert_batch_atomic :
    (faults : Faults) (cancelled : Bool) (dates : List ℕ) (lines : List LogLine) (s : Store)
    → Distinct dates
    → IsReady s
    → (date : ℕ)
    → (rows_of ((insert_batch faults cancelled dates lines s).0.files date)
        ≡ rows_of (s.files date))
      ⊎ (rows_of ((insert_batch faults cancelled dates lines s).0.files date)
          ≡ rows_of (s.files date) ++ group_of date lines)
unfolding insert_batch
insert_batch_atomic faults cancelled dates [] s once v date = inl refl
insert_batch_atomic faults true dates (l ∷ ls) s once v date = inl refl
insert_batch_atomic faults false dates (l ∷ ls) s once v date =
    elim ((insert_groups-Inserted faults (l ∷ ls) dates s once v).each date) [
      | inl same ↦ inl same
      | inr (c, grown) ↦ inr grown
    ]

-- Where InsertBatch returns no error, the handles stand for files with the table, and the days, each
-- once, are those of the lines: each shard has got exactly
-- the lines of its day, and the handles again stand for files with the table.
pub insert_batch_stores :
    (faults : Faults) (cancelled : Bool) (dates : List ℕ) (lines : List LogLine) (s : Store)
    → Distinct dates
    → All (λ l. contains dates (day_of l.timestamp) ≡ true) lines
    → IsReady s
    → (insert_batch faults cancelled dates lines s).1 ≡ true
    → IsReady (insert_batch faults cancelled dates lines s).0
      × ((date : ℕ)
          → rows_of ((insert_batch faults cancelled dates lines s).0.files date)
            ≡ rows_of (s.files date) ++ group_of date lines)
unfolding insert_batch
insert_batch_stores faults cancelled dates [] s once keyed v ok = (v, λ date. sym (append-nil _))
insert_batch_stores faults true dates (l ∷ ls) s once keyed v ok = absurd (cc)
insert_batch_stores faults false dates (l ∷ ls) s once keyed v ok =
    let i = insert_groups-Inserted faults (l ∷ ls) dates s once v in
    (
      i.is_ready,
      λ date. elim (Bool-cases (contains dates date)) [
        | inl c ↦ i.done ok date c
        | inr absent ↦ elim (i.each date) [
          | inl same ↦
              same
              ∙ (sym (append-nil _)
                  ∙ ap (λ g. rows_of (s.files date) ++ g)
                      (sym (no_group dates date (l ∷ ls) keyed absent)))
          | inr (c, grown) ↦ grown
        ]
      ],
    )
