-- ===== src/Storage/Known/Listed.antt =====
-- What KnownPods lists.
use grepod.Prelude.{
  ℕ, ◌≡◌, refl, ap, sym, ◌∙◌, inl, inr, true, Option, some, List, [], ◌∷◌, ◌++◌, map, keep, ◌&&◌,
  ◌||◌, Text, text_beq, text_beq_iff, text_ltb, text_ltb_trans, Bool-cases, arith, map-append_lem,
}
use grepod.Prelude.Sorting.{Sorted, sort-Sorted}
use grepod.Storage.Known.Members.{
  absorbed, is_among-append, is_among-key_set, is_among-sort, key_set-NoTies,
}
use grepod.Storage.Line.{Time}
use grepod.Storage.Shards.{existing_shard_dates}
use grepod.Storage.Search.{is_among}
use grepod.Storage.Known.{
  KnownFilters, Origin, KnownEngine, origin_among, distinct, union, key_set, sorted_keys,
  query_known, known_of, filters_of, known_pods, no_filters,
}

module _ (field : Origin → Text)
    (agrees : (o p : Origin)
      → text_beq o.0 p.0 ≡ true
      → text_beq o.1 p.1 ≡ true
      → field o ≡ field p) where
  among-of_origin :
      (os : List Origin) (o : Origin)
      → origin_among os o ≡ true
      → is_among (map field os) (field o) ≡ true
  among-of_origin [] o h = cc
  among-of_origin (p ∷ os) o h = elim (Bool-cases (text_beq p.0 o.0 && text_beq p.1 o.1)) [
    | inl e ↦
        let same : text_beq (field p) (field o) ≡ true =
          (text_beq_iff (field p) (field o)).1
            (agrees p o (ground (arith, e)) (ground (arith, e))) in
        rw same refl
    | inr e ↦ rw (among-of_origin os o (ground (arith, e, h))) (ground arith)
  ]

  is_among-distinct :
      (os : List Origin) (t : Text)
      → is_among (map field (distinct os)) t ≡ is_among (map field os) t
  is_among-distinct [] t = refl
  is_among-distinct (o ∷ os) t = elim (Bool-cases (origin_among (distinct os) o)) [
    | inl e ↦ rw e (
        absorbed (field o) (map field (distinct os)) t (among-of_origin (distinct os) o e)
        ∙ ap (λ b. text_beq (field o) t || b) (is_among-distinct os t))
    | inr e ↦ rw e (ap (λ b. text_beq (field o) t || b) (is_among-distinct os t))
  ]

-- The rows of some shards, one after the other.
abbrev pub all_origins : (ℕ → List Origin) → List ℕ → List Origin
all_origins origins [] = []
all_origins origins (date ∷ dates) = origins date ++ all_origins origins dates

module _ (field : Origin → Text)
    (agrees : (o p : Origin)
      → text_beq o.0 p.0 ≡ true
      → text_beq o.1 p.1 ≡ true
      → field o ≡ field p) where
  is_among-union :
      (origins : ℕ → List Origin) (dates : List ℕ) (t : Text)
      → is_among (map field (union origins dates)) t
        ≡ is_among (map field (all_origins origins dates)) t
  is_among-union origins [] t = refl
  is_among-union origins (date ∷ dates) t =
      is_among-distinct field agrees (origins date ++ union origins dates) t
      ∙ (among_parts (union origins dates)
          ∙ (ap (λ b. is_among (map field (origins date)) t || b) (is_among-union origins dates t)
              ∙ sym (among_parts (all_origins origins dates))))
    where
      among_parts :
          (os : List Origin)
          → is_among (map field (origins date ++ os)) t
            ≡ (is_among (map field (origins date)) t || is_among (map field os) t)
      among_parts os =
          ap (λ ts. is_among ts t) (sym (map-append_lem field (origins date) os))
          ∙ is_among-append (map field (origins date)) (map field os) t

-- A strictly increasing list with the given members.
pub record Lists (members : List Text) (names : List Text) : Type 0 where
  pub increasing : Sorted text_ltb names
  pub same : (t : Text) → is_among names t ≡ is_among members t

sorted_keys-Lists : (ts : List Text) → Lists ts (sorted_keys ts)
unfolding sorted_keys
sorted_keys-Lists ts = record {
  increasing = sort-Sorted text_ltb text_ltb_trans (key_set ts) (key_set-NoTies ts);
  same = λ t. is_among-sort (key_set ts) t ∙ is_among-key_set ts t;
}

pub record FiltersOf (rows : List Origin) (out : KnownFilters) : Type 0 where
  pub pods : Lists (map (λ o. o.0) rows) out.pods
  pub containers : Lists (map (λ o. o.1) rows) out.containers

filters_of-FiltersOf :
    (origins : ℕ → List Origin) (dates : List ℕ)
    → FiltersOf (all_origins origins dates) (filters_of (union origins dates))
unfolding filters_of
filters_of-FiltersOf origins dates = record {
  pods = record {
    increasing = (sorted_keys-Lists (map (λ o. o.0) (union origins dates))).increasing;
    same = λ t.
        (sorted_keys-Lists (map (λ o. o.0) (union origins dates))).same t
        ∙ is_among-union (λ o. o.0) (λ o p h k. (text_beq_iff o.0 p.0).0 h) origins dates t;
  };
  containers = record {
    increasing = (sorted_keys-Lists (map (λ o. o.1) (union origins dates))).increasing;
    same = λ t.
        (sorted_keys-Lists (map (λ o. o.1) (union origins dates))).same t
        ∙ is_among-union (λ o. o.1) (λ o p h k. (text_beq_iff o.1 p.1).0 k) origins dates t;
  };
}

no_filters-FiltersOf : FiltersOf [] no_filters
no_filters-FiltersOf = record {
  pods = record { increasing = tt; same = λ t. refl };
  containers = record { increasing = tt; same = λ t. refl };
}

-- An answer that lists what some rows are of.
abbrev pub Answers : List Origin → Option KnownFilters → Type 0
Answers rows o = (out : KnownFilters) × (o ≡ some out) × FiltersOf rows out

query_known-Answers :
    (engine : KnownEngine) (dates : List ℕ)
    → engine.answers ≡ true
    → Answers (all_origins engine.origins dates) (query_known engine dates)
unfolding query_known
query_known-Answers engine [] answers = (no_filters, refl, no_filters-FiltersOf)
query_known-Answers engine (date ∷ dates) answers =
    (_, simp answers refl, filters_of-FiltersOf engine.origins (date ∷ dates))

known_of-Answers :
    (engine : KnownEngine) (dates : List ℕ)
    → engine.opens ≡ true
    → engine.answers ≡ true
    → Answers (all_origins engine.origins (keep engine.attaches dates)) (known_of engine dates)
unfolding known_of
known_of-Answers engine [] opens answers = (no_filters, refl, no_filters-FiltersOf)
known_of-Answers engine (date ∷ dates) opens answers =
    simp opens (query_known-Answers engine (keep engine.attaches (date ∷ dates)) answers)

-- Where SQLite opens the connection and answers the query, KnownPods lists exactly the pods, and exactly
-- the containers, of the rows of the shards of the range that exist and can be attached; each one
-- once, in increasing order.
pub known_pods_lem :
    (engine : KnownEngine) (since today : Time)
    → engine.opens ≡ true
    → engine.answers ≡ true
    → let dates = (existing_shard_dates engine.exists since today).0 in
      Answers
        (all_origins engine.origins (keep engine.attaches dates))
        (known_pods engine since today)
unfolding known_pods
known_pods_lem engine since today opens answers =
    known_of-Answers engine (existing_shard_dates engine.exists since today).0 opens answers
