-- ===== src/Storage/Queue/Pipeline/Fine.antt =====
-- A store that refuses nothing, and the days of a batch in an order of their own.
use grepod.Prelude.{
  ℕ, ◌*◌, ◌≡◌, refl, true, none, List, [], ◌∷◌, codes, contains, if◌then◌else◌, Distinct, All,
  All-weaken, arith, Bool-cases, inl, inr,
}
use grepod.Storage.Line.{LogLine}
use grepod.Storage.Shards.{day_of, day_length}
use grepod.Storage.Insert.{Store, Faults}
use grepod.Storage.Insert.Works.{NoFaults}

abbrev pub all_fine : Faults
all_fine = record {
  opens = λ date. true;
  inits = λ date. true;
  checks = λ date. true;
  drops = λ date. true;
  recreates = λ date. true;
  begins = λ date. true;
  prepares = λ date. true;
  executes = λ date l. true;
  commits = λ date. true;
}

pub all_fine-NoFaults : NoFaults all_fine
all_fine-NoFaults = record {
  opens = λ date. refl;
  inits = λ date. refl;
  checks = λ date. refl;
  drops = λ date. refl;
  recreates = λ date. refl;
  begins = λ date. refl;
  prepares = λ date. refl;
  executes = λ date l. refl;
  commits = λ date. refl;
}

-- The days of a batch by their last lines.
abbrev pub days_in : List LogLine → List ℕ
days_in [] = []
days_in (l ∷ ls) =
    let days = days_in ls in
    if contains days (day_of l.timestamp) then days else day_of l.timestamp ∷ days

pub days_in-Distinct : (ls : List LogLine) → Distinct (days_in ls)
days_in-Distinct [] = tt
days_in-Distinct (l ∷ ls) = elim (Bool-cases (contains (days_in ls) (day_of l.timestamp))) [
  | inl e ↦ rw e (days_in-Distinct ls)
  | inr e ↦ rw e (e, days_in-Distinct ls)
]

contains_more :
    (k d : ℕ) (ds : List ℕ)
    → contains ds k ≡ true
    → contains (if contains ds d then ds else d ∷ ds) k ≡ true
contains_more k d ds h = ground (arith, h)

contains_own : (d : ℕ) (ds : List ℕ) → contains (if contains ds d then ds else d ∷ ds) d ≡ true
contains_own d ds = ground arith

pub days_in_covers :
    (ls : List LogLine) → All (λ l. contains (days_in ls) (day_of l.timestamp) ≡ true) ls
days_in_covers [] = tt
days_in_covers (l ∷ ls) = (
  contains_own (day_of l.timestamp) (days_in ls),
  All-weaken (λ k h. contains_more (day_of k.timestamp) (day_of l.timestamp) (days_in ls) h) ls
      (days_in_covers ls),
)

abbrev pub line : ℕ → LogLine
line day = record {
  pod = codes "web";
  namespace = codes "default";
  container = codes "app";
  timestamp = day * day_length;
  level = [];
  content = codes "hello";
}

abbrev pub empty_store : Store
empty_store = record { files = λ date. none; dbs = [] }
