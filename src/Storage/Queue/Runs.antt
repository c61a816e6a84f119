-- ===== src/Storage/Queue/Runs.antt =====
-- What every step keeps, every schedule keeps.
use grepod.Prelude.{List, [], ◌∷◌, Bool, Option, Ensures, Ensures->>=}
use grepod.Storage.Line.{LogLine}
use grepod.Prelude.{ℕ}
use grepod.Storage.Queue.{BatchQueue, Event, run, step}

module _ {ℓ} {S : Type 0} (insert_batch : Option ℕ → List LogLine → S → S × Bool)
    (P : BatchQueue S → Type ℓ) where
  pub run_inv :
      ((e : Event) (q : BatchQueue S) → P q → Ensures P (step insert_batch e q))
      → (es : List Event) (q : BatchQueue S) → P q
      → Ensures P (run insert_batch es q)
  unfolding run
  run_inv keep [] q p = p
  run_inv keep (e ∷ es) q p =
      Ensures->>= P P (step insert_batch e q) (run insert_batch es) (keep e q p)
        λ q' _ p'. run_inv keep es q' p'
