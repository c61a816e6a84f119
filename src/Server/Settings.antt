-- ===== src/Server/Settings.antt =====
-- What the settings come to.
use grepod.Prelude.{
  ◌≡◌, inl, inr, refl, true, Option, none, some, if◌then◌else◌, Text, is_empty, Bool-cases,
}
use grepod.Prelude.Int.{ℤ, is_positive}
use grepod.Prelude.Decimal.{
  parse_int, format_int, IsInt64, parse_int-format_int, is_empty-format_int,
}
use grepod.Server.{positive_or, env_int, env_duration}

positive_or-is_positive :
    (default : ℤ) (o : Option ℤ)
    → is_positive default ≡ true
    → is_positive (positive_or default o) ≡ true
positive_or-is_positive default none h = h
positive_or-is_positive default (some n) h = elim (Bool-cases (is_positive n)) [
  | inl e ↦ rw (e, e) refl
  | inr e ↦ rw e h
]

-- Whatever the environment holds, a number and a duration with a positive default are positive.
pub env-is_positive :
    (getenv : Text → Text) (parse_duration : Text → Option ℤ) (key : Text) (default : ℤ)
    → is_positive default ≡ true
    → (is_positive (env_int getenv key default) ≡ true)
      × (is_positive (env_duration getenv parse_duration key default) ≡ true)
unfolding env_int env_duration
env-is_positive getenv parse_duration key default h = elim (Bool-cases (is_empty (getenv key))) [
  | inl e ↦ rw e (h, h)
  | inr e ↦ rw e (
    positive_or-is_positive default (parse_int (getenv key)) h,
    positive_or-is_positive default (parse_duration (getenv key)) h,
  )
]

-- A variable that holds a number gives that number, if it is positive and an int64, else the default.
pub env_int-format_int :
    (getenv : Text → Text) (key : Text) (n default : ℤ)
    → getenv key ≡ format_int n
    → IsInt64 n
    → env_int getenv key default ≡ (if is_positive n then n else default)
unfolding env_int
env_int-format_int getenv key n default e h =
    rw (e, is_empty-format_int n, parse_int-format_int n h) refl
