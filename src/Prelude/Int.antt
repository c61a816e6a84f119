-- ===== src/Prelude/Int.antt =====
-- Go's signed integers, for settings that may be zero or negative. No operation wraps on them.
use Prim.Native.Nat.{ℕ, zero, suc}
use mathlib.Core.Bool.{Bool, true, false}
use mathlib.Core.Path.{◌≡◌, refl}
use native.Mathlib.Omega.{arith}
use grepod.Prelude.Tests.{ltb}

-- `negsuc n` is -(n + 1).
pub data ℤ : Type 0 where
  pos : ℕ → ℤ
  negsuc : ℕ → ℤ

abbrev pub is_positive : ℤ → Bool
is_positive (pos zero) = false
is_positive (pos (suc n)) = true
is_positive (negsuc n) = false

-- The number where it is not negative, else 0.
abbrev pub magnitude : ℤ → ℕ
magnitude (pos n) = n
magnitude (negsuc n) = 0

abbrev pub int_ltb : ℤ → ℤ → Bool
int_ltb (pos m) (pos n) = ltb m n
int_ltb (pos m) (negsuc n) = false
int_ltb (negsuc m) (pos n) = true
int_ltb (negsuc m) (negsuc n) = ltb n m

pub int_ltb_irrefl : (m : ℤ) → int_ltb m m ≡ false
int_ltb_irrefl (pos m) = ground arith
int_ltb_irrefl (negsuc m) = ground arith

pub int_ltb_trans : (m n k : ℤ) → int_ltb m n ≡ true → int_ltb n k ≡ true → int_ltb m k ≡ true
int_ltb_trans (pos m) (pos n) (pos k) h h' = ground arith
int_ltb_trans (pos m) (pos n) (negsuc k) h h' = ground arith
int_ltb_trans (pos m) (negsuc n) k h h' = ground arith
int_ltb_trans (negsuc m) (pos n) (pos k) h h' = refl
int_ltb_trans (negsuc m) (pos n) (negsuc k) h h' = ground arith
int_ltb_trans (negsuc m) (negsuc n) (pos k) h h' = refl
int_ltb_trans (negsuc m) (negsuc n) (negsuc k) h h' = ground arith
