-- ===== src/Prelude/Int.antt =====
-- Go's `int` and `int64` values: signed integers over the native numbers. The code modelled here
-- copies, compares and prints them; a range is written out where the code has one.
use Prim.Native.Nat.{ℕ, zero, suc}
use mathlib.Core.Path.{◌≡◌, refl}
use mathlib.Core.Logic.{◌↔◌}
use mathlib.Core.Bool.{Bool, true, false}
use native.Mathlib.Omega.{arith}
use sitebrush_v.Prelude.Tests.{◌==◌, ltb, if◌then◌else◌}

-- `negsuc n` is -(n + 1).
pub data ℤ : Type 0 where
  pos : ℕ → ℤ
  negsuc : ℕ → ℤ

abbrev pub int_eq : ℤ → ℤ → Bool
int_eq (pos a) (pos b) = a == b
int_eq (negsuc a) (negsuc b) = a == b
int_eq _ _ = false

pub int_eq_iff : (a b : ℤ) → (int_eq a b ≡ true) ↔ (a ≡ b)
int_eq_iff (pos a) (pos b) = ground arith
int_eq_iff (pos a) (negsuc b) = ground arith
int_eq_iff (negsuc a) (pos b) = ground arith
int_eq_iff (negsuc a) (negsuc b) = ground arith

-- i != 0
abbrev pub is_nonzero : ℤ → Bool
is_nonzero (pos zero) = false
is_nonzero _ = true

-- i >= 0
abbrev pub is_nonneg : ℤ → Bool
is_nonneg (pos n) = true
is_nonneg (negsuc n) = false

abbrev pub negate : ℕ → ℤ
negate zero = pos 0
negate (suc n) = negsuc n

-- i + 1
abbrev pub suc_ℤ : ℤ → ℤ
suc_ℤ (pos n) = pos (suc n)
suc_ℤ (negsuc zero) = pos 0
suc_ℤ (negsuc (suc n)) = negsuc n

-- a < b
abbrev pub ltb_ℤ : ℤ → ℤ → Bool
ltb_ℤ (pos a) (pos b) = ltb a b
ltb_ℤ (pos a) (negsuc b) = false
ltb_ℤ (negsuc a) (pos b) = true
ltb_ℤ (negsuc a) (negsuc b) = ltb b a

abbrev pub max_ℤ : ℤ → ℤ → ℤ
max_ℤ a b = if ltb_ℤ a b then b else a

pub ltb_ℤ-suc : (a : ℤ) → ltb_ℤ a (suc_ℤ a) ≡ true
ltb_ℤ-suc (pos n) = ground arith
ltb_ℤ-suc (negsuc zero) = refl
ltb_ℤ-suc (negsuc (suc n)) = ground arith

pub ltb_ℤ_irrefl : (a : ℤ) → ltb_ℤ a a ≡ false
ltb_ℤ_irrefl (pos n) = ground arith
ltb_ℤ_irrefl (negsuc n) = ground arith

-- What is below the successor of one of two numbers is below that of the larger.
pub ltb_ℤ-max_left : (x a b : ℤ) → ltb_ℤ x (suc_ℤ a) ≡ true → ltb_ℤ x (suc_ℤ (max_ℤ a b)) ≡ true
ltb_ℤ-max_left x a b h = ground arith

pub ltb_ℤ-max_right : (x a b : ℤ) → ltb_ℤ x (suc_ℤ b) ≡ true → ltb_ℤ x (suc_ℤ (max_ℤ a b)) ≡ true
ltb_ℤ-max_right x a b h = ground arith
