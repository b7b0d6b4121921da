-- ===== src/Common/Integer.antt =====
-- The integers that a score runs through, with the steps and the order that the program uses.
use Prim.Native.Nat.{ℕ, zero, suc}
use mathlib.Core.Path.{◌≡◌, refl}
use mathlib.Core.Bool.{Bool, true, false}
use native.Mathlib.Omega.{arith}
use cnfrp.Common.Tests.{ltb, if◌then◌else◌}

-- `negsuc n` is -(n + 1).
pub data ℤ : Type 0 where
  pos : ℕ → ℤ
  negsuc : ℕ → ℤ

abbrev pub lt_int : ℤ → ℤ → Bool
lt_int (pos a) (pos b) = ltb a b
lt_int (pos a) (negsuc b) = false
lt_int (negsuc a) (pos b) = true
lt_int (negsuc a) (negsuc b) = ltb b a

unfoldable pub inc_int : ℤ → ℤ
inc_int (pos n) = pos (suc n)
inc_int (negsuc zero) = pos zero
inc_int (negsuc (suc n)) = negsuc n

unfoldable pub dec_int : ℤ → ℤ
dec_int (pos zero) = negsuc zero
dec_int (pos (suc n)) = pos n
dec_int (negsuc n) = negsuc (suc n)

unfoldable pub min_int : ℤ → ℤ → ℤ
min_int a b = if lt_int b a then b else a

pub lt_int_irrefl : (a : ℤ) → lt_int a a ≡ false
lt_int_irrefl (pos n) = ground arith
lt_int_irrefl (negsuc n) = ground arith

-- "Not smaller" is transitive.
pub not_lt_int_trans : (a b c : ℤ) → lt_int a b ≡ false → lt_int b c ≡ false → lt_int a c ≡ false
not_lt_int_trans (pos a) (pos b) (pos c) h k = ground arith
not_lt_int_trans (pos a) (pos b) (negsuc c) h k = refl
not_lt_int_trans (pos a) (negsuc b) (pos c) h k = cc
not_lt_int_trans (pos a) (negsuc b) (negsuc c) h k = refl
not_lt_int_trans (negsuc a) (pos b) (pos c) h k = cc
not_lt_int_trans (negsuc a) (pos b) (negsuc c) h k = cc
not_lt_int_trans (negsuc a) (negsuc b) (pos c) h k = cc
not_lt_int_trans (negsuc a) (negsuc b) (negsuc c) h k = ground arith

pub not_lt_int_of_lt : (a b : ℤ) → lt_int a b ≡ true → lt_int b a ≡ false
not_lt_int_of_lt (pos a) (pos b) h = ground arith
not_lt_int_of_lt (pos a) (negsuc b) h = cc
not_lt_int_of_lt (negsuc a) (pos b) h = refl
not_lt_int_of_lt (negsuc a) (negsuc b) h = ground arith

pub min_int-le_right : (a b : ℤ) → lt_int b (min_int a b) ≡ false
unfolding min_int
min_int-le_right (pos a) (pos b) = ground arith
min_int-le_right (pos a) (negsuc b) = ground arith
min_int-le_right (negsuc a) (pos b) = refl
min_int-le_right (negsuc a) (negsuc b) = ground arith

pub dec_int-le : (a b : ℤ) → lt_int b a ≡ false → lt_int b (dec_int a) ≡ false
unfolding dec_int
dec_int-le (pos zero) (pos b) h = refl
dec_int-le (pos zero) (negsuc b) h = cc
dec_int-le (pos (suc a)) (pos b) h = ground arith
dec_int-le (pos (suc a)) (negsuc b) h = cc
dec_int-le (negsuc a) (pos b) h = refl
dec_int-le (negsuc a) (negsuc b) h = ground arith
