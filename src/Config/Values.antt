-- ===== src/Config/Values.antt =====
-- pkg/util/util/types.go: `EmptyOr`, at the types that the configurations use it at.
use cnfrp.Common.{
  zero, suc, ◌≡◌, refl, Option, none, some, String, ◌==◌, string_eq, if◌then◌else◌, arith,
  str_eq_iff,
}
use cnfrp.Common.Integer.{ℤ, pos, negsuc}

unfoldable pub str_or : String → String → String
str_or v fallback = if v == "" then fallback else v

unfoldable pub int_or : ℤ → ℤ → ℤ
int_or (pos zero) fallback = fallback
int_or (pos (suc n)) fallback = pos (suc n)
int_or (negsuc n) fallback = negsuc n

-- a pointer is empty where it is nil
unfoldable pub ptr_or {ℓ} : {A : Type ℓ} → Option A → Option A → Option A
ptr_or none fallback = fallback
ptr_or (some a) fallback = some a

pub str_or_idem : (v d : String) → str_or (str_or v d) d ≡ str_or v d
unfolding str_or
str_or_idem v d = ground (arith, str_eq_iff v "", str_eq_iff d "")

pub int_or_idem : (v d : ℤ) → int_or (int_or v d) d ≡ int_or v d
unfolding int_or
int_or_idem (pos zero) (pos zero) = refl
int_or_idem (pos zero) (pos (suc n)) = refl
int_or_idem (pos zero) (negsuc n) = refl
int_or_idem (pos (suc n)) d = refl
int_or_idem (negsuc n) d = refl

pub ptr_or_idem {ℓ} : {A : Type ℓ} (v d : Option A) → ptr_or (ptr_or v d) d ≡ ptr_or v d
unfolding ptr_or
ptr_or_idem none none = refl
ptr_or_idem none (some a) = refl
ptr_or_idem (some a) d = refl
