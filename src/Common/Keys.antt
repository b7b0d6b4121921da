-- ===== src/Common/Keys.antt =====
-- What a Go map asks of the type of its keys: a test that decides equality.
use Prim.Native.Nat.{ℕ}
use Prim.Native.String.{String}
use mathlib.Core.Path.{◌≡◌, refl}
use mathlib.Core.Logic.{◌↔◌, ◌⊎◌}
use mathlib.Core.List.{List, [], ◌∷◌}
use mathlib.Core.Bool.{Bool, true}
use native.Mathlib.Omega.{arith}
use text.Mathlib.Text
use text.Mathlib.TextEquality
use cnfrp.Common.Tests.{eqb}
use cnfrp.Common.Lists.{any}

pub record Key {ℓ} (K : Type ℓ) : Type ℓ where
  pub same : K → K → Bool
  pub same_iff : (j k : K) → (same j k ≡ true) ↔ (j ≡ k)

pub str_eq_iff : (s t : String) → (Text.◌==◌ s t ≡ true) ↔ (s ≡ t)
str_eq_iff s t = TextEquality.eq_iff s t

instance abbrev pub string_eq : Key String
string_eq = record { same = Text.◌==◌; same_iff = str_eq_iff }

pub eqb_iff : (m n : ℕ) → (eqb m n ≡ true) ↔ (m ≡ n)
eqb_iff m n = ground arith

instance abbrev pub nat_eq : Key ℕ
nat_eq = record { same = eqb; same_iff = eqb_iff }

module _ {ℓ} {K : Type ℓ} ⦃key : Key K⦄ where
  infix 50 ◌==◌
  abbrev pub ◌==◌ : K → K → Bool
  j == k = key.same j k

  pub same_self : (k : K) → (k == k) ≡ true
  same_self k = (key.same_iff k k).1 refl

-- one of the names of a list
abbrev pub OneOf : List String → String → Type 0
OneOf [] s = ⊥
OneOf (x ∷ xs) s = (x ≡ s) ⊎ OneOf xs s

pub any_iff : (xs : List String) (s : String) → (any (λ x. x == s) xs ≡ true) ↔ OneOf xs s
any_iff [] s = ground arith
any_iff (x ∷ xs) s = ground (arith, str_eq_iff x s, any_iff xs s)
