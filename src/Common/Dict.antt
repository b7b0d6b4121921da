-- ===== src/Common/Dict.antt =====
-- A Go map as an association list. The order of the entries is the order in which a `range` loop
-- meets them; a theorem that holds for every list holds for every such order.
use cnfrp.Common.Keys.{Key, ◌==◌, same_self}
use cnfrp.Common.Tests.{if◌then◌else◌, is_some}
use mathlib.Core.Path.{◌≡◌, refl}
use mathlib.Core.Bool.{Bool}
use mathlib.Core.Option.{Option, none, some}
use mathlib.Core.List.{List, [], ◌∷◌}
use native.Mathlib.Omega.{arith}

abbrev pub Dict {ℓ κ} : Type ℓ → Type κ → Type (ℓ ⊔ κ)
Dict K V = List (K × V)

module _ {ℓ κ} {K : Type ℓ} {V : Type κ} ⦃e : Key K⦄ where
  unfoldable pub get : K → Dict K V → Option V
  get k [] = none
  get k ((j, v) ∷ m) = if j == k then some v else get k m

  unfoldable pub put : K → V → Dict K V → Dict K V
  put k v [] = (k, v) ∷ []
  put k v ((j, w) ∷ m) = if j == k then (k, v) ∷ m else (j, w) ∷ put k v m

  unfoldable pub del : K → Dict K V → Dict K V
  del k [] = []
  del k ((j, v) ∷ m) = let rest = del k m in if j == k then rest else (j, v) ∷ rest

  abbrev pub has : K → Dict K V → Bool
  has k m = is_some (get k m)

  pub get-put :
      (k j : K) (v : V) (m : Dict K V) → get j (put k v m) ≡ (if k == j then some v else get j m)
  unfolding get put
  get-put k j v [] = refl
  get-put k j v ((i, w) ∷ m) =
      ground (arith, e.same_iff k j, e.same_iff i k, e.same_iff i j, get-put k j v m)

  pub get-del : (k j : K) (m : Dict K V) → get j (del k m) ≡ (if k == j then none else get j m)
  unfolding get del
  get-del k j [] = ground arith
  get-del k j ((i, w) ∷ m) =
      ground (arith, e.same_iff k j, e.same_iff i k, e.same_iff i j, get-del k j m)

  pub get-put_self : (k : K) (v : V) (m : Dict K V) → get k (put k v m) ≡ some v
  get-put_self k v m = rw (get-put, same_self k)

  pub get-del_self : (k : K) (m : Dict K V) → get k (del k m) ≡ none
  get-del_self k m = rw (get-del, same_self k)

  pub get-empty : (k : K) → get k [] ≡ none
  unfolding get
  get-empty k = refl

  -- No key stands twice.
  abbrev pub Distinct : Dict K V → Type κ
  Distinct [] = Unit
  Distinct ((k, v) ∷ m) = (get k m ≡ none) × Distinct m

  pub put-Distinct : (k : K) (v : V) (m : Dict K V) → Distinct m → Distinct (put k v m)
  unfolding put get
  put-Distinct k v [] d = (refl, tt)
  put-Distinct k v ((j, w) ∷ m) d =
      ground (arith, e.same_iff j k, e.same_iff k j, get-put k j v m, put-Distinct k v m d.1)

  pub del-Distinct : (k : K) (m : Dict K V) → Distinct m → Distinct (del k m)
  unfolding del
  del-Distinct k [] d = tt
  del-Distinct k ((j, w) ∷ m) d = ground (arith, get-del k j m, del-Distinct k m d.1)

  pub ruleset dict_laws = (get-put, get-del, get-put_self, get-del_self, get-empty)
