-- ===== src/Source/Aggregator.antt =====
-- pkg/config/source/aggregator.go: the sources put together, the store over the configuration file,
-- in the order of the names. NewAggregator puts an empty
-- source where the file's is nil, so that there always is a source, and loading cannot fail.
pub mod Laws
use cnfrp.Common.{
  ◌≡◌, refl, Bool, true, false, Option, none, some, List, [], ◌∷◌, ◌++◌, if◌then◌else◌, keep, map,
}
use cnfrp.Common.Bytes.{Text, text_eq, less}
use cnfrp.Common.Dict.{Dict, get, put}
use cnfrp.Source.{Configurer, Configs, BaseSource, load, new_base_source, values}

pub record Aggregator (P V : Type 0) : Type 0 where
  pub config_source : BaseSource P V
  pub store_source : Option (BaseSource P V)

module _ {P V : Type 0} where
  unfoldable pub new_aggregator : Option (BaseSource P V) → Aggregator P V
  new_aggregator none = record { config_source = new_base_source; store_source = none }
  new_aggregator (some s) = record { config_source = s; store_source = none }

  unfoldable pub set_store_source : Option (BaseSource P V) → Aggregator P V → Aggregator P V
  set_store_source s a = record a { store_source = s }

  unfoldable pub get_sources_locked : Aggregator P V → List (BaseSource P V)
  get_sources_locked a = a.config_source ∷ elim a.store_source [ none ↦ [] | some s ↦ s ∷ [] ]

module _ {A : Type 0} where
  unfoldable pub put_all : List (Configurer A) → Configs A → Configs A
  put_all [] m = m
  put_all (c ∷ cs) m = put_all cs (put c.name c m)

  -- `slices.SortedFunc` by name
  unfoldable pub insert : Configurer A → List (Configurer A) → List (Configurer A)
  insert c [] = c ∷ []
  insert c (x ∷ xs) =
      let rest = insert c xs in if less x.name c.name then x ∷ rest else c ∷ (x ∷ xs)

  unfoldable pub sort : List (Configurer A) → List (Configurer A)
  sort [] = []
  sort (c ∷ cs) = insert c (sort cs)

module _ {P V : Type 0} where
  unfoldable pub merge : List (BaseSource P V) → Configs P × Configs V → Configs P × Configs V
  merge [] m = m
  merge (s ∷ ss) (ps, vs) = merge ss (put_all (load s).0 ps, put_all (load s).1 vs)

  unfoldable pub maps_to_sorted_slices :
      Configs P × Configs V → List (Configurer P) × List (Configurer V)
  maps_to_sorted_slices (ps, vs) = (sort (values ps), sort (values vs))

  unfoldable pub load_all : Aggregator P V → List (Configurer P) × List (Configurer V)
  load_all a = maps_to_sorted_slices (merge (get_sources_locked a) ([], []))
