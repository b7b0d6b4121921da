-- ===== src/Source.antt =====
-- pkg/config/source/{base_source,config_source,clone}.go: where a client's proxies and visitors
-- come from. Proxies and visitors are handled by the same code twice, so their content is a
-- parameter: of a configuration only the name and the switch `enabled` are read. The lock makes
-- each operation one step.
pub mod Laws
pub mod Store
pub mod Aggregator
pub mod Tests
use cnfrp.Common.{
  Bool, true, false, Option, none, some, List, [], ◌∷◌, ◌==◌, if◌then◌else◌, map, keep,
}
use cnfrp.Common.Bytes.{Text, text_eq}
use cnfrp.Common.Dict.{Dict, get, put}

-- what `GetBaseConfig` gives, and the rest
pub record Configurer (A : Type 0) : Type 0 where
  pub name : Text
  pub enabled : Option Bool
  pub body : A

pub record BaseSource (P V : Type 0) : Type 0 where
  pub proxies : Dict Text (Configurer P)
  pub visitors : Dict Text (Configurer V)

abbrev pub Configs : Type 0 → Type 0
Configs A = Dict Text (Configurer A)

module _ {A : Type 0} where
  -- absent or true means enabled
  unfoldable pub is_enabled : Configurer A → Bool
  is_enabled c = elim c.enabled [ none ↦ true | some b ↦ b ]

  abbrev pub values : Configs A → List (Configurer A)
  values m = map (λ e. e.1) m

  unfoldable pub load_enabled : Configs A → List (Configurer A)
  load_enabled m = keep is_enabled (values m)

  -- the map that a list of configurations makes; a later one of a name wins
  unfoldable pub collect : List (Option (Configurer A)) → Configs A → Option (Configs A)
  collect [] m = some m
  collect (none ∷ cs) m = none
  collect (some c ∷ cs) m =
      let rest = collect cs (put c.name c m) in if c.name == [] then none else rest

unfoldable pub new_base_source : {P V : Type 0} → BaseSource P V
new_base_source = record { proxies = []; visitors = [] }

module _ {P V : Type 0} where
  unfoldable pub load : BaseSource P V → List (Configurer P) × List (Configurer V)
  load s = (load_enabled s.proxies, load_enabled s.visitors)

  -- false: one is nil or has no name
  unfoldable pub replace_all :
      List (Option (Configurer P))
      → List (Option (Configurer V))
      → BaseSource P V
      → Bool × BaseSource P V
  replace_all ps vs s = elim (collect ps []) [
    | none ↦ (false, s)
    | some next_proxies ↦ elim (collect vs []) [
      | none ↦ (false, s)
      | some next_visitors ↦ (true, record { proxies = next_proxies; visitors = next_visitors })
    ]
  ]
