-- ===== src/Vhost/Router.antt =====
-- pkg/util/vhost/router.go: `Routers`, the table that the HTTP, HTTPS and TCPMUX front ends share.
-- A domain has a map from the HTTP user to its routers, the greatest location first. The mutex
-- makes each operation one step.
pub mod Order
pub mod Laws
pub mod Get
use cnfrp.Common.{
  ℕ, String, Bool, true, false, Option, none, some, List, [], ◌∷◌, ◌++◌, ◌==◌, string_eq,
  if◌then◌else◌, is_some, not, keep,
}
use cnfrp.Common.Bytes.{Text, text_eq, to_lower, has_prefix, less}
use cnfrp.Common.Dict.{Dict, get, put}

pub record Router {ℓ} (P : Type ℓ) : Type ℓ where
  pub domain : Text
  pub location : Text
  pub http_user : String
  pub payload : P

abbrev pub Routers {ℓ} : Type ℓ → Type ℓ
Routers P = Dict Text (Dict String (List (Router P)))

module _ {ℓ} {P : Type ℓ} where
  -- the loop of `exist`
  unfoldable pub find_location : Text → List (Router P) → Option (Router P)
  find_location path [] = none
  find_location path (r ∷ rest) = if path == r.location then some r else find_location path rest

  -- the loop of `Get`
  unfoldable pub find_prefix : Text → List (Router P) → Option (Router P)
  find_prefix path [] = none
  find_prefix path (r ∷ rest) = if has_prefix path r.location then some r else find_prefix path rest

  -- the routers of a domain and a user; no entry and an empty slice are alike to every reader
  unfoldable pub routers_of : Text → String → Routers P → List (Router P)
  routers_of domain user table = elim (get domain table) [
    | none ↦ []
    | some by_user ↦ elim (get user by_user) [ none ↦ [] | some vrs ↦ vrs ]
  ]

  unfoldable pub exist : Text → Text → String → Routers P → Option (Router P)
  unfolding routers_of find_location
  exist host path user table = find_location path (routers_of host user table)

  -- `slices.SortFunc` by `-cmp.Compare(a.location, b.location)`
  unfoldable pub insert_router : Router P → List (Router P) → List (Router P)
  insert_router r [] = r ∷ []
  insert_router r (x ∷ rest) =
      let later = insert_router r rest in
      if less r.location x.location then x ∷ later else r ∷ x ∷ rest

  unfoldable pub sort_routers : List (Router P) → List (Router P)
  sort_routers [] = []
  sort_routers (r ∷ rest) = insert_router r (sort_routers rest)

  -- the map of a domain, made where it is missing
  unfoldable pub by_user_of : Text → Routers P → Dict String (List (Router P))
  by_user_of domain table = elim (get domain table) [ none ↦ [] | some by_user ↦ by_user ]

  unfoldable pub add_sorted : Text → Text → String → P → Routers P → Routers P
  unfolding by_user_of routers_of
  add_sorted domain location user payload table =
      put domain
        (put user
          (sort_routers (
            routers_of domain user table
            ++ record { domain = domain; location = location; http_user = user; payload = payload }
              ∷ []))
          (by_user_of domain table))
        table

  -- `none` is ErrRouterConfigConflict
  unfoldable pub add : Text → Text → String → P → Routers P → Option (Routers P)
  add domain location user payload table =
      if is_some (exist (to_lower domain) location user table)
      then none
      else some (add_sorted (to_lower domain) location user payload table)

  -- what `Del` writes back for a user that has an entry
  del_in : Text → Text → String → Routers P → Dict String (List (Router P)) → Routers P
  del_in domain location user table by_user = elim (get user by_user) [
    | none ↦ table
    | some vrs ↦ put domain (put user (keep (λ r. not (r.location == location)) vrs) by_user) table
  ]

  unfoldable pub del : Text → Text → String → Routers P → Routers P
  unfolding del_in
  del domain location user table = elim (get (to_lower domain) table) [
    | none ↦ table
    | some by_user ↦ del_in (to_lower domain) location user table by_user
  ]

  unfoldable pub get_router : Text → Text → String → Routers P → Option (Router P)
  unfolding routers_of find_prefix
  get_router host path user table = find_prefix path (routers_of (to_lower host) user table)

pub data Call {ℓ} (P : Type ℓ) : Type ℓ where
  adds : Text → Text → String → P → Call P
  dels : Text → Text → String → Call P

module _ {ℓ} {P : Type ℓ} where
  -- an `Add` that is refused leaves the table as it was
  unfoldable pub step : Routers P → Call P → Routers P
  step table (adds domain location user payload) = elim (add domain location user payload table) [
    | none ↦ table
    | some after ↦ after
  ]
  step table (dels domain location user) = del domain location user table

  unfoldable pub run : Routers P → List (Call P) → Routers P
  run table [] = table
  run table (c ∷ cs) = run (step table c) cs
