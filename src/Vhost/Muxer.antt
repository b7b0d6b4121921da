-- ===== src/Vhost/Muxer.antt =====
-- pkg/util/vhost/vhost.go: how `Muxer.getListener` chooses the listener of a request: the host
-- itself, then wildcard domains, then the domain that matches all.
pub mod Laws
pub mod Complete
pub mod Wildcards
pub mod Specific
use cnfrp.Common.{
  ℕ, String, ◌≡◌, refl, Bool, true, false, Option, none, some, List, [], ◌∷◌, ◌++◌, map, ◌≢◌,
}
use cnfrp.Common.Bytes.{Text, join, split}
use cnfrp.Vhost.Router.{Routers, Router, get_router}

abbrev pub star : Text
star = b'*' ∷ []

abbrev pub dot : ℕ
dot = b'.'

abbrev pub or_else {ℓ} : {A : Type ℓ} → Option A → Option A → Option A
or_else none b = b
or_else (some a) b = some a

module _ {ℓ} {P : Type ℓ} where
  unfoldable pub payload_of : Option (Router P) → Option P
  payload_of none = none
  payload_of (some r) = some r.payload

  -- the closure `findRouter`: the user's routers, then those that name no user
  unfoldable pub find_router : Text → Text → String → Routers P → Option P
  unfolding payload_of
  find_router name path user table =
      or_else (payload_of (get_router name path user table))
        (payload_of (get_router name path "" table))

  -- the loop over `domainSplit`, which has at least three labels in each round
  unfoldable pub find_wildcard : List Text → Text → String → Routers P → Option P
  find_wildcard (a ∷ b ∷ c ∷ rest) path user table =
      or_else (find_router (join dot (star ∷ b ∷ c ∷ rest)) path user table)
        (find_wildcard (b ∷ c ∷ rest) path user table)
  find_wildcard _ path user table = none

  unfoldable pub get_listener : Text → Text → String → Routers P → Option P
  get_listener name path user table =
      or_else (find_router name path user table) (
        or_else (find_wildcard (split dot name) path user table) (find_router star path user table))
