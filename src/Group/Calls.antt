-- ===== src/Group/Calls.antt =====
-- server/group/http.go: the calls that a lock makes one step, in any order, and the loop of
-- `(*HTTPGroupController).Register`.
use cnfrp.Common.{ℕ, Bool, true, false, none, some, List, [], ◌∷◌, String, nat_eq}
use cnfrp.Common.Dict.{get, put}
use cnfrp.Group.{
  Answer, group_stale, group_auth_failed, group_params_invalid, proxy_repeated, router_conflict,
  RouteConfig, Controller, get_or_create, register_at, unregister_at, choose_endpoint,
}

module _ {ℓ} {F : Type ℓ} where
  -- a choice by the group at an address
  unfoldable pub choose_at : ℕ → Controller F → Controller F
  unfolding choose_endpoint
  choose_at a s = elim (get a s.heap) [
    | none ↦ s
    | some g ↦ record s { heap = put a (choose_endpoint g).1 s.heap }
  ]

pub data Call {ℓ} (F : Type ℓ) : Type ℓ where
  gets : String → Call F
  registers : ℕ → String → String → String → RouteConfig F → Call F
  unregisters : ℕ → String → Call F
  chooses : ℕ → Call F

abbrev pub answers_stale : Answer → Bool
answers_stale (some group_stale) = true
answers_stale (some group_auth_failed) = false
answers_stale (some group_params_invalid) = false
answers_stale (some proxy_repeated) = false
answers_stale (some router_conflict) = false
answers_stale none = false

module _ {ℓ} {F : Type ℓ} where
  unfoldable pub step : Controller F → Call F → Controller F
  unfolding choose_at
  step s (gets group) = (get_or_create group s).1
  step s (registers a proxy_name group group_key route) =
      (register_at a proxy_name group group_key route s).1
  step s (unregisters a proxy_name) = unregister_at a proxy_name s
  step s (chooses a) = choose_at a s

  unfoldable pub run : Controller F → List (Call F) → Controller F
  unfolding step
  run s [] = s
  run s (c ∷ cs) = run (step s c) cs

  -- `(*HTTPGroupController).Register`. What others do between the two steps of a round is a function
  -- of the list; after its last round nobody is in the way.
  unfoldable pub register_loop :
      List (Controller F → Controller F)
      → String
      → String
      → String
      → RouteConfig F
      → Controller F
      → Answer × Controller F
  register_loop [] proxy_name group group_key route s =
      let (a, made) = get_or_create group s in register_at a proxy_name group group_key route made
  register_loop (others ∷ rounds) proxy_name group group_key route s =
      let (a, made) = get_or_create group s in
      let (answer, after) = register_at a proxy_name group group_key route (others made) in
      elim (answers_stale answer) [
        | true ↦ register_loop rounds proxy_name group group_key route after
        | false ↦ (answer, after)
      ]
