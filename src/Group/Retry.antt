-- ===== src/Group/Retry.antt =====
-- server/group/http.go, `(*HTTPGroupController).Register`: the loop over stale groups ends.
use cnfrp.Common.{
  ℕ, ◌≡◌, refl, sym, ap, ◌∙◌, Bool, true, false, some, List, [], ◌∷◌, String, string_eq, nat_eq,
  Option-cases, if_cases, inl, inr, All, eqb_iff, arith,
}
use cnfrp.Common.Dict.{get, get-put_self, has}
use cnfrp.Vhost.Router.{add}
use cnfrp.Group.{
  Answer, RouteConfig, HttpGroup, Controller, get_or_create, register_at, is_current, no_members,
  register_first, register_later, enter_proxy, join_error,
}
use cnfrp.Group.Calls.{answers_stale, register_loop}
use cnfrp.Group.Invariant.{Inv, get_or_create-Inv}
use cnfrp.Group.Steps.{register_at-Inv}

module _ {ℓ} {F : Type ℓ} where
  enter_proxy-fresh :
      (a : ℕ) (name : String) (route : RouteConfig F) (g : HttpGroup F) (s : Controller F)
      → answers_stale (enter_proxy a name route g s).0 ≡ false
  unfolding enter_proxy
  enter_proxy-fresh a name route g s =
      if_cases (λ (r : Answer × Controller F). answers_stale r.0 ≡ false) (has name g.create_funcs)
        _ _ (λ e. refl) (λ e. refl)

  register_first-fresh :
      (a : ℕ) (name group group_key : String) (route : RouteConfig F) (g : HttpGroup F)
      (s : Controller F)
      → answers_stale (register_first a name group group_key route g s).0 ≡ false
  unfolding register_first
  register_first-fresh a name group group_key route g s =
      elim (Option-cases
        (add route.domain route.location route.route_by_http_user a s.vhost_router)) [
          | inl e ↦ rw (register_first, e) refl
          | inr (table, e) ↦ rw (register_first, e) (enter_proxy-fresh a name route _ _)
        ]

  join_error-fresh :
      (group group_key : String) (route : RouteConfig F) (g : HttpGroup F)
      → answers_stale (join_error group group_key route g) ≡ false
  unfolding join_error
  join_error-fresh group group_key route g = ground arith

  register_later-fresh :
      (a : ℕ) (name group group_key : String) (route : RouteConfig F) (g : HttpGroup F)
      (s : Controller F)
      → answers_stale (register_later a name group group_key route g s).0 ≡ false
  unfolding register_later
  register_later-fresh a name group group_key route g s =
      elim (Option-cases (join_error group group_key route g)) [
        | inl e ↦ rw (register_later, e) (enter_proxy-fresh a name route g s)
        | inr (err, e) ↦
            rw (register_later, e)
              (sym (ap answers_stale e) ∙ join_error-fresh group group_key route g)
      ]

  -- the group that a name stands for is not stale
  register_at-fresh :
      (a : ℕ) (name group group_key : String) (route : RouteConfig F) (s : Controller F)
      (g : HttpGroup F)
      → get group s.groups ≡ some a
      → get a s.heap ≡ some g
      → answers_stale (register_at a name group group_key route s).0 ≡ false
  unfolding register_at is_current
  register_at-fresh a name group group_key route s g current there =
      rw (register_at, is_current, current, (eqb_iff a a).1 refl, there)
        (if_cases (λ (r : Answer × Controller F). answers_stale r.0 ≡ false) (no_members g) _ _
          (λ e. register_first-fresh a name group group_key route g s)
          (λ e. register_later-fresh a name group group_key route g s))

  -- what `getOrCreate` answers is what the name stands for
  get_or_create-current :
      (group : String) (s : Controller F)
      → get group (get_or_create group s).1.groups ≡ some (get_or_create group s).0
  unfolding get_or_create
  get_or_create-current group s = elim (Option-cases (get group s.groups)) [
    | inl e ↦ rw (get_or_create, e) (get-put_self group s.next s.groups)
    | inr (a, e) ↦ rw (get_or_create, e) e
  ]

  quiet_round :
      (name group group_key : String) (route : RouteConfig F) (s : Controller F)
      → Inv s
      → answers_stale (register_loop [] name group group_key route s).0 ≡ false
  unfolding register_loop
  quiet_round name group group_key route s inv =
      let current = get_or_create-current group s in
      let (g, there) = (get_or_create-Inv group s inv).made group _ current in
      register_at-fresh _ name group group_key route (get_or_create group s).1 g current there

  -- a round of the loop ends it, or what follows does
  round_ends :
      (rounds : List (Controller F → Controller F)) (name group group_key : String)
      (route : RouteConfig F) (answer : Answer) (after : Controller F) (stale : Bool)
      → answers_stale answer ≡ stale
      → Inv after
      → (answers_stale (register_loop rounds name group group_key route after).0 ≡ false)
        × Inv (register_loop rounds name group group_key route after).1
      → let out : Answer × Controller F = elim stale [
        | true ↦ register_loop rounds name group group_key route after
        | false ↦ (answer, after)
      ] in
        (answers_stale out.0 ≡ false) × Inv out.1
  round_ends rounds name group group_key route answer after true e inv later = later
  round_ends rounds name group group_key route answer after false e inv later = (e, inv)

  -- From a state that keeps the invariant of the groups, and with others doing between the two
  -- steps of each round whatever keeps it: Register never answers that a group is stale, it ends at
  -- the latest in the first round in which nobody comes between, and it keeps the invariant.
  pub register_loop-ends :
      (rounds : List (Controller F → Controller F)) (name group group_key : String)
      (route : RouteConfig F) (s : Controller F)
      → All
          (λ (others : Controller F → Controller F). (t : Controller F) → Inv t → Inv (others t))
          rounds
      → Inv s
      → (answers_stale (register_loop rounds name group group_key route s).0 ≡ false)
        × Inv (register_loop rounds name group group_key route s).1
  unfolding register_loop
  register_loop-ends [] name group group_key route s keep inv = (
    quiet_round name group group_key route s inv,
    register_at-Inv _ name group group_key route _ (get_or_create-Inv group s inv),
  )
  register_loop-ends (others ∷ rounds) name group group_key route s keep inv =
      let (a, made) = get_or_create group s in
      let after = register_at a name group group_key route (others made) in
      let next : Inv after.1 =
        register_at-Inv a name group group_key route (others made)
          (keep.0 made (get_or_create-Inv group s inv)) in
      round_ends rounds name group group_key route after.0 after.1 _ refl next
        (register_loop-ends rounds name group group_key route after.1 keep.1 next)
