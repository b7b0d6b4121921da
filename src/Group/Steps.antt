-- ===== src/Group/Steps.antt =====
-- server/group/http.go: every call keeps the invariant of the groups.
use cnfrp.Common.{
  ℕ, ◌≡◌, ◌≢◌, refl, sym, ap, ◌∙◌, Bool, true, false, not, some, List, [], ◌∷◌, String, string_eq,
  nat_eq, if◌then◌else◌, Option-cases, if_cases, inl, inr,
}
use cnfrp.Common.Bytes.{text_eq}
use cnfrp.Common.Dict.{get, has}
use cnfrp.Vhost.Router.{Routers, add}
use cnfrp.Group.{
  Answer, RouteConfig, HttpGroup, Controller, new_controller, no_members, is_current, join_error,
  enter_proxy, register_first, register_later, register_at, without_member, leave, unregister_at,
}
use cnfrp.Group.{choose_endpoint}
use cnfrp.Group.Calls.{Call, gets, registers, unregisters, chooses, choose_at, step, run}
use cnfrp.Group.Routes.{owner, owner-add, same_route_self}
use cnfrp.Group.Names.{removed-name}
use cnfrp.Group.Invariant.{
  Live, Inv, write_Inv, get_or_create-Inv, current_name, add-Live, leave-Live, new_controller-Inv,
}

yes_of_not : (b : Bool) → not b ≡ false → b ≡ true
yes_of_not true h = refl
yes_of_not false h = cc

module _ {ℓ} {F : Type ℓ} where
  -- a group that is written where it was, with its name, its route and other members
  enter_proxy-Inv :
      (a : ℕ) (name : String) (route : RouteConfig F) (s : Controller F) (table : Routers ℕ)
      (old g : HttpGroup F)
      → Inv s
      → get a s.heap ≡ some old
      → (get g.group s.groups ≡ some a)
        × (owner g.domain g.location g.route_by_http_user table ≡ some a)
      → ((b : ℕ) (h : HttpGroup F)
          → a ≢ b
          → Live s.groups s.vhost_router b h
          → Live s.groups table b h)
      → Inv (enter_proxy a name route g (record s { vhost_router = table })).1
  unfolding enter_proxy
  enter_proxy-Inv a name route s table old g inv there own others =
      if_cases (λ (r : Answer × Controller F). Inv r.1) (has name g.create_funcs) _ _
        (λ e. write_Inv s s.groups table a old g inv there (λ full. own) others (λ key b k. k))
        (λ e. write_Inv s s.groups table a old _ inv there (λ full. own) others (λ key b k. k))

  register_first-Inv :
      (a : ℕ) (name group group_key : String) (route : RouteConfig F) (g : HttpGroup F)
      (s : Controller F)
      → Inv s
      → get a s.heap ≡ some g
      → get group s.groups ≡ some a
      → Inv (register_first a name group group_key route g s).1
  unfolding register_first
  register_first-Inv a name group group_key route g s inv there current =
      elim (Option-cases
        (add route.domain route.location route.route_by_http_user a s.vhost_router)) [
          | inl e ↦ rw (register_first, e) inv
          | inr (table, e) ↦
              rw (register_first, e)
                (enter_proxy-Inv a name route s table g _ inv there
                  (
                    current,
                    owner-add route.domain route.location route.route_by_http_user a s.vhost_router
                          table route.domain route.location route.route_by_http_user e
                        ∙ ap
                            (λ t.
                              if t
                              then some a
                              else owner route.domain route.location route.route_by_http_user
                                  s.vhost_router)
                            (same_route_self route.domain route.location route.route_by_http_user),
                  )
                  (λ b h other live.
                    add-Live route.domain route.location route.route_by_http_user a s table b h e
                      live))
        ]

  register_later-Inv :
      (a : ℕ) (name group group_key : String) (route : RouteConfig F) (g : HttpGroup F)
      (s : Controller F)
      → Inv s
      → get a s.heap ≡ some g
      → no_members g ≡ false
      → Inv (register_later a name group group_key route g s).1
  unfolding register_later
  register_later-Inv a name group group_key route g s inv there full =
      elim (Option-cases (join_error group group_key route g)) [
        | inl e ↦
            rw (register_later, e)
              (enter_proxy-Inv a name route s s.vhost_router g g inv there (inv.live a g there full)
                (λ b h other live. live))
        | inr (err, e) ↦ rw (register_later, e) inv
      ]

  pub register_at-Inv :
      (a : ℕ) (name group group_key : String) (route : RouteConfig F) (s : Controller F)
      → Inv s
      → Inv (register_at a name group group_key route s).1
  unfolding register_at
  register_at-Inv a name group group_key route s inv =
      if_cases (λ (r : Answer × Controller F). Inv r.1) (not (is_current group a s)) _ _ (λ e. inv)
        (λ e. elim (Option-cases (get a s.heap)) [
          | inl k ↦ rw k inv
          | inr (g, k) ↦ rw k (
              if_cases (λ (r : Answer × Controller F). Inv r.1) (no_members g) _ _
                (λ empty.
                  register_first-Inv a name group group_key route g s inv k
                    (current_name group a s (yes_of_not _ e)))
                (λ full. register_later-Inv a name group group_key route g s inv k full))
        ])

  -- a member of a group leaves it
  unregister_at-Inv :
      (a : ℕ) (name : String) (g : HttpGroup F) (s : Controller F)
      → Inv s
      → get a s.heap ≡ some g
      → no_members g ≡ false
      → Inv (unregister_at a name s)
  unfolding unregister_at without_member leave
  unregister_at-Inv a name g s inv there full =
      let (mine, route) = inv.live a g there full in
      rw (unregister_at, there)
        (if_cases (λ (r : Controller F). Inv r) (no_members (without_member name g)) _ _
          (λ empty.
            write_Inv s _ _ a g (without_member name g) inv there
              (λ still. let no : true ≡ false = sym empty ∙ still in cc)
              (λ b h other live. leave-Live s a g b h (mine, route) other live)
              (λ key b e. removed-name s.groups g.group a key b mine e))
          (λ still.
            write_Inv s s.groups s.vhost_router a g (without_member name g) inv there
              (λ more. (mine, route)) (λ b h other live. live) (λ key b e. e)))

  choose_at-Inv : (a : ℕ) (s : Controller F) → Inv s → Inv (choose_at a s)
  unfolding choose_at choose_endpoint
  choose_at-Inv a s inv = elim (Option-cases (get a s.heap)) [
    | inl e ↦ rw (choose_at, e) inv
    | inr (g, e) ↦
        rw (choose_at, e)
          (write_Inv s s.groups s.vhost_router a g _ inv e (inv.live a g e) (λ b h other live. live)
            (λ key b k. k))
  ]

  -- A proxy only leaves a group that has members.
  abbrev pub Allowed : Controller F → Call F → Type ℓ
  Allowed s (unregisters a name) =
      (g : HttpGroup F) × (get a s.heap ≡ some g) × (no_members g ≡ false)
  Allowed s (gets group) = Unit
  Allowed s (registers a name group group_key route) = Unit
  Allowed s (chooses a) = Unit

  abbrev pub AllAllowed : Controller F → List (Call F) → Type ℓ
  AllAllowed s [] = Unit
  AllAllowed s (c ∷ cs) = Allowed s c × AllAllowed (step s c) cs

  step-Inv : (s : Controller F) (c : Call F) → Inv s → Allowed s c → Inv (step s c)
  unfolding step
  step-Inv s (gets group) inv ok = get_or_create-Inv group s inv
  step-Inv s (registers a name group group_key route) inv ok =
      register_at-Inv a name group group_key route s inv
  step-Inv s (unregisters a name) inv (g, there, full) = unregister_at-Inv a name g s inv there full
  step-Inv s (chooses a) inv ok = choose_at-Inv a s inv

  pub run-Inv : (cs : List (Call F)) (s : Controller F) → Inv s → AllAllowed s cs → Inv (run s cs)
  unfolding run
  run-Inv [] s inv ok = inv
  run-Inv (c ∷ cs) s inv ok = run-Inv cs (step s c) (step-Inv s c inv ok.0) ok.1

  -- After any calls on a new controller over any table of routes, in any order, where a proxy only
  -- leaves a group that has members: a group with members is the one that its name stands for, and
  -- it owns its domain, location and user in the table.
  pub run-new_controller-Live :
      (table : Routers ℕ) (cs : List (Call F)) (a : ℕ) (g : HttpGroup F)
      → AllAllowed (new_controller table) cs
      → get a (run (new_controller table) cs).heap ≡ some g
      → no_members g ≡ false
      → (get g.group (run (new_controller table) cs).groups ≡ some a)
        × (owner g.domain g.location g.route_by_http_user
              (run (new_controller table) cs).vhost_router
            ≡ some a)
  run-new_controller-Live table cs a g ok =
      (run-Inv cs (new_controller table) (new_controller-Inv table) ok).live a g
