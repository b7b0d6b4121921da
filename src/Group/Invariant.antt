-- ===== src/Group/Invariant.antt =====
-- server/group/http.go: a group with members is the current one of its name and owns its route.
use cnfrp.Common.{
  ℕ, suc, ◌≤◌, ◌≡◌, ◌≢◌, refl, sym, ap, subst, ◌∙◌, true, false, none, some, String, string_eq,
  nat_eq, if◌then◌else◌, Option-cases, Bool-cases, inl, inr, ◌⊎◌, arith, eqb_iff, eqb,
}
use cnfrp.Common.Bytes.{Text, text_eq}
use cnfrp.Common.Dict.{Dict, get, put, get-put}
use cnfrp.Vhost.Router.{Routers, add}
use cnfrp.Vhost.Router
use cnfrp.Group.{
  HttpGroup, Controller, new_controller, new_http_group, no_members, get_or_create, is_current,
  remove_current,
}
use cnfrp.Group.Routes.{owner, same_route, owner-add, owner-del, owner-free, owner-same}
use cnfrp.Group.Names.{put-new, name_cases, same_address-some, kept-name}

module _ {ℓ} {F : Type ℓ} where
  -- a group with members is current, and its route is its own
  abbrev pub Live : Dict String ℕ → Routers ℕ → ℕ → HttpGroup F → Type 0
  Live groups table a g =
      no_members g ≡ false
      → (get g.group groups ≡ some a)
        × (owner g.domain g.location g.route_by_http_user table ≡ some a)

  pub record Inv (s : Controller F) : Type ℓ where
    pub live : (a : ℕ) (g : HttpGroup F) → get a s.heap ≡ some g → Live s.groups s.vhost_router a g
    pub made :
        (key : String) (a : ℕ)
        → get key s.groups ≡ some a
        → (g : HttpGroup F) × (get a s.heap ≡ some g)
    pub fresh : (a : ℕ) → s.next ≤ a → get a s.heap ≡ none

  pub new_controller-Inv : (table : Routers ℕ) → Inv (new_controller table)
  unfolding get
  new_controller-Inv table = record {
    live = λ a g e. cc;
    made = λ key a e. cc;
    fresh = λ a h. refl;
  }

  pub get-put_same :
      (heap : Dict ℕ (HttpGroup F)) (a : ℕ) (h : HttpGroup F) (b : ℕ)
      → eqb a b ≡ true
      → get b (put a h heap) ≡ some h
  get-put_same heap a h b same =
      get-put a b h heap ∙ ap (λ t. if t then some h else get b heap) same

  get-put_other :
      (heap : Dict ℕ (HttpGroup F)) (a : ℕ) (h : HttpGroup F) (b : ℕ)
      → eqb a b ≡ false
      → get b (put a h heap) ≡ get b heap
  get-put_other heap a h b other =
      get-put a b h heap ∙ ap (λ t. if t then some h else get b heap) other

  -- what is found in the heap with one group written
  pub put_cases :
      (heap : Dict ℕ (HttpGroup F)) (a : ℕ) (h : HttpGroup F) (b : ℕ) (g : HttpGroup F)
      → get b (put a h heap) ≡ some g
      → ((a ≡ b) × (h ≡ g)) ⊎ (a ≢ b) × (get b heap ≡ some g)
  put_cases heap a h b g e = elim (Bool-cases (eqb a b)) [
    | inl same ↦
        let found : some h ≡ some g = sym (get-put_same heap a h b same) ∙ e in
        inl ((eqb_iff a b).0 same, cc)
    | inr other ↦ inr (
      (λ same. let yes : eqb a b ≡ true = (eqb_iff a b).1 same in cc),
      sym (get-put_other heap a h b other) ∙ e,
    )
  ]

  -- a group that is there stays so
  pub put-there :
      (heap : Dict ℕ (HttpGroup F)) (a : ℕ) (h : HttpGroup F) (b : ℕ) (g : HttpGroup F)
      → get b heap ≡ some g
      → (k : HttpGroup F) × (get b (put a h heap) ≡ some k)
  put-there heap a h b g e = elim (Bool-cases (eqb a b)) [
    | inl same ↦ (h, get-put_same heap a h b same)
    | inr other ↦ (g, get-put_other heap a h b other ∙ e)
  ]

  -- an address that is not taken stays so where another is written
  pub put-free :
      (heap : Dict ℕ (HttpGroup F)) (a : ℕ) (h : HttpGroup F) (b : ℕ)
      → get b heap ≡ none
      → a ≢ b
      → get b (put a h heap) ≡ none
  put-free heap a h b e other = elim (Bool-cases (eqb a b)) [
    | inl same ↦ let no : ⊥ = other ((eqb_iff a b).0 same) in absurd no
    | inr apart ↦ get-put_other heap a h b apart ∙ e
  ]

  -- the heap with one group written, and other names and routes
  pub write_Inv :
      (s : Controller F) (groups : Dict String ℕ) (table : Routers ℕ) (a : ℕ) (old h : HttpGroup F)
      → Inv s
      → get a s.heap ≡ some old
      → Live groups table a h
      → ((b : ℕ) (g : HttpGroup F)
          → a ≢ b
          → Live s.groups s.vhost_router b g
          → Live groups table b g)
      → ((key : String) (b : ℕ) → get key groups ≡ some b → get key s.groups ≡ some b)
      → Inv (record s { groups = groups; heap = put a h s.heap; vhost_router = table })
  write_Inv s groups table a old h inv there own others names = record {
    live = λ b g e. elim (put_cases s.heap a h b g e) [
      | inl (same, it) ↦
          subst (λ c. Live groups table c g) same (subst (λ x. Live groups table a x) it own)
      | inr (other, was) ↦ others b g other (inv.live b g was)
    ];
    made = λ key b e. let (g, was) = inv.made key b (names key b e) in put-there s.heap a h b g was;
    fresh = λ b high. put-free s.heap a h b (inv.fresh b high) (λ same.
        let gone : get a s.heap ≡ none =
          subst (λ c. get c s.heap ≡ none) (sym same) (inv.fresh b high) in
        cc);
  }

  -- a group is made under a name that has none
  made-Inv :
      (key : String) (s : Controller F)
      → Inv s
      → get key s.groups ≡ none
      → Inv (record s {
        groups = put key s.next s.groups;
        heap = put s.next new_http_group s.heap;
        next = suc s.next;
      })
  made-Inv key s inv none_there = record {
    live = λ b g e. elim (put_cases s.heap s.next new_http_group b g e) [
      | inl (same, it) ↦
          subst (λ (x : HttpGroup F). Live (put key s.next s.groups) s.vhost_router b x) it
            (λ full. cc)
      | inr (other, was) ↦ λ full.
          let (current, owned) = inv.live b g was full in
          (put-new s.groups key s.next g.group b none_there current, owned)
    ];
    made = λ other b e. elim (name_cases s.groups key s.next other b e) [
      | inl same ↦
          (new_http_group, get-put_same s.heap s.next new_http_group b ((eqb_iff s.next b).1 same))
      | inr was ↦
          let (g, there) = inv.made other b was in put-there s.heap s.next new_http_group b g there
    ];
    fresh = λ b high.
        put-free s.heap s.next new_http_group b (inv.fresh b (omega arith)) (λ same. omega arith);
  }

  pub get_or_create-Inv : (key : String) (s : Controller F) → Inv s → Inv (get_or_create key s).1
  unfolding get_or_create
  get_or_create-Inv key s inv = elim (Option-cases (get key s.groups)) [
    | inl e ↦ rw (e, get_or_create) (made-Inv key s inv e)
    | inr (a, e) ↦ rw (e, get_or_create) inv
  ]

  pub current_name :
      (key : String) (a : ℕ) (s : Controller F)
      → is_current key a s ≡ true
      → get key s.groups ≡ some a
  unfolding is_current
  current_name key a s h = same_address-some (get key s.groups) a h

  -- the route of a new group leaves the others theirs
  pub add-Live :
      (d l : Text) (u : String) (a : ℕ) (s : Controller F) (after : Routers ℕ) (b : ℕ)
      (g : HttpGroup F)
      → add d l u a s.vhost_router ≡ some after
      → Live s.groups s.vhost_router b g
      → Live s.groups after b g
  add-Live d l u a s after b g e live full =
      let (current, owned) = live full in
      (
        current,
        elim (Bool-cases (same_route d l u g.domain g.location g.route_by_http_user)) [
          | inl same ↦
              let free : owner g.domain g.location g.route_by_http_user s.vhost_router ≡ none =
                owner-same d l u g.domain g.location g.route_by_http_user s.vhost_router same
                ∙ owner-free d l u a s.vhost_router after e in
              let no : none ≡ some b = sym free ∙ owned in cc
          | inr apart ↦
              owner-add d l u a s.vhost_router after g.domain g.location g.route_by_http_user e
              ∙ ap
                  (λ t.
                    if t
                    then some a
                    else owner g.domain g.location g.route_by_http_user s.vhost_router)
                  apart
              ∙ owned
        ],
      )

  -- the end of UnRegister leaves the others their names and routes
  pub leave-Live :
      (s : Controller F) (a : ℕ) (old : HttpGroup F) (b : ℕ) (g : HttpGroup F)
      → (get old.group s.groups ≡ some a)
        × (owner old.domain old.location old.route_by_http_user s.vhost_router ≡ some a)
      → a ≢ b
      → Live s.groups s.vhost_router b g
      → Live
          (remove_current old.group a s.groups)
          (Router.del old.domain old.location old.route_by_http_user s.vhost_router)
          b
          g
  leave-Live s a old b g (mine, route) other live full =
      let (current, owned) = live full in
      (
        kept-name s.groups old.group a g.group b mine current other,
        elim (Bool-cases (
            same_route old.domain old.location old.route_by_http_user g.domain g.location
              g.route_by_http_user)) [
                | inl same ↦
                    let both : some a ≡ some b =
                      sym route
                      ∙ (sym (
                            owner-same old.domain old.location old.route_by_http_user g.domain
                              g.location g.route_by_http_user s.vhost_router same)
                          ∙ owned) in
                    let it : a ≡ b = cc in absurd (other it)
                | inr apart ↦
                    owner-del old.domain old.location old.route_by_http_user s.vhost_router g.domain
                      g.location g.route_by_http_user
                    ∙ ap
                        (λ t.
                          if t
                          then none
                          else owner g.domain g.location g.route_by_http_user s.vhost_router)
                        apart
                    ∙ owned
              ],
      )
