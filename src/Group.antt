-- ===== src/Group.antt =====
-- server/group/registry.go and http.go: the groups of HTTP proxies that share one route. A group is
-- known by its address, as a client of the registry may still hold it when it is no longer current.
-- `F` is the type of the functions that open a connection to a proxy. A route of the table carries
-- the address of the group whose functions serve it. The methods run under locks: each is one step.
pub mod Routes
pub mod Calls
pub mod Names
pub mod Invariant
pub mod Steps
pub mod Rotation
pub mod Retry
pub mod Tests
use cnfrp.Common.{
  ℕ, suc, ◌+◌, ◌%◌, ◌^◌, Bool, true, false, not, ◌||◌, ◌&&◌, Option, none, some, List, [], ◌∷◌,
  ◌++◌, String, ◌==◌, string_eq, nat_eq, if◌then◌else◌, ltb, length, get_elem?, ◌⊎◌, inl, inr,
}
use cnfrp.Common.Bytes.{Text, text_eq}
use cnfrp.Common.Dict.{Dict, get, put, del, has}
use cnfrp.Vhost.Router.{Routers, add}
use cnfrp.Vhost.Router

pub data GroupError : Type 0 where
  group_auth_failed : GroupError
  group_params_invalid : GroupError
  proxy_repeated : GroupError
  group_stale : GroupError
  -- the error of `vhostRouter.Add`
  router_conflict : GroupError

-- `none` is a nil error
abbrev pub Answer : Type 0
Answer = Option GroupError

-- the part of vhost.RouteConfig that a group reads
pub record RouteConfig {ℓ} (F : Type ℓ) : Type ℓ where
  pub domain : Text
  pub location : Text
  pub route_by_http_user : String
  pub create_conn_fn : F

pub record HttpGroup {ℓ} (F : Type ℓ) : Type ℓ where
  pub group : String
  pub group_key : String
  pub domain : Text
  pub location : Text
  pub route_by_http_user : String
  pub create_funcs : Dict String F
  pub pxy_names : List String
  pub index : ℕ

-- HTTPGroupController with the groups that were made, by their addresses
pub record Controller {ℓ} (F : Type ℓ) : Type ℓ where
  pub groups : Dict String ℕ
  pub heap : Dict ℕ (HttpGroup F)
  pub next : ℕ
  pub vhost_router : Routers ℕ

abbrev pub same_address : Option ℕ → ℕ → Bool
same_address none a = false
same_address (some b) a = b == a

-- `removeIf`, for the group at an address
unfoldable pub remove_current : String → ℕ → Dict String ℕ → Dict String ℕ
remove_current key a groups = elim (get key groups) [
  | none ↦ groups
  | some b ↦ if b == a then del key groups else groups
]

unfoldable pub remove_name : String → List String → List String
remove_name name [] = []
remove_name name (x ∷ xs) = let rest = remove_name name xs in if x == name then xs else x ∷ rest

-- `atomic.AddUint64(&g.index, 1)`
unfoldable pub next_index : ℕ → ℕ
next_index i = suc i % (2 ^ 64)

module _ {ℓ} {F : Type ℓ} where
  abbrev pub new_controller : Routers ℕ → Controller F
  new_controller table = record { groups = []; heap = []; next = 0; vhost_router = table }

  abbrev pub new_http_group : HttpGroup F
  new_http_group = record {
    group = "";
    group_key = "";
    domain = [];
    location = [];
    route_by_http_user = "";
    create_funcs = [];
    pxy_names = [];
    index = 0;
  }

  abbrev pub no_members : HttpGroup F → Bool
  no_members g = elim g.create_funcs [ [] ↦ true | _ ∷ _ ↦ false ]

  -- `getOrCreate`: the address of the group
  unfoldable pub get_or_create : String → Controller F → ℕ × Controller F
  get_or_create key s = elim (get key s.groups) [
    | some a ↦ (a, s)
    | none ↦ (
      s.next,
      record s {
        groups = put key s.next s.groups;
        heap = put s.next new_http_group s.heap;
        next = suc s.next;
      },
    )
  ]

  unfoldable pub is_current : String → ℕ → Controller F → Bool
  is_current key a s = same_address (get key s.groups) a

  -- the checks of a proxy that joins others
  unfoldable pub join_error : String → String → RouteConfig F → HttpGroup F → Answer
  join_error group group_key route g =
      if not (g.group == group)
        || (not (g.domain == route.domain)
            || (not (g.location == route.location)
                || not (g.route_by_http_user == route.route_by_http_user)))
      then some group_params_invalid
      else if not (g.group_key == group_key)
      then some group_auth_failed
      else none

  -- the end of `Register`: the proxy becomes a member
  unfoldable pub enter_proxy :
      ℕ → String → RouteConfig F → HttpGroup F → Controller F → Answer × Controller F
  enter_proxy a proxy_name route g s =
      if has proxy_name g.create_funcs
      then (some proxy_repeated, record s { heap = put a g s.heap })
      else (
        none,
        record s {
          heap =
              put a
                (record g {
                  create_funcs = put proxy_name route.create_conn_fn g.create_funcs;
                  pxy_names = g.pxy_names ++ (proxy_name ∷ []);
                })
                s.heap;
        },
      )

  -- the first proxy brings its route to the table
  unfoldable pub register_first :
      ℕ
      → String
      → String
      → String
      → RouteConfig F
      → HttpGroup F
      → Controller F
      → Answer × Controller F
  unfolding enter_proxy
  register_first a proxy_name group group_key route g s =
      elim (add route.domain route.location route.route_by_http_user a s.vhost_router) [
        | none ↦ (some router_conflict, s)
        | some table ↦
            enter_proxy a proxy_name route
              (record g {
                group = group;
                group_key = group_key;
                domain = route.domain;
                location = route.location;
                route_by_http_user = route.route_by_http_user;
              })
              (record s { vhost_router = table })
      ]

  unfoldable pub register_later :
      ℕ
      → String
      → String
      → String
      → RouteConfig F
      → HttpGroup F
      → Controller F
      → Answer × Controller F
  unfolding join_error enter_proxy
  register_later a proxy_name group group_key route g s =
      elim (join_error group group_key route g) [
        | some err ↦ (some err, s)
        | none ↦ enter_proxy a proxy_name route g s
      ]

  -- `(*HTTPGroup).Register` of the group at an address; a caller only holds addresses of groups, so
  -- the case of an address without one is not met
  unfoldable pub register_at :
      ℕ → String → String → String → RouteConfig F → Controller F → Answer × Controller F
  unfolding is_current register_first register_later
  register_at a proxy_name group group_key route s =
      if not (is_current group a s) then (some group_stale, s) else elim (get a s.heap) [
        | none ↦ (some group_stale, s)
        | some g ↦
            if no_members g
            then register_first a proxy_name group group_key route g s
            else register_later a proxy_name group group_key route g s
      ]

  unfoldable pub without_member : String → HttpGroup F → HttpGroup F
  unfolding remove_name
  without_member proxy_name g = record g {
    create_funcs = del proxy_name g.create_funcs;
    pxy_names = remove_name proxy_name g.pxy_names;
  }

  -- the end of `UnRegister`: a group without members gives up its route and its name
  unfoldable pub leave : ℕ → HttpGroup F → Controller F → Controller F
  unfolding remove_current
  leave a g s =
      if no_members g
      then record s {
        heap = put a g s.heap;
        vhost_router = Router.del g.domain g.location g.route_by_http_user s.vhost_router;
        groups = remove_current g.group a s.groups;
      }
      else record s { heap = put a g s.heap }

  -- `(*HTTPGroup).UnRegister` of the group at an address
  unfoldable pub unregister_at : ℕ → String → Controller F → Controller F
  unfolding without_member leave
  unregister_at a proxy_name s = elim (get a s.heap) [
    | none ↦ s
    | some g ↦ leave a (without_member proxy_name g) s
  ]

  -- `(*HTTPGroupController).UnRegister`
  unfoldable pub un_register : String → String → Controller F → Controller F
  unfolding unregister_at
  un_register proxy_name group s = elim (get group s.groups) [
    | none ↦ s
    | some a ↦ unregister_at a proxy_name s
  ]

  -- the proxy whose turn it is
  unfoldable pub at_turn : HttpGroup F → Option String
  unfolding next_index
  at_turn g =
      if ltb 0 (length g.pxy_names)
      then get_elem? g.pxy_names (next_index g.index % length g.pxy_names)
      else none

  abbrev pub turned : HttpGroup F → HttpGroup F
  turned g = record g { index = next_index g.index }

  -- `createConn`: the function to open the connection with, `none` is an error
  unfoldable pub create_conn : HttpGroup F → Option F × HttpGroup F
  unfolding at_turn
  create_conn g = (elim (at_turn g) [ none ↦ none | some name ↦ get name g.create_funcs ], turned g)

  -- `chooseEndpoint`: the name, `none` is an error
  unfoldable pub choose_endpoint : HttpGroup F → Option String × HttpGroup F
  unfolding at_turn
  choose_endpoint g = (
    elim (at_turn g) [ none ↦ none | some name ↦ if name == "" then none else some name ],
    turned g,
  )

  -- `createConnByEndpoint`
  unfoldable pub create_conn_by_endpoint : String → HttpGroup F → Option F
  create_conn_by_endpoint endpoint g = get endpoint g.create_funcs
