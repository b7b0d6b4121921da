-- ===== src/Group/Tests.antt =====
-- server/group/http.go: two sites share a route.
use cnfrp.Common.{
  ℕ, ◌<◌, ◌≡◌, ◌≢◌, refl, false, some, List, [], ◌∷◌, String, string_eq, nat_eq, arith, length,
}
use cnfrp.Common.Bytes.{text_eq, text_beq, to_lower, lower_byte, less}
use cnfrp.Common.Dict.{get, put, del}
use cnfrp.Vhost.Router.{
  add, exist, find_location, add_sorted, sort_routers, insert_router, routers_of, by_user_of,
}
use cnfrp.Group.{
  RouteConfig, HttpGroup, Controller, new_controller, new_http_group, get_or_create, is_current,
  enter_proxy, register_first, register_later, register_at, join_error, choose_endpoint,
  unregister_at, without_member, leave, at_turn, next_index, remove_name, remove_current,
}
use cnfrp.Group.Calls.{
  Call, gets, registers, unregisters, chooses, answers_stale, choose_at, step, run, register_loop,
}
use cnfrp.Group.Routes.{owner}
use cnfrp.Group.Invariant.{Inv, new_controller-Inv, get_or_create-Inv}
use cnfrp.Group.Steps.{AllAllowed, run-new_controller-Live}
use cnfrp.Group.Retry.{register_loop-ends}
use cnfrp.Group.Rotation.{choices, choose_endpoint-turn}

abbrev route : RouteConfig ℕ
route = record {
  domain = b'a' ∷ b'.' ∷ b'b' ∷ [];
  location = b'/' ∷ [];
  route_by_http_user = "";
  create_conn_fn = 7;
}

abbrev calls : List (Call ℕ)
calls =
    gets "web"
    ∷ registers 0 "one" "web" "key" route
    ∷ registers 0 "two" "web" "key" route
    ∷ chooses 0
    ∷ unregisters 0 "one"
    ∷ []

abbrev two_members : HttpGroup ℕ
two_members = record new_http_group {
  group = "web";
  create_funcs = ("one", 7) ∷ ("two", 8) ∷ [];
  pxy_names = "one" ∷ "two" ∷ [];
  index = 5;
}

abbrev second : String
second = "two"

second_named : second ≢ ""
second_named e = cc

-- after two choices the turn is the first member's
first_again : (choose_endpoint (choices 2 two_members)).0 ≡ some "one"
unfolding choose_endpoint choices at_turn next_index
first_again = refl

abbrev others : Controller ℕ → Controller ℕ
others s = (get_or_create "other" s).1

abbrev both : HttpGroup ℕ
both = record {
  group = "web";
  group_key = "key";
  domain = b'a' ∷ b'.' ∷ b'b' ∷ [];
  location = b'/' ∷ [];
  route_by_http_user = "";
  create_funcs = ("one", 7) ∷ ("two", 7) ∷ [];
  pxy_names = "one" ∷ "two" ∷ [];
  index = 1;
}

abbrev left : HttpGroup ℕ
left = record {
  group = "web";
  group_key = "key";
  domain = b'a' ∷ b'.' ∷ b'b' ∷ [];
  location = b'/' ∷ [];
  route_by_http_user = "";
  create_funcs = ("two", 7) ∷ [];
  pxy_names = "two" ∷ [];
  index = 1;
}

calls_allowed : AllAllowed (new_controller []) calls
unfolding run step get_or_create register_at is_current register_first register_later join_error
    enter_proxy choose_at choose_endpoint at_turn next_index unregister_at without_member
    remove_name leave remove_current get put del add add_sorted exist find_location routers_of
    by_user_of sort_routers insert_router to_lower lower_byte text_beq less
calls_allowed = (tt, (tt, (tt, (tt, ((both, refl, refl), tt)))))

left_there : get 0 (run (new_controller []) calls).heap ≡ some left
unfolding run step get_or_create register_at is_current register_first register_later join_error
    enter_proxy choose_at choose_endpoint at_turn next_index unregister_at without_member
    remove_name leave remove_current get put del add add_sorted exist find_location routers_of
    by_user_of sort_routers insert_router to_lower lower_byte text_beq less
left_there = refl

run-new_controller-Live_example :
    (get "web" (run (new_controller []) calls).groups ≡ some 0)
    × (owner (b'a' ∷ b'.' ∷ b'b' ∷ []) (b'/' ∷ []) "" (run (new_controller []) calls).vhost_router
        ≡ some 0)
run-new_controller-Live_example =
    run-new_controller-Live [] calls 0 left calls_allowed left_there refl

register_loop-ends_example :
    (answers_stale (register_loop (others ∷ []) "one" "web" "key" route (new_controller [])).0
      ≡ false)
    × Inv (register_loop (others ∷ []) "one" "web" "key" route (new_controller [])).1
register_loop-ends_example =
    register_loop-ends (others ∷ []) "one" "web" "key" route (new_controller [])
      ((λ t inv. get_or_create-Inv "other" t inv), tt) (new_controller-Inv [])

choose_endpoint-turn_example :
    (k : ℕ) × (k < length two_members.pxy_names)
    × ((choose_endpoint (choices k two_members)).0 ≡ some second)
choose_endpoint-turn_example =
    choose_endpoint-turn two_members 1 second refl second_named (omega arith)
