-- ===== src/Vhost/Tests.antt =====
-- The routing table on concrete inputs.
use cnfrp.Common.{ℕ, String, ◌≡◌, refl, ◌↔◌, none, some, List, [], ◌∷◌, string_eq}
use Prim.Native.Char.{code}
use cnfrp.Common.Bytes.{Text, text_eq, text_beq, has_prefix, to_lower, split, join, less}
use cnfrp.Common.Dict.{get, put}
use cnfrp.Vhost.Router.{
  Routers, exist, add, get_router, Call, adds, step, run, sort_routers, insert_router, add_sorted,
}
use cnfrp.Vhost.Router.Get.{Answer, get_router-run}
use cnfrp.Vhost.Muxer.{get_listener, find_router, find_wildcard, payload_of}
use cnfrp.Vhost.Muxer.Complete.{NoRouter, get_listener-none}
use cnfrp.Vhost.Muxer.Specific.{Chosen, get_listener-Chosen}
use cnfrp.Vhost.Muxer.Laws.{Fits}

abbrev text : String → Text
text String.[] = []
text (String.◌∷◌ c s) = code c ∷ text s

-- Two locations on one domain, and a wildcard domain.
abbrev calls : List (Call ℕ)
calls =
    adds (text "Example.com") (text "/") "" 1
    ∷ adds (text "example.com") (text "/api") "" 2
    ∷ adds (text "*.example.com") (text "") "" 3
    ∷ []

table : Routers ℕ
unfolding run step add exist add_sorted sort_routers insert_router get put to_lower text_beq less
table = run [] calls

longest_wins : payload_of (get_router (text "EXAMPLE.com") (text "/api/v1") "" table) ≡ some 2
unfolding table get_router has_prefix payload_of
longest_wins = refl

wildcard_found : get_listener (text "a.b.example.com") (text "/x") "bob" table ≡ some 3
unfolding table get_router has_prefix payload_of get_listener find_router find_wildcard split join
wildcard_found = refl

one : Routers ℕ
one = add_sorted (text "a.b") (text "/") "u" 7 []

one_added : add (text "a.b") (text "/") "u" 7 [] ≡ some one
unfolding one add exist to_lower get
one_added = refl

get_router-run_example :
    Answer
      (text "example.com")
      (text "/api/v1")
      ""
      (run [] calls)
      (get_router (text "example.com") (text "/api/v1") "" (run [] calls))
get_router-run_example = get_router-run calls (text "example.com") (text "/api/v1") ""

get_listener-none_example :
    (get_listener (text "a.b.example.com") (text "/x") "bob" table ≡ none)
    ↔ ((d : Text) → Fits (text "a.b.example.com") d → NoRouter d (text "/x") "bob" table)
get_listener-none_example = get_listener-none (text "a.b.example.com") (text "/x") "bob" table

get_listener-Chosen_example : Chosen (text "a.b.example.com") (text "/x") "bob" table 3
get_listener-Chosen_example =
    get_listener-Chosen (text "a.b.example.com") (text "/x") "bob" table 3 wildcard_found
