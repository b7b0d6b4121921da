-- ===== src/Visitor/Tests.antt =====
-- server/visitor/visitor.go: a visitor of a proxy that alice may reach.
use cnfrp.Common.{ℕ, ◌≡◌, refl, true, false, Option, none, some, [], ◌∷◌, ◌⊎◌, string_eq, nat_eq}
use cnfrp.Common.Bytes.{Text, text_beq}
use cnfrp.Common.Dict.{get, put}
use cnfrp.Common.Integer.{pos}
use cnfrp.Visitor.{
  ListenerBundle, Manager, new_manager, listen, new_conn, admit, get_auth_key, allows, put_at,
  put_conn, check_visitor, digits, format_int,
}
use cnfrp.Visitor.Laws.{MayEnter, Admitted, new_conn-MayEnter}

abbrev key : Text
key = b'k' ∷ []

abbrev plain : Text → Text
plain t = t

abbrev sealed : Text → ℕ → Option ℕ
sealed sk conn = some conn

abbrev squeezed : ℕ → ℕ
squeezed conn = conn

abbrev wrapped : ℕ → ℕ → ℕ
wrapped rwc conn = rwc

abbrev server : Manager ℕ
server = (listen "db" key ("alice" ∷ []) new_manager).1

-- the key of the time 42
signed : get_auth_key plain key (pos 42) ≡ b'k' ∷ b'4' ∷ b'2' ∷ []
unfolding get_auth_key format_int digits
signed = refl

let_in :
    (new_conn plain sealed squeezed wrapped "db" 5
      (pos 42)
      (b'k' ∷ b'4' ∷ b'2' ∷ [])
      false
      true
      "alice"
      server).0
    ≡ none
unfolding new_conn check_visitor get_auth_key format_int digits allows admit put_at put_conn listen
    get put text_beq
let_in = refl

new_conn-MayEnter_example :
    let after =
      new_conn plain sealed squeezed wrapped "db" 5
        (pos 42)
        (b'k' ∷ b'4' ∷ b'2' ∷ [])
        false
        true
        "alice"
        server in
    ((a : ℕ)
      → (get a after.1.heap ≡ get a server.heap)
        ⊎ (b : ListenerBundle) × (get "db" server.listeners ≡ some b)
          × (b.l ≡ a)
          × MayEnter plain b (pos 42) (b'k' ∷ b'4' ∷ b'2' ∷ []) "alice")
    × ((b : ListenerBundle)
        → get "db" server.listeners ≡ some b
        → MayEnter plain b (pos 42) (b'k' ∷ b'4' ∷ b'2' ∷ []) "alice"
        → Admitted plain sealed squeezed wrapped b 5 false true server after)
new_conn-MayEnter_example =
    new_conn-MayEnter plain sealed squeezed wrapped "db" 5 (pos 42) (b'k' ∷ b'4' ∷ b'2' ∷ []) false
      true "alice" server
