-- ===== src/Group/Routes.antt =====
-- server/group/http.go: which group owns a route of the table, and how adding and deleting a route
-- changes it.
use cnfrp.Common.{
  ℕ, ◌≡◌, refl, ap, ◌∙◌, Bool, true, false, ◌&&◌, Option, none, some, String, ◌==◌, string_eq,
  if◌then◌else◌, Option-cases, inl, inr, is_some, arith, same_self, str_eq_iff,
}
use cnfrp.Common.Bytes.{Text, text_eq, to_lower, text_beq_iff}
use cnfrp.Vhost.Router.{Routers, Router, add, del, exist}
use cnfrp.Vhost.Router.Laws.{exist-add, exist-del, add-conflict}

-- the address that a route carries
abbrev pub carried : Option (Router ℕ) → Option ℕ
carried none = none
carried (some r) = some r.payload

unfoldable pub owner : Text → Text → String → Routers ℕ → Option ℕ
owner d l u table = carried (exist (to_lower d) l u table)

abbrev pub same_route : Text → Text → String → Text → Text → String → Bool
same_route d l u d' l' u' = (to_lower d == to_lower d') && ((u == u') && (l' == l))

carried_if :
    (b : Bool) (x : Router ℕ) (o : Option (Router ℕ))
    → carried (if b then some x else o) ≡ (if b then some x.payload else carried o)
carried_if true x o = refl
carried_if false x o = refl

carried_if_none :
    (b : Bool) (o : Option (Router ℕ))
    → carried (if b then none else o) ≡ (if b then none else carried o)
carried_if_none true o = refl
carried_if_none false o = refl

pub owner-add :
    (d l : Text) (u : String) (a : ℕ) (table after : Routers ℕ) (d' l' : Text) (u' : String)
    → add d l u a table ≡ some after
    → owner d' l' u' after ≡ (if same_route d l u d' l' u' then some a else owner d' l' u' table)
unfolding owner
owner-add d l u a table after d' l' u' e =
    ap carried (exist-add d l u a table after (to_lower d') l' u' e) ∙ carried_if _ _ _

pub owner-del :
    (d l : Text) (u : String) (table : Routers ℕ) (d' l' : Text) (u' : String)
    → owner d' l' u' (del d l u table)
      ≡ (if same_route d l u d' l' u' then none else owner d' l' u' table)
unfolding owner
owner-del d l u table d' l' u' =
    ap carried (exist-del d l u table (to_lower d') l' u') ∙ carried_if_none _ _

and_true : (a b : Bool) → (a && b) ≡ true → (a ≡ true) × (b ≡ true)
and_true true b h = (refl, h)
and_true false b h = cc

free_of_add :
    (d l : Text) (u : String) (a : ℕ) (table after : Routers ℕ)
    → add d l u a table ≡ some after
    → exist (to_lower d) l u table ≡ none
free_of_add d l u a table after e = elim (Option-cases (exist (to_lower d) l u table)) [
  | inl k ↦ k
  | inr (r, k) ↦
      let conflict : add d l u a table ≡ none = (add-conflict d l u a table).1 (ap is_some k) in cc
]

-- Two spellings of a route have one owner.
pub owner-same :
    (d l : Text) (u : String) (d' l' : Text) (u' : String) (table : Routers ℕ)
    → same_route d l u d' l' u' ≡ true
    → owner d' l' u' table ≡ owner d l u table
unfolding owner
owner-same d l u d' l' u' table same =
    let (host, rest) = and_true _ _ same in
    let (user, path) = and_true _ _ rest in
    let same_host : to_lower d ≡ to_lower d' = (text_beq_iff (to_lower d) (to_lower d')).0 host in
    let same_user : u ≡ u' = (str_eq_iff u u').0 user in
    let same_path : l' ≡ l = (text_beq_iff l' l).0 path in
    let moved : exist (to_lower d') l' u' table ≡ exist (to_lower d) l u table = cc in
    ap carried moved

-- A route that can be added has no owner.
pub owner-free :
    (d l : Text) (u : String) (a : ℕ) (table after : Routers ℕ)
    → add d l u a table ≡ some after
    → owner d l u table ≡ none
unfolding owner
owner-free d l u a table after e = ap carried (free_of_add d l u a table after e)

pub same_route_self : (d l : Text) (u : String) → same_route d l u d l u ≡ true
same_route_self d l u = ground (arith, same_self (to_lower d), same_self u, same_self l)
