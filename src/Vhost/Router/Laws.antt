-- ===== src/Vhost/Router/Laws.antt =====
-- `Add` and `Del` on the table seen as a map from a domain, a location and a user.
use cnfrp.Common.{
  String, ◌≡◌, true, none, some, List, [], ◌∷◌, ◌++◌, arith, ◌==◌, ◌&&◌, string_eq, str_eq_iff, not,
  keep, if◌then◌else◌, is_some, Bool-cases, Option-cases, inl, inr, ◌∙◌, sym, ◌↔◌,
}
use cnfrp.Common.Bytes.{Text, text_eq, text_beq_iff, to_lower}
use cnfrp.Common.Dict.{Dict, get, put, get-put}
use cnfrp.Vhost.Router.{
  Router, Routers, sort_routers, routers_of, by_user_of, exist, add_sorted, add, del_in, del,
}
use cnfrp.Vhost.Router.Order.{find-sort, find-append, find-keep}

module _ {ℓ} {P : Type ℓ} where
  abbrev slot : String → Dict String (List (Router P)) → List (Router P)
  slot u by_user = elim (get u by_user) [ none ↦ [] | some vrs ↦ vrs ]

  -- Writing one slot of one domain changes that slot alone.
  routers_of-put :
      (d : Text) (u : String) (vrs : List (Router P)) (by_user : Dict String (List (Router P)))
      (table : Routers P) (d' : Text) (u' : String)
      → slot u' by_user ≡ routers_of d u' table
      → routers_of d' u' (put d (put u vrs by_user) table)
        ≡ (if (d == d') && (u == u') then vrs else routers_of d' u' table)
  unfolding routers_of
  routers_of-put d u vrs by_user table d' u' h = elim (Bool-cases (d == d')) [
    | inl e ↦
        ground (
          arith,
          get-put d d' (put u vrs by_user) table,
          get-put u u' vrs by_user,
          text_beq_iff d d',
        )
    | inr e ↦ ground (arith, get-put d d' (put u vrs by_user) table)
  ]

  slot-by_user_of :
      (d : Text) (u : String) (table : Routers P)
      → slot u (by_user_of d table) ≡ routers_of d u table
  unfolding by_user_of routers_of get
  slot-by_user_of d u table = ground arith

  pub routers_of-add_sorted :
      (d l : Text) (u : String) (payload : P) (table : Routers P) (d' : Text) (u' : String)
      → routers_of d' u' (add_sorted d l u payload table) ≡ (
          if (d == d') && (u == u')
          then sort_routers (
              routers_of d u table
              ++ record { domain = d; location = l; http_user = u; payload = payload } ∷ [])
          else routers_of d' u' table)
  unfolding add_sorted
  routers_of-add_sorted d l u payload table d' u' =
      routers_of-put d u _ (by_user_of d table) table d' u' (slot-by_user_of d u' table)

  abbrev pub without : Text → List (Router P) → List (Router P)
  without l vrs = keep (λ r. not (r.location == l)) vrs

  routers_of-unchanged :
      (d l : Text) (u : String) (table : Routers P) (d' : Text) (u' : String)
      → routers_of d u table ≡ []
      → routers_of d' u' table ≡ (
          if (d == d') && (u == u')
          then without l (routers_of d u table)
          else routers_of d' u' table)
  routers_of-unchanged d l u table d' u' e = ground (arith, text_beq_iff d d', str_eq_iff u u')

  routers_of-missing :
      (d : Text) (u : String) (table : Routers P) → get d table ≡ none → routers_of d u table ≡ []
  unfolding routers_of
  routers_of-missing d u table e = rw (e, routers_of)

  routers_of-slot :
      (d : Text) (u : String) (table : Routers P) (by_user : Dict String (List (Router P)))
      → get d table ≡ some by_user
      → slot u by_user ≡ routers_of d u table
  unfolding routers_of
  routers_of-slot d u table by_user e = rw (e, routers_of)

  routers_of-del_in :
      (d l : Text) (u : String) (table : Routers P) (by_user : Dict String (List (Router P)))
      (d' : Text) (u' : String)
      → get d table ≡ some by_user
      → routers_of d' u' (del_in d l u table by_user) ≡ (
          if (d == d') && (u == u')
          then without l (routers_of d u table)
          else routers_of d' u' table)
  unfolding del_in
  routers_of-del_in d l u table by_user d' u' e = elim (Option-cases (get u by_user)) [
    | inl f ↦
        let empty : routers_of d u table ≡ [] =
          sym (routers_of-slot d u table by_user e) ∙ rw (f, slot) in
        rw (f, del_in) (routers_of-unchanged d l u table d' u' empty)
    | inr (vrs, f) ↦
        let held : routers_of d u table ≡ vrs =
          sym (routers_of-slot d u table by_user e) ∙ rw (f, slot) in
        rw (f, del_in)
          (rw held (
            routers_of-put d u (without l vrs) by_user table d' u'
              (routers_of-slot d u' table by_user e)))
  ]

  pub routers_of-del :
      (d l : Text) (u : String) (table : Routers P) (d' : Text) (u' : String)
      → routers_of d' u' (del d l u table) ≡ (
          if (to_lower d == d') && (u == u')
          then without l (routers_of (to_lower d) u table)
          else routers_of d' u' table)
  unfolding del
  routers_of-del d l u table d' u' = elim (Option-cases (get (to_lower d) table)) [
    | inl e ↦
        rw (e, del)
          (routers_of-unchanged (to_lower d) l u table d' u'
            (routers_of-missing (to_lower d) u table e))
    | inr (by_user, e) ↦ rw (e, del) (routers_of-del_in (to_lower d) l u table by_user d' u' e)
  ]

  -- Add reports a conflict exactly if the lower-cased domain, the location and the user are
  -- registered.
  pub add-conflict :
      (d l : Text) (u : String) (payload : P) (table : Routers P)
      → (add d l u payload table ≡ none) ↔ (is_some (exist (to_lower d) l u table) ≡ true)
  unfolding add
  add-conflict d l u payload table = ground arith

  -- A successful Add registers its router under the lower-cased domain, the location and the user,
  -- and every other registration stays as it was.
  pub exist-add :
      (d l : Text) (u : String) (payload : P) (table after : Routers P) (d' l' : Text) (u' : String)
      → add d l u payload table ≡ some after
      → exist d' l' u' after ≡ (
          if (to_lower d == d') && ((u == u') && (l' == l))
          then some (record { domain = to_lower d; location = l; http_user = u; payload = payload })
          else exist d' l' u' table)
  unfolding add exist
  exist-add d l u payload table after d' l' u' e =
      let r : Router P = record {
        domain = to_lower d;
        location = l;
        http_user = u;
        payload = payload;
      } in
      let vrs : List (Router P) = routers_of (to_lower d) u table in
      ground (
        arith,
        routers_of-add_sorted (to_lower d) l u payload table d' u',
        find-sort l' (vrs ++ r ∷ []),
        find-append l' vrs r,
        text_beq_iff (to_lower d) d',
        str_eq_iff u u',
        text_beq_iff l' l,
      )

  -- Del removes the registration of its lower-cased domain, location and user, and every other
  -- registration stays as it was.
  pub exist-del :
      (d l : Text) (u : String) (table : Routers P) (d' l' : Text) (u' : String)
      → exist d' l' u' (del d l u table)
        ≡ (if (to_lower d == d') && ((u == u') && (l' == l)) then none else exist d' l' u' table)
  unfolding exist
  exist-del d l u table d' l' u' = ground (
    arith,
    routers_of-del d l u table d' u',
    find-keep l' l (routers_of (to_lower d) u table),
    text_beq_iff (to_lower d) d',
    str_eq_iff u u',
  )
