-- ===== src/Vhost/Muxer/Complete.antt =====
-- pkg/util/vhost/vhost.go, `Muxer.getListener`: when no listener is chosen.
use cnfrp.Common.{
  ℕ, String, ◌≡◌, refl, sym, ap, subst, ◌∙◌, ◌↔◌, Option, none, some, List, [], ◌∷◌, ◌++◌, inl, inr,
  eqb, eqb_iff, true, Bool-cases, Option-cases, string_eq,
}
use cnfrp.Common.Bytes.{Text, join, split, split_at, join-split, join_from}
use cnfrp.Vhost.Router.{Routers, Router, get_router}
use cnfrp.Vhost.Muxer.{star, dot, or_else, payload_of, find_router, find_wildcard, get_listener}
use cnfrp.Vhost.Muxer.Laws.{Fits, exact, wildcard, all, get_listener-FoundIn}

eqb_self : (n : ℕ) → eqb n n ≡ true
eqb_self n = (eqb_iff n n).1 refl

split_at-append :
    (sep : ℕ) (s x : Text)
    → split_at sep (s ++ (sep ∷ x)) ≡ ((split_at sep s).0, (split_at sep s).1 ++ split sep x)
unfolding split_at split
split_at-append sep [] x = rw (eqb_self sep) refl
split_at-append sep (c ∷ s) x = elim (Bool-cases (eqb c sep)) [
  | inl e ↦ rw (e, split_at-append sep s x) refl
  | inr e ↦ rw (e, split_at-append sep s x) refl
]

-- Text around a separator is split on each side of it.
pub split-append : (sep : ℕ) (s x : Text) → split sep (s ++ (sep ∷ x)) ≡ split sep s ++ split sep x
unfolding split
split-append sep s x = ap (λ (p : Text × List Text). p.0 ∷ p.1) (split_at-append sep s x)

pub join-star : (x : Text) → join dot (star ∷ split dot x) ≡ star ++ (dot ∷ x)
unfolding join join_from split
join-star x = ap (λ (t : Text). star ++ (dot ∷ t)) (join-split dot x)

module _ {ℓ} {P : Type ℓ} where
  both_none : (a b : Option P) → or_else a b ≡ none → (a ≡ none) × (b ≡ none)
  both_none none b h = (refl, h)
  both_none (some a) b h = cc

  -- Neither the user nor a visitor without a name has a router for the domain and the path.
  abbrev pub NoRouter : Text → Text → String → Routers P → Type ℓ
  NoRouter domain path user table =
      (get_router domain path user table ≡ none) × (get_router domain path "" table ≡ none)

  payload_none : (r : Option (Router P)) → payload_of r ≡ none → r ≡ none
  unfolding payload_of
  payload_none none h = refl
  payload_none (some r) h = cc

  pub find_router-none :
      (domain path : Text) (user : String) (table : Routers P)
      → find_router domain path user table ≡ none
      → NoRouter domain path user table
  unfolding find_router
  find_router-none domain path user table h =
      let (own, other) = both_none _ _ h in (payload_none _ own, payload_none _ other)

  NoRouter-find_router :
      (domain path : Text) (user : String) (table : Routers P)
      → NoRouter domain path user table
      → find_router domain path user table ≡ none
  unfolding find_router payload_of
  NoRouter-find_router domain path user table (own, other) = rw (find_router, own, other) refl

  -- The loop comes to every suffix of at least two labels.
  find_wildcard-suffix :
      (a : Text) (before : List Text) (b c : Text) (rest : List Text) (path : Text) (user : String)
      (table : Routers P)
      → find_wildcard ((a ∷ before) ++ (b ∷ c ∷ rest)) path user table ≡ none
      → find_router (join dot (star ∷ b ∷ c ∷ rest)) path user table ≡ none
  unfolding find_wildcard
  find_wildcard-suffix a [] b c rest path user table h = (both_none _ _ h).0
  find_wildcard-suffix a (x ∷ []) b c rest path user table h =
      find_wildcard-suffix x [] b c rest path user table (both_none _ _ h).1
  find_wildcard-suffix a (x ∷ y ∷ before) b c rest path user table h =
      find_wildcard-suffix x (y ∷ before) b c rest path user table (both_none _ _ h).1

  find_wildcard-two :
      (a : Text) (before : List Text) (d : Text) (ds : List Text) (r : Text) (rs : List Text)
      (path : Text) (user : String) (table : Routers P)
      → find_wildcard ((a ∷ before) ++ ((d ∷ ds) ++ (r ∷ rs))) path user table ≡ none
      → find_router (join dot (star ∷ ((d ∷ ds) ++ (r ∷ rs)))) path user table ≡ none
  find_wildcard-two a before d [] r rs path user table h =
      find_wildcard-suffix a before d r rs path user table h
  find_wildcard-two a before d (e ∷ es) r rs path user table h =
      find_wildcard-suffix a before d e (es ++ (r ∷ rs)) path user table h

  pub find_wildcard-none :
      (before domain rest path : Text) (user : String) (table : Routers P)
      → find_wildcard (split dot (before ++ (dot ∷ (domain ++ (dot ∷ rest))))) path user table
        ≡ none
      → find_router (star ++ (dot ∷ (domain ++ (dot ∷ rest)))) path user table ≡ none
  unfolding split
  find_wildcard-none before domain rest path user table h =
      let tail : Text = domain ++ (dot ∷ rest) in
      let inner : split dot tail ≡ split dot domain ++ split dot rest =
        split-append dot domain rest in
      let labels : split dot (before ++ (dot ∷ tail))
          ≡ split dot before ++ (split dot domain ++ split dot rest) =
        split-append dot before tail ∙ ap (λ (l : List Text). split dot before ++ l) inner in
      let name : join dot (star ∷ (split dot domain ++ split dot rest)) ≡ star ++ (dot ∷ tail) =
        ap (λ (l : List Text). join dot (star ∷ l)) (sym inner) ∙ join-star tail in
      subst (λ (d : Text). find_router d path user table ≡ none) name
        (find_wildcard-two (split_at dot before).0 (split_at dot before).1 (split_at dot domain).0
          (split_at dot domain).1 (split_at dot rest).0 (split_at dot rest).1 path user table
          (subst (λ (l : List Text). find_wildcard l path user table ≡ none) labels h))

  none-Fits :
      {name d : Text} (path : Text) (user : String) (table : Routers P)
      → get_listener name path user table ≡ none
      → Fits name d
      → NoRouter d path user table
  unfolding get_listener
  none-Fits path user table h exact = find_router-none _ path user table (both_none _ _ h).0
  none-Fits path user table h (wildcard before domain rest e) =
      let (at_wildcards, at_star) = both_none _ _ (both_none _ _ h).1 in
      find_router-none _ path user table (
        find_wildcard-none before domain rest path user table
          (subst (λ (n : Text). find_wildcard (split dot n) path user table ≡ none) e at_wildcards))
  none-Fits path user table h all =
      let (at_wildcards, at_star) = both_none _ _ (both_none _ _ h).1 in
      find_router-none star path user table at_star

  Fits-none :
      (name path : Text) (user : String) (table : Routers P)
      → ((d : Text) → Fits name d → NoRouter d path user table)
      → get_listener name path user table ≡ none
  Fits-none name path user table h = elim (Option-cases (get_listener name path user table)) [
    | inl e ↦ e
    | inr (p, e) ↦
        let (d, fits, found) = get_listener-FoundIn name path user table p e in
        let no = NoRouter-find_router d path user table (h d fits) in cc
  ]

  -- No listener is chosen for a host exactly if none of the domains that fit it (the host itself, a
  -- star, and a star before a part of the host that begins at a dot and has a further dot in it)
  -- has a router for the path and the user, nor one for the path and no user.
  pub get_listener-none :
      (name path : Text) (user : String) (table : Routers P)
      → (get_listener name path user table ≡ none)
        ↔ ((d : Text) → Fits name d → NoRouter d path user table)
  get_listener-none name path user table =
      ((λ h d fits. none-Fits path user table h fits), Fits-none name path user table)
