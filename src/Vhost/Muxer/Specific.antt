-- ===== src/Vhost/Muxer/Specific.antt =====
-- pkg/util/vhost/vhost.go, `Muxer.getListener`: which of the domains that fit is chosen.
use cnfrp.Common.{
  ℕ, ◌+◌, ◌≤◌, ◌<◌, String, ◌≡◌, refl, sym, ap, subst, ◌∙◌, Option, none, some, List, ◌∷◌, ◌++◌,
  ◌⊎◌, inl, inr, length, Option-cases, arith,
}
use cnfrp.Common.Bytes.{Text, join, split, join-split}
use cnfrp.Vhost.Router.{Routers, Router, get_router}
use cnfrp.Vhost.Muxer.{star, dot, or_else, payload_of, find_router, find_wildcard, get_listener}
use cnfrp.Vhost.Muxer.Laws.{Fits, exact, wildcard, all}
use cnfrp.Vhost.Muxer.Complete.{NoRouter, find_router-none, find_wildcard-none, join-star}
use cnfrp.Vhost.Muxer.Wildcards.{
  Ends, Ends-Two, Ends-join, Ends-split, Two-parts, shorter, find_wildcard-best, or_else-first,
  or_else-second,
}

-- How specific a domain is that fits: the host itself most, then the stars before a longer part of
-- the host, and the star alone least.
abbrev pub rank : {host d : Text} → Fits host d → ℕ
rank {host} exact = length host + 1
rank (wildcard before domain rest e) = length (domain ++ (dot ∷ rest)) + 1
rank all = 0

rank_le : {host d : Text} (f : Fits host d) → rank f ≤ length host + 1
rank_le exact = omega arith
rank_le {host} (wildcard before domain rest e) =
    let short = shorter before (domain ++ (dot ∷ rest)) host e in omega arith
rank_le all = omega arith

module _ {ℓ} {P : Type ℓ} where
  -- The payload is that of the user's router for the domain and the path, or where there is none,
  -- of the router without a user.
  abbrev pub Routed : Text → Text → String → Routers P → P → Type ℓ
  Routed domain path user table p =
      ((r : Router P) × (get_router domain path user table ≡ some r) × (r.payload ≡ p))
      ⊎ ((get_router domain path user table ≡ none)
          × (r : Router P) × (get_router domain path "" table ≡ some r)
          × (r.payload ≡ p))

  payload_some :
      (o : Option (Router P)) (p : P)
      → payload_of o ≡ some p
      → (r : Router P) × (o ≡ some r) × (r.payload ≡ p)
  unfolding payload_of
  payload_some none p h = cc
  payload_some (some r) p h = (r, refl, cc)

  or_else-split :
      (a b : Option (Router P)) (p : P)
      → or_else (payload_of a) (payload_of b) ≡ some p
      → (payload_of a ≡ some p) ⊎ ((a ≡ none) × (payload_of b ≡ some p))
  unfolding payload_of
  or_else-split none b p h = inr (refl, h)
  or_else-split (some a) b p h = inl h

  find_router-Routed :
      (domain path : Text) (user : String) (table : Routers P) (p : P)
      → find_router domain path user table ≡ some p
      → Routed domain path user table p
  unfolding find_router
  find_router-Routed domain path user table p h = elim (or_else-split _ _ p h) [
    | inl own ↦ inl (payload_some _ p own)
    | inr (missing, other) ↦
        let (r, at, same) = payload_some _ p other in inr (missing, r, at, same)
  ]

  -- A domain that fits and is more specific than a wildcard domain that was found.
  above_wildcard :
      {name d : Text} (path : Text) (user : String) (table : Routers P) (m : List Text)
      → find_router name path user table ≡ none
      → ((n : List Text)
          → Ends n (split dot name)
          → length (join dot m) < length (join dot n)
          → find_router (join dot (star ∷ n)) path user table ≡ none)
      → (f : Fits name d) → length (join dot m) + 1 < rank f
      → NoRouter d path user table
  above_wildcard path user table m missing best exact lt =
      find_router-none _ path user table missing
  above_wildcard {name} path user table m missing best (wildcard before domain rest e) lt =
      let part : Text = domain ++ (dot ∷ rest) in
      let ends : Ends (split dot part) (split dot name) =
        subst (λ (n : Text). Ends (split dot part) (split dot n)) (sym e)
          (Ends-split before domain rest) in
      let size : length (join dot (split dot part)) ≡ length part =
        ap (λ (t : Text). length t) (join-split dot part) in
      find_router-none _ path user table (
        subst (λ (d : Text). find_router d path user table ≡ none) (join-star part)
          (best (split dot part) ends (omega arith)))
  above_wildcard path user table m missing best all lt = absurd (omega arith)

  -- A domain that fits and is more specific than the star.
  above_star :
      {name d : Text} (path : Text) (user : String) (table : Routers P)
      → find_router name path user table ≡ none
      → find_wildcard (split dot name) path user table ≡ none
      → (f : Fits name d) → 0 < rank f
      → NoRouter d path user table
  above_star path user table missing none_below exact lt =
      find_router-none _ path user table missing
  above_star path user table missing none_below (wildcard before domain rest e) lt =
      find_router-none _ path user table (
        find_wildcard-none before domain rest path user table
          (subst (λ (n : Text). find_wildcard (split dot n) path user table ≡ none) e none_below))
  above_star path user table missing none_below all lt = absurd (omega arith)

  -- The choice of a domain: it fits, has the payload, and none that is more specific has a router.
  abbrev pub Chosen : Text → Text → String → Routers P → P → Type ℓ
  Chosen name path user table p =
      (d : Text) × (f : Fits name d) × Routed d path user table p
      × ((e : Text) (g : Fits name e) → rank f < rank g → NoRouter e path user table)

  wildcard-Chosen :
      (name path : Text) (user : String) (table : Routers P) (p : P)
      → find_router name path user table ≡ none
      → find_wildcard (split dot name) path user table ≡ some p
      → Chosen name path user table p
  wildcard-Chosen name path user table p missing h =
      let (m, ends, found, best) = find_wildcard-best (split dot name) path user table p h in
      let (before, parts) = Ends-join m (split dot name) ends in
      let (domain, rest, part, starred) = Two-parts m (Ends-Two m (split dot name) ends) in
      let whole : name ≡ before ++ (dot ∷ (domain ++ (dot ∷ rest))) =
        sym (join-split dot name) ∙ parts ∙ ap (λ (t : Text). before ++ (dot ∷ t)) part in
      let size : length (join dot m) ≡ length (domain ++ (dot ∷ rest)) =
        ap (λ (t : Text). length t) part in
      (
        star ++ (dot ∷ (domain ++ (dot ∷ rest))),
        wildcard before domain rest whole,
        find_router-Routed _ path user table p
            (subst (λ (d : Text). find_router d path user table ≡ some p) starred found),
        (λ e g lt. above_wildcard path user table m missing best g (omega arith)),
      )

  -- A listener that is chosen for a host, a path and a user is that of a domain that fits the host:
  -- of the router of the user for the path there, or where there is none, of the one without a
  -- user. No domain that fits and is more specific has either router, where the host itself is the
  -- most specific, then come the stars before a part of the host, a longer part before a shorter,
  -- and last the star alone.
  pub get_listener-Chosen :
      (name path : Text) (user : String) (table : Routers P) (p : P)
      → get_listener name path user table ≡ some p
      → Chosen name path user table p
  unfolding get_listener
  get_listener-Chosen name path user table p h =
      elim (Option-cases (find_router name path user table)) [
        | inr (q, e) ↦ (
          name,
          exact,
          find_router-Routed name path user table p (or_else-first _ _ q p e h),
          (λ d g lt. let most = rank_le g in absurd (omega arith)),
        )
        | inl e ↦
            let rest = or_else-second _ _ p e h in
            elim (Option-cases (find_wildcard (split dot name) path user table)) [
              | inr (q, k) ↦
                  wildcard-Chosen name path user table p e
                    (k ∙ sym k ∙ or_else-first _ _ q p k rest)
              | inl k ↦ (
                star,
                all,
                find_router-Routed star path user table p (or_else-second _ _ p k rest),
                (λ d g lt. above_star path user table e k g lt),
              )
            ]
      ]
