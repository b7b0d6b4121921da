-- ===== src/Vhost/Muxer/Wildcards.antt =====
-- pkg/util/vhost/vhost.go, `Muxer.getListener`: the order in which wildcard domains are tried.
use cnfrp.Common.{
  ◌+◌, ◌≤◌, ◌<◌, String, ◌≡◌, refl, sym, ap, subst, ◌∙◌, Option, none, some, List, [], ◌∷◌, ◌++◌,
  ◌⊎◌, inl, inr, length, length-append, Option-cases, arith,
}
use mathlib.Core.List.{append_assoc}
use cnfrp.Common.Bytes.{Text, join, split, split_at, join_from}
use cnfrp.Vhost.Router.{Routers}
use cnfrp.Vhost.Muxer.{star, dot, or_else, find_router, find_wildcard}
use cnfrp.Vhost.Muxer.Complete.{split-append}

-- two labels or more
abbrev pub Two : List Text → Type 0
Two (b ∷ c ∷ rest) = Unit
Two _ = ⊥

-- The labels `m`, two at least, are at the end of others, and not all of them.
abbrev pub Ends : List Text → List Text → Type 0
Ends m [] = ⊥
Ends m (a ∷ labels) = ((m ≡ labels) × Two m) ⊎ Ends m labels

pub Ends-Two : (m labels : List Text) → Ends m labels → Two m
Ends-Two m [] t = absurd t
Ends-Two m (a ∷ labels) (inl (e, two)) = two
Ends-Two m (a ∷ labels) (inr t) = Ends-Two m labels t

pub Ends-join :
    (m labels : List Text)
    → Ends m labels
    → (before : Text) × (join dot labels ≡ before ++ (dot ∷ join dot m))
unfolding join join_from
Ends-join m [] t = absurd t
Ends-join m (a ∷ []) (inl (e, two)) = absurd (subst Two e two)
Ends-join m (a ∷ []) (inr t) = absurd t
Ends-join m (a ∷ x ∷ labels) (inl (e, two)) =
    (a, ap (λ (l : List Text). a ++ (dot ∷ join dot l)) (sym e))
Ends-join m (a ∷ x ∷ labels) (inr t) =
    let (before, e) = Ends-join m (x ∷ labels) t in
    (
      a ++ (dot ∷ before),
      ap (λ (l : Text). a ++ (dot ∷ l)) e ∙ sym (append_assoc a (dot ∷ before) (dot ∷ join dot m)),
    )

Ends-append : (a : Text) (before m : List Text) → Two m → Ends m ((a ∷ before) ++ m)
Ends-append a [] m two = inl (refl, two)
Ends-append a (x ∷ before) m two = inr (Ends-append x before m two)

Two-append : (d : Text) (ds : List Text) (r : Text) (rs : List Text) → Two ((d ∷ ds) ++ (r ∷ rs))
Two-append d [] r rs = tt
Two-append d (e ∷ es) r rs = tt

pub Ends-split :
    (before domain rest : Text)
    → Ends
        (split dot (domain ++ (dot ∷ rest)))
        (split dot (before ++ (dot ∷ (domain ++ (dot ∷ rest)))))
unfolding split
Ends-split before domain rest =
    let part : Text = domain ++ (dot ∷ rest) in
    let two : Two (split dot part) = subst Two (sym (split-append dot domain rest)) (
      Two-append (split_at dot domain).0 (split_at dot domain).1 (split_at dot rest).0
        (split_at dot rest).1) in
    subst (λ (l : List Text). Ends (split dot part) l) (sym (split-append dot before part))
      (Ends-append (split_at dot before).0 (split_at dot before).1 (split dot part) two)

pub shorter :
    (before part host : Text) → host ≡ before ++ (dot ∷ part) → length part + 1 ≤ length host
shorter before part host e =
    let size = length-append before (dot ∷ part) in
    let same : length host ≡ length (before ++ (dot ∷ part)) = ap (λ (t : Text). length t) e in
    omega arith

pub Two-parts :
    (m : List Text)
    → Two m
    → (domain rest : Text) × (join dot m ≡ domain ++ (dot ∷ rest))
      × (join dot (star ∷ m) ≡ star ++ (dot ∷ (domain ++ (dot ∷ rest))))
unfolding join join_from
Two-parts [] two = absurd two
Two-parts (b ∷ []) two = absurd two
Two-parts (b ∷ c ∷ rest) two = (b, join_from dot c rest, refl, refl)

module _ {ℓ} {P : Type ℓ} where
  pub or_else-first : (a b : Option P) (q p : P) → a ≡ some q → or_else a b ≡ some p → a ≡ some p
  or_else-first none b q p e h = cc
  or_else-first (some a) b q p e h = h

  pub or_else-second : (a b : Option P) (p : P) → a ≡ none → or_else a b ≡ some p → b ≡ some p
  or_else-second none b p e h = h
  or_else-second (some a) b p e h = cc

  -- The first that the loop finds is the longest.
  pub find_wildcard-best :
      (labels : List Text) (path : Text) (user : String) (table : Routers P) (p : P)
      → find_wildcard labels path user table ≡ some p
      → (m : List Text) × Ends m labels
        × (find_router (join dot (star ∷ m)) path user table ≡ some p)
        × ((n : List Text)
            → Ends n labels
            → length (join dot m) < length (join dot n)
            → find_router (join dot (star ∷ n)) path user table ≡ none)
  unfolding find_wildcard
  find_wildcard-best [] path user table p h = cc
  find_wildcard-best (a ∷ []) path user table p h = cc
  find_wildcard-best (a ∷ b ∷ []) path user table p h = cc
  find_wildcard-best (a ∷ b ∷ c ∷ rest) path user table p h =
      let m : List Text = b ∷ c ∷ rest in
      elim (Option-cases (find_router (join dot (star ∷ m)) path user table)) [
        | inr (q, e) ↦ (
          m,
          inl (refl, tt),
          or_else-first _ _ q p e h,
          (λ n t longer. elim t [
            | inl (same, two) ↦
                let equal : length (join dot n) ≡ length (join dot m) =
                  ap (λ (l : List Text). length (join dot l)) same in
                absurd (omega arith)
            | inr later ↦
                let (before, parts) = Ends-join n m later in
                let short = shorter before (join dot n) (join dot m) parts in absurd (omega arith)
          ]),
        )
        | inl e ↦
            let (k, ends, found, best) =
              find_wildcard-best (b ∷ c ∷ rest) path user table p (or_else-second _ _ p e h) in
            (
              k,
              inr ends,
              found,
              (λ n t longer. elim t [
                | inl (same, two) ↦
                    subst
                      (λ (l : List Text). find_router (join dot (star ∷ l)) path user table ≡ none)
                      (sym same) e
                | inr later ↦ best n later longer
              ]),
            )
      ]
