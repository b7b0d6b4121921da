-- ===== src/Vhost/Router/Order.antt =====
-- The order of the routers of one domain and user, and what the searches find in such a list.
use cnfrp.Common.{
  ◌≤◌, ◌≡◌, refl, Bool, true, false, Option, none, some, List, [], ◌∷◌, ◌++◌, arith, ◌==◌, not,
  keep, length, if◌then◌else◌, is_some, Bool-cases, inl, inr,
}
use cnfrp.Common.Bytes.{
  Text, text_eq, text_beq_iff, text_beq_self, has_prefix, less, less_irrefl, not_less_trans,
  not_less_of_less, longer_prefix,
}
use cnfrp.Vhost.Router.{Router, find_location, find_prefix, insert_router, sort_routers}

module _ {ℓ} {P : Type ℓ} where
  -- No later location is greater.
  abbrev pub NoneAbove : Text → List (Router P) → Type 0
  NoneAbove l [] = Unit
  NoneAbove l (x ∷ rest) = (less l x.location ≡ false) × NoneAbove l rest

  abbrev pub Sorted : List (Router P) → Type 0
  Sorted [] = Unit
  Sorted (x ∷ rest) = NoneAbove x.location rest × Sorted rest

  NoneAbove-trans :
      (l k : Text) (xs : List (Router P)) → less l k ≡ false → NoneAbove k xs → NoneAbove l xs
  NoneAbove-trans l k [] h n = tt
  NoneAbove-trans l k (x ∷ rest) h n =
      (not_less_trans l k x.location h n.0, NoneAbove-trans l k rest h n.1)

  insert-NoneAbove :
      (l : Text) (r : Router P) (xs : List (Router P))
      → less l r.location ≡ false
      → NoneAbove l xs
      → NoneAbove l (insert_router r xs)
  unfolding insert_router
  insert-NoneAbove l r [] h n = (h, tt)
  insert-NoneAbove l r (x ∷ rest) h n = ground (arith, insert-NoneAbove l r rest h n.1)

  insert-Sorted : (r : Router P) (xs : List (Router P)) → Sorted xs → Sorted (insert_router r xs)
  unfolding insert_router
  insert-Sorted r [] s = (tt, tt)
  insert-Sorted r (x ∷ rest) s = elim (Bool-cases (less r.location x.location)) [
    | inl h ↦ rw h (
      insert-NoneAbove x.location r rest (not_less_of_less r.location x.location h) s.0,
      insert-Sorted r rest s.1,
    )
    | inr h ↦ rw h ((h, NoneAbove-trans r.location x.location rest h s.0), s)
  ]

  pub sort-Sorted : (xs : List (Router P)) → Sorted (sort_routers xs)
  unfolding sort_routers
  sort-Sorted [] = tt
  sort-Sorted (x ∷ rest) = insert-Sorted x (sort_routers rest) (sort-Sorted rest)

  find-insert :
      (l : Text) (r : Router P) (xs : List (Router P))
      → find_location l (insert_router r xs)
        ≡ (if l == r.location then some r else find_location l xs)
  unfolding insert_router find_location
  find-insert l r [] = refl
  find-insert l r (x ∷ rest) = ground (
    arith,
    find-insert l r rest,
    text_beq_iff l r.location,
    text_beq_iff l x.location,
    less_irrefl l,
  )

  -- Sorting changes nothing of what is found by its location.
  pub find-sort :
      (l : Text) (xs : List (Router P)) → find_location l (sort_routers xs) ≡ find_location l xs
  unfolding sort_routers find_location
  find-sort l [] = refl
  find-sort l (x ∷ rest) = ground (arith, find-insert l x (sort_routers rest), find-sort l rest)

  pub find-append :
      (l : Text) (xs : List (Router P)) (r : Router P)
      → find_location l (xs ++ r ∷ []) ≡ (
          if is_some (find_location l xs)
          then find_location l xs
          else if l == r.location
          then some r
          else none)
  unfolding find_location
  find-append l [] r = refl
  find-append l (x ∷ rest) r = ground (arith, find-append l rest r)

  pub find-keep :
      (l k : Text) (xs : List (Router P))
      → find_location l (keep (λ r. not (r.location == k)) xs)
        ≡ (if l == k then none else find_location l xs)
  unfolding find_location
  find-keep l k [] = ground arith
  find-keep l k (x ∷ rest) = ground (
    arith,
    find-keep l k rest,
    text_beq_iff l k,
    text_beq_iff x.location k,
    text_beq_iff l x.location,
  )

  keep-NoneAbove :
      (p : Router P → Bool) (l : Text) (xs : List (Router P))
      → NoneAbove l xs
      → NoneAbove l (keep p xs)
  keep-NoneAbove p l [] n = tt
  keep-NoneAbove p l (x ∷ rest) n = ground (arith, keep-NoneAbove p l rest n.1)

  pub keep-Sorted : (p : Router P → Bool) (xs : List (Router P)) → Sorted xs → Sorted (keep p xs)
  keep-Sorted p [] s = tt
  keep-Sorted p (x ∷ rest) s =
      ground (arith, keep-Sorted p rest s.1, keep-NoneAbove p x.location rest s.0)

  -- A location that is found stands in the list, so none above it.
  find-NoneAbove :
      (l k : Text) (xs : List (Router P)) (r : Router P)
      → NoneAbove l xs
      → find_location k xs ≡ some r
      → less l k ≡ false
  unfolding find_location
  find-NoneAbove l k [] r n e = cc
  find-NoneAbove l k (x ∷ rest) r n e =
      ground (arith, text_beq_iff k x.location, find-NoneAbove l k rest r n.1)

  -- What a search by prefix answers: a router whose location is a prefix of the path and no shorter
  -- than any other such location, or nothing if there is no such location.
  abbrev pub Longest : Text → List (Router P) → Option (Router P) → Type ℓ
  Longest path xs none =
      (k : Text) (r : Router P) → find_location k xs ≡ some r → has_prefix path k ≡ false
  Longest path xs (some r) =
      (has_prefix path r.location ≡ true)
      × (find_location r.location xs ≡ some r)
      × ((k : Text) (x : Router P)
          → find_location k xs ≡ some x
          → has_prefix path k ≡ true
          → length k ≤ length r.location)

  first_not_below :
      (k : Text) (x r : Router P) (rest : List (Router P))
      → NoneAbove x.location rest
      → find_location k (x ∷ rest) ≡ some r
      → less x.location k ≡ false
  unfolding find_location
  first_not_below k x r rest n e = ground (
    arith,
    text_beq_iff k x.location,
    less_irrefl x.location,
    find-NoneAbove x.location k rest r n,
  )

  Longest-cons :
      (path : Text) (x : Router P) (rest : List (Router P)) (o : Option (Router P))
      → has_prefix path x.location ≡ false
      → Longest path rest o
      → Longest path (x ∷ rest) o
  unfolding find_location
  Longest-cons path x rest none h l = λ k r e. ground (arith, text_beq_iff k x.location, l k r)
  Longest-cons path x rest (some r) h l = (
    l.0,
    ground (arith, text_beq_iff r.location x.location),
    λ k y e hk. ground (arith, text_beq_iff k x.location, l.2 k y),
  )

  pub find_prefix-Longest :
      (path : Text) (xs : List (Router P)) → Sorted xs → Longest path xs (find_prefix path xs)
  unfolding find_prefix find_location
  find_prefix-Longest path [] s = λ k r e. cc
  find_prefix-Longest path (x ∷ rest) s = elim (Bool-cases (has_prefix path x.location)) [
    | inl h ↦ rw h (
      h,
      rw (text_beq_self x.location),
      λ k r e hk. longer_prefix path x.location k h hk (first_not_below k x r rest s.0 e),
    )
    | inr h ↦
        rw h
          (Longest-cons path x rest (find_prefix path rest) h (find_prefix-Longest path rest s.1))
  ]
