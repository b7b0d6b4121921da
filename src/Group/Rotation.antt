-- ===== src/Group/Rotation.antt =====
-- server/group/http.go, `chooseEndpoint`: every member of a group has its turn.
use cnfrp.Common.{
  ℕ, zero, suc, ◌+◌, ◌-◌, ◌%◌, ◌^◌, ◌<◌, ◌≡◌, ◌≢◌, refl, sym, ap, ◌∙◌, Option, none, some, List, [],
  ◌∷◌, String, ◌==◌, string_eq, if◌then◌else◌, ltb, length, get_elem?, arith, Bool-cases, if_cases,
  inl, inr, str_eq_iff,
}
use native.Mathlib.Nat.{mod-eq_of_lt, mod-add-mod, add-mod_right, mod-lt}
use cnfrp.Group.{HttpGroup, next_index, at_turn, choose_endpoint}

-- some step of a full turn reaches a place
reach : (n start i : ℕ) → i < n → (k : ℕ) × (k < n) × ((start + suc k) % n ≡ i)
reach n start i h = elim (Bool-cases (ltb (start % n) i)) [
  | inl before ↦
      let up : (start % n) + suc (i - suc (start % n)) ≡ i = ground arith in
      (
        i - suc (start % n),
        omega arith,
        sym (mod-add-mod start n (suc (i - suc (start % n))))
            ∙ (ap (λ x. x % n) up ∙ mod-eq_of_lt h),
      )
  | inr after ↦
      let round : (start % n) + suc (i + n - suc (start % n)) ≡ i + n =
        let low : start % n < n = mod-lt start (omega arith) in omega arith in
      (
        i + n - suc (start % n),
        ground (arith, λ (p : 0 < n). mod-lt start p),
        sym (mod-add-mod start n (suc (i + n - suc (start % n))))
            ∙ (ap (λ x. x % n) round ∙ (add-mod_right i n ∙ mod-eq_of_lt h)),
      )
]

elem_bound {ℓ} :
    {A : Type ℓ} (xs : List A) (i : ℕ) (x : A) → get_elem? xs i ≡ some x → i < length xs
elem_bound [] i x h = cc
elem_bound (y ∷ xs) zero x h = omega arith
elem_bound (y ∷ xs) (suc i) x h = let below = elem_bound xs i x h in omega arith

next_index_lem : (i : ℕ) → i + 1 < 2 ^ 64 → next_index i ≡ suc i
unfolding next_index
next_index_lem i h = mod-eq_of_lt (omega arith)

module _ {ℓ} {F : Type ℓ} where
  -- the group after some choices
  unfoldable pub choices : ℕ → HttpGroup F → HttpGroup F
  choices zero g = g
  choices (suc k) g = choices k (choose_endpoint g).1

  choices-index :
      (k : ℕ) (g : HttpGroup F)
      → g.index + k < 2 ^ 64
      → choices k g ≡ record g { index = g.index + k }
  unfolding choices choose_endpoint
  choices-index zero g h =
      let same : g.index ≡ g.index + 0 = omega arith in ap (λ i. record g { index = i }) same
  choices-index (suc k) g h =
      ap (λ i. choices k (record g { index = i })) (next_index_lem g.index (omega arith))
      ∙ choices-index k (record g { index = suc g.index }) (omega arith)
      ∙ ap (λ i. record g { index = i }) (omega arith)

  at_turn_place :
      (g : HttpGroup F) (i : ℕ) (name : String)
      → get_elem? g.pxy_names i ≡ some name
      → next_index g.index % length g.pxy_names ≡ i
      → at_turn g ≡ some name
  unfolding at_turn
  at_turn_place g i name there turn =
      if_cases (λ (o : Option String). o ≡ some name) (ltb 0 (length g.pxy_names)) _ _
        (λ e. ap (get_elem? g.pxy_names) turn ∙ there)
        (λ e. let below = elem_bound g.pxy_names i name there in ground arith)

  -- the choice of a group whose turn is at a place
  choice_at :
      (g : HttpGroup F) (i : ℕ) (name : String)
      → get_elem? g.pxy_names i ≡ some name
      → name ≢ ""
      → next_index g.index % length g.pxy_names ≡ i
      → (choose_endpoint g).0 ≡ some name
  unfolding choose_endpoint
  choice_at g i name there named turn =
      ap
        (λ (o : Option String). elim o as (λ x. Option String) [
          | none ↦ none
          | some x ↦ if x == "" then none else some x
        ])
        (at_turn_place g i name there turn)
      ∙ if_cases (λ (o : Option String). o ≡ some name) (name == "") none (some name)
          (λ e. absurd (named ((str_eq_iff name "").0 e))) (λ e. refl)

  -- Every member of a group with a name that is not empty is chosen by one of the next choices, of
  -- which there are as many as members, as long as the counter of the group does not reach 2^64
  -- meanwhile.
  pub choose_endpoint-turn :
      (g : HttpGroup F) (i : ℕ) (name : String)
      → get_elem? g.pxy_names i ≡ some name
      → name ≢ ""
      → g.index + length g.pxy_names < 2 ^ 64
      → (k : ℕ) × (k < length g.pxy_names) × ((choose_endpoint (choices k g)).0 ≡ some name)
  choose_endpoint-turn g i name there named low =
      let (k, within, place) =
        reach (length g.pxy_names) g.index i (elem_bound g.pxy_names i name there) in
      let index : g.index + suc k ≡ suc (g.index + k) = omega arith in
      (
        k,
        within,
        ap (λ (h : HttpGroup F). (choose_endpoint h).0) (choices-index k g (omega arith))
            ∙ choice_at (record g { index = g.index + k }) i name there named
                (ap (λ x. x % length g.pxy_names)
                    (next_index_lem (g.index + k) (omega arith) ∙ sym index)
                  ∙ place),
      )
