-- ===== src/Client/Health/Laws.antt =====
-- The callbacks of a monitor.
use cnfrp.Common.{
  ◌+◌, ◌%◌, ◌^◌, ◌≡◌, refl, sym, subst, Bool, true, false, ◌&&◌, List, [], ◌∷◌, ◌++◌, arith,
  Bool-cases, inl, inr,
}
use cnfrp.Client.Health.{
  Monitor, Callback, status_normal, status_failed, failed_enough, check_round, check_rounds,
}

-- the callbacks take turns, from a status on, and end with the status
abbrev pub Alternates : Bool → List Callback → Bool → Type 0
Alternates s [] t = s ≡ t
Alternates s (status_normal ∷ cs) t = (s ≡ false) × Alternates true cs t
Alternates s (status_failed ∷ cs) t = (s ≡ true) × Alternates false cs t

Alternates-append :
    (s m t : Bool) (xs ys : List Callback)
    → Alternates s xs m
    → Alternates m ys t
    → Alternates s (xs ++ ys) t
Alternates-append s m t [] ys h k = subst (λ b. Alternates b ys t) (sym h) k
Alternates-append s m t (status_normal ∷ xs) ys h k = (h.0, Alternates-append true m t xs ys h.1 k)
Alternates-append s m t (status_failed ∷ xs) ys h k = (h.0, Alternates-append false m t xs ys h.1 k)

check_round-Alternates :
    (r : Bool) (m : Monitor)
    → Alternates m.status_ok (check_round r m).0 (check_round r m).1.status_ok
unfolding check_round
check_round-Alternates true m = elim (Bool-cases m.status_ok) [
  | inl e ↦ rw (check_round, e) refl
  | inr e ↦ rw (check_round, e) (refl, refl)
]
check_round-Alternates false m =
    elim (Bool-cases
      (m.status_ok && failed_enough ((m.failed_times + 1) % 2 ^ 64) m.max_failed_times)) [
        | inl e ↦ rw (check_round, e) (ground arith, refl)
        | inr e ↦ rw (check_round, e) refl
      ]

-- Over any rounds the callbacks of a monitor for a normal and a failed status take turns, starting
-- from the status that it has, and the status that it ends with is the one that was called back
-- last.
pub check_rounds-Alternates :
    (rs : List Bool) (m : Monitor)
    → Alternates m.status_ok (check_rounds rs m).0 (check_rounds rs m).1.status_ok
unfolding check_rounds
check_rounds-Alternates [] m = refl
check_rounds-Alternates (r ∷ rs) m =
    let n = (check_round r m).1 in
    Alternates-append m.status_ok n.status_ok (check_rounds rs n).1.status_ok (check_round r m).0
      (check_rounds rs n).0 (check_round-Alternates r m) (check_rounds-Alternates rs n)
