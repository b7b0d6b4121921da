-- ===== src/NatHole/Analysis/Roles.antt =====
-- What the two peers are told: one sends and one receives, and which of the two by their NAT.
use cnfrp.Common.{
  ℕ, zero, suc, ◌≤◌, ◌<◌, ◌≡◌, refl, Bool, true, false, none, some, List, [], ◌∷◌, nat_eq, arith,
  if◌then◌else◌, All, length, inl, inr, ◌⊎◌, string_eq, not, get_elem?,
}
use cnfrp.NatHole.Classify.{NatFeature}
use cnfrp.NatHole.Analysis.Behaviors.{
  sender, receiver, Pair, get_behavior_by_mode, get_behavior_by_mode_and_index,
}
use cnfrp.NatHole.Analysis.{assign_behaviors, swap_pair, is_easy}

abbrev pub SenderFirst : Pair → Type 0
SenderFirst p = (p.0.role ≡ sender) × (p.1.role ≡ receiver)

abbrev pub Opposite : Pair → Type 0
Opposite p = SenderFirst p ⊎ ((p.0.role ≡ receiver) × (p.1.role ≡ sender))

-- The sender stands first in the tables of the modes 1, 2 and 4.
abbrev pub Ordered : ℕ → Pair → Type 0
Ordered (suc zero) p = SenderFirst p
Ordered (suc (suc zero)) p = SenderFirst p
Ordered (suc (suc (suc (suc zero)))) p = SenderFirst p
Ordered _ p = Opposite p

table-Ordered : (mode : ℕ) → mode ≤ 4 → All (Ordered mode) (get_behavior_by_mode mode)
unfolding get_behavior_by_mode
table-Ordered zero h = (
  inl (refl, refl),
  (
    inr (refl, refl),
    (
      inl (refl, refl),
      (
        inr (refl, refl),
        (
          inl (refl, refl),
          (
            inr (refl, refl),
            (inl (refl, refl), (inl (refl, refl), (inr (refl, refl), (inr (refl, refl), tt)))),
          ),
        ),
      ),
    ),
  ),
)
table-Ordered (suc zero) h = ground arith
table-Ordered (suc (suc zero)) h = ground arith
table-Ordered (suc (suc (suc zero))) h = (
  inl (refl, refl),
  (
    inl (refl, refl),
    (inl (refl, refl), (inr (refl, refl), (inr (refl, refl), (inr (refl, refl), tt)))),
  ),
)
table-Ordered (suc (suc (suc (suc zero)))) h = ground arith
table-Ordered (suc (suc (suc (suc (suc n))))) h = absurd (omega arith)

All-get_elem? :
    (P : Pair → Type 0) (d : Pair) (xs : List Pair) (i : ℕ)
    → All P xs
    → i < length xs
    → P (elim (get_elem? xs i) [ none ↦ d | some p ↦ p ])
All-get_elem? P d [] i h lt = elim lt [ ]
All-get_elem? P d (x ∷ xs) zero h lt = h.0
All-get_elem? P d (x ∷ xs) (suc i) h lt = All-get_elem? P d xs i h.1 (omega arith)

pub behavior-Ordered :
    (mode index : ℕ)
    → mode ≤ 4
    → index < length (get_behavior_by_mode mode)
    → Ordered mode (get_behavior_by_mode_and_index mode index)
unfolding get_behavior_by_mode_and_index
behavior-Ordered mode index h lt =
    All-get_elem? (Ordered mode) _ (get_behavior_by_mode mode) index (table-Ordered mode h) lt

-- The client, which is the first of the two, sends or receives.
abbrev pub Sends : Bool → Pair → Type 0
Sends true p = (p.0.role ≡ sender) × (p.1.role ≡ receiver)
Sends false p = (p.0.role ≡ receiver) × (p.1.role ≡ sender)

-- What the peers are told in each mode: in mode 1 the client sends if its NAT is hard, in mode 2 if
-- it is easy, in mode 4 if its ports change regularly; in the other modes one of the two sends.
abbrev pub Told : ℕ → NatFeature → Pair → Type 0
Told (suc zero) c p = Sends (not (is_easy c)) p
Told (suc (suc zero)) c p = Sends (is_easy c) p
Told (suc (suc (suc (suc zero)))) c p = Sends c.regular_ports_change p
Told _ c p = Opposite p

Sends-if : (b : Bool) (p : Pair) → SenderFirst p → Sends b (if b then p else swap_pair p)
Sends-if true p o = o
Sends-if false p o = (o.1, o.0)

Sends-unless : (b : Bool) (p : Pair) → SenderFirst p → Sends (not b) (if b then swap_pair p else p)
Sends-unless true p o = (o.1, o.0)
Sends-unless false p o = o

pub assign-Told :
    (mode : ℕ) (c : NatFeature) (p : Pair)
    → mode ≤ 4
    → Ordered mode p
    → Told mode c (assign_behaviors mode c p)
unfolding assign_behaviors
assign-Told zero c p h o = o
assign-Told (suc zero) c p h o = Sends-unless (is_easy c) p o
assign-Told (suc (suc zero)) c p h o = Sends-if (is_easy c) p o
assign-Told (suc (suc (suc zero))) c p h o = o
assign-Told (suc (suc (suc (suc zero)))) c p h o = Sends-if c.regular_ports_change p o
assign-Told (suc (suc (suc (suc (suc n))))) c p h o = absurd (omega arith)
