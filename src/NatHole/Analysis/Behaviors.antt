-- ===== src/NatHole/Analysis/Behaviors.antt =====
-- pkg/nathole/analysis.go: the tables of behaviours, one for each detect mode.
use cnfrp.Common.{ℕ, zero, suc, none, some, List, [], ◌∷◌, get_elem?}

-- `no_role` is the empty string of a zero value.
pub data Role : Type 0 where
  no_role sender receiver : Role

pub record RecommandBehavior : Type 0 where
  pub role : Role
  pub ttl : ℕ
  pub send_delay_ms : ℕ
  pub ports_range_number : ℕ
  pub ports_random_number : ℕ
  pub listen_random_ports : ℕ

abbrev pub behavior : Role → ℕ → ℕ → ℕ → ℕ → ℕ → RecommandBehavior
behavior role ttl delay range random listen = record {
  role = role;
  ttl = ttl;
  send_delay_ms = delay;
  ports_range_number = range;
  ports_random_number = random;
  listen_random_ports = listen;
}

abbrev pub Pair : Type 0
Pair = RecommandBehavior × RecommandBehavior

abbrev pub mode0_behaviors : List Pair
mode0_behaviors =
    (behavior sender 0 0 0 0 0, behavior receiver 7 0 0 0 0)
    ∷ (behavior receiver 7 0 0 0 0, behavior sender 0 0 0 0 0)
    ∷ (behavior sender 0 0 0 0 0, behavior receiver 4 0 0 0 0)
    ∷ (behavior receiver 4 0 0 0 0, behavior sender 0 0 0 0 0)
    ∷ (behavior sender 0 0 0 0 0, behavior receiver 0 0 0 0 0)
    ∷ (behavior receiver 0 0 0 0 0, behavior sender 0 0 0 0 0)
    ∷ (behavior sender 0 5000 0 0 0, behavior receiver 0 0 0 0 0)
    ∷ (behavior sender 0 10000 0 0 0, behavior receiver 0 0 0 0 0)
    ∷ (behavior receiver 0 0 0 0 0, behavior sender 0 5000 0 0 0)
    ∷ (behavior receiver 0 0 0 0 0, behavior sender 0 10000 0 0 0)
    ∷ []

abbrev pub mode1_behaviors : List Pair
mode1_behaviors =
    (behavior sender 0 0 0 0 0, behavior receiver 7 0 10 0 0)
    ∷ (behavior sender 0 2000 0 0 0, behavior receiver 7 0 10 0 0)
    ∷ (behavior sender 0 0 0 0 0, behavior receiver 4 0 10 0 0)
    ∷ (behavior sender 0 2000 0 0 0, behavior receiver 4 0 10 0 0)
    ∷ (behavior sender 0 0 0 0 0, behavior receiver 0 0 10 0 0)
    ∷ (behavior sender 0 2000 0 0 0, behavior receiver 0 0 10 0 0)
    ∷ []

abbrev pub mode2_behaviors : List Pair
mode2_behaviors =
    (behavior sender 0 3000 0 1000 0, behavior receiver 7 0 0 0 256)
    ∷ (behavior sender 0 3000 0 1000 0, behavior receiver 4 0 0 0 256)
    ∷ (behavior sender 0 3000 0 1000 0, behavior receiver 0 0 0 0 256)
    ∷ []

abbrev pub mode3_behaviors : List Pair
mode3_behaviors =
    (behavior sender 0 0 10 0 0, behavior receiver 7 0 10 0 0)
    ∷ (behavior sender 0 0 10 0 0, behavior receiver 4 0 10 0 0)
    ∷ (behavior sender 0 0 10 0 0, behavior receiver 0 0 10 0 0)
    ∷ (behavior receiver 7 0 10 0 0, behavior sender 0 0 10 0 0)
    ∷ (behavior receiver 4 0 10 0 0, behavior sender 0 0 10 0 0)
    ∷ (behavior receiver 0 0 10 0 0, behavior sender 0 0 10 0 0)
    ∷ []

abbrev pub mode4_behaviors : List Pair
mode4_behaviors =
    (behavior sender 0 3000 0 1000 0, behavior receiver 7 0 2 0 256)
    ∷ (behavior sender 0 3000 0 1000 0, behavior receiver 4 0 2 0 256)
    ∷ (behavior sender 0 3000 0 1000 0, behavior receiver 0 0 2 0 256)
    ∷ []

-- Any other mode has the table of mode 0.
unfoldable pub get_behavior_by_mode : ℕ → List Pair
get_behavior_by_mode (suc zero) = mode1_behaviors
get_behavior_by_mode (suc (suc zero)) = mode2_behaviors
get_behavior_by_mode (suc (suc (suc zero))) = mode3_behaviors
get_behavior_by_mode (suc (suc (suc (suc zero)))) = mode4_behaviors
get_behavior_by_mode _ = mode0_behaviors

abbrev pub zero_behavior : RecommandBehavior
zero_behavior = behavior no_role 0 0 0 0 0

-- Past the end of the table both behaviours are zero values.
unfoldable pub get_behavior_by_mode_and_index : ℕ → ℕ → Pair
get_behavior_by_mode_and_index mode index = elim (get_elem? (get_behavior_by_mode mode) index) [
  | none ↦ (zero_behavior, zero_behavior)
  | some p ↦ p
]
