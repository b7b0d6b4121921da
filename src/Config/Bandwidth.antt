-- ===== src/Config/Bandwidth.antt =====
-- pkg/config/types/types.go: `BandwidthQuantity`, a text like 2MB with the bytes that it stands
-- for. `scaled base number` is int64(f * base) for the float f that strconv.ParseFloat reads, if it
-- reads one. Spaces are those of ASCII.
use cnfrp.Common.{
  ℕ, ◌≡◌, refl, ap, ◌∙◌, Bool, true, false, ◌&&◌, ◌||◌, Option, none, some, [], ◌∷◌, ◌==◌,
  if◌then◌else◌, leb, eqb, arith, Bool-cases, inl, inr, ◌⊎◌,
}
use cnfrp.Common.Bytes.{Text, text_eq}
use cnfrp.Common.Integer.{ℤ, pos}

pub record BandwidthQuantity : Type 0 where
  pub s : Text
  pub i : ℤ

abbrev pub no_limit : BandwidthQuantity
no_limit = record { s = []; i = pos 0 }

-- `Equal`, on pointers
abbrev pub same_int : ℤ → ℤ → Bool
same_int (pos a) (pos b) = eqb a b
same_int (ℤ.negsuc a) (ℤ.negsuc b) = eqb a b
same_int (pos a) (ℤ.negsuc b) = false
same_int (ℤ.negsuc a) (pos b) = false

unfoldable pub equal : Option BandwidthQuantity → Option BandwidthQuantity → Bool
equal none none = true
equal (some q) (some u) = same_int q.i u.i
equal none (some u) = false
equal (some q) none = false

unfoldable pub is_space : ℕ → Bool
is_space c = eqb c 32 || (leb 9 c && leb c 13)

abbrev empty : Text → Bool
empty [] = true
empty (c ∷ s) = false

unfoldable pub trim_left : Text → Text
trim_left [] = []
trim_left (c ∷ s) = let rest = trim_left s in if is_space c then rest else c ∷ s

unfoldable pub trim_right : Text → Text
trim_right [] = []
trim_right (c ∷ s) = let rest = trim_right s in if is_space c && empty rest then [] else c ∷ rest

-- `strings.TrimSpace`
unfoldable pub trim_space : Text → Text
unfolding trim_left trim_right
trim_space s = trim_right (trim_left s)

-- `strings.CutSuffix`: what stands before the suffix
unfoldable pub cut_suffix : Text → Text → Option Text
cut_suffix suffix [] = if [] == suffix then some [] else none
cut_suffix suffix (c ∷ s) =
    if (c ∷ s) == suffix
    then some []
    else elim (cut_suffix suffix s) [ none ↦ none | some front ↦ some (c ∷ front) ]

abbrev pub mb : Text
mb = b'M' ∷ b'B' ∷ []

abbrev pub kb : Text
kb = b'K' ∷ b'B' ∷ []

-- the bytes of a trimmed text; none: the unit or the number is wrong
unfoldable pub quantity : (ℕ → Text → Option ℤ) → Text → Option ℤ
quantity scaled t = elim (cut_suffix mb t) [
  | some number ↦ scaled 1048576 number
  | none ↦ elim (cut_suffix kb t) [ some number ↦ scaled 1024 number | none ↦ none ]
]

-- an error, and the quantity, which an error leaves empty
unfoldable pub new_bandwidth_quantity : (ℕ → Text → Option ℤ) → Text → Bool × BandwidthQuantity
new_bandwidth_quantity scaled text =
    let t = trim_space text in
    if t == [] then (false, no_limit) else elim (quantity scaled t) [
      | none ↦ (true, no_limit)
      | some n ↦ (false, record { s = t; i = n })
    ]

-- A quantity that was read, or the empty one.
abbrev pub Made : (ℕ → Text → Option ℤ) → BandwidthQuantity → Type 0
Made scaled q =
    (q ≡ no_limit) ⊎ (new_bandwidth_quantity scaled q.s ≡ (false, q)) × (q.s == [] ≡ false)

trim_right_idem : (s : Text) → trim_right (trim_right s) ≡ trim_right s
unfolding trim_right
trim_right_idem [] = refl
trim_right_idem (c ∷ s) = ground (arith, trim_right_idem s)

-- a text that does not start with a space
abbrev Starts : Text → Type 0
Starts [] = Unit
Starts (c ∷ s) = is_space c ≡ false

trim_left-Starts : (s : Text) → Starts (trim_left s)
unfolding trim_left
trim_left-Starts [] = tt
trim_left-Starts (c ∷ s) = elim (Bool-cases (is_space c)) [
  | inl e ↦ rw e (trim_left-Starts s)
  | inr e ↦ rw e e
]

trim_right-Starts : (s : Text) → Starts s → Starts (trim_right s)
unfolding trim_right
trim_right-Starts [] h = tt
trim_right-Starts (c ∷ s) h = rw h h

trim_left_id : (s : Text) → Starts s → trim_left s ≡ s
unfolding trim_left
trim_left_id [] h = refl
trim_left_id (c ∷ s) h = rw h

pub trim_space_idem : (s : Text) → trim_space (trim_space s) ≡ trim_space s
unfolding trim_space
trim_space_idem s =
    ap trim_right (
      trim_left_id (trim_right (trim_left s))
        (trim_right-Starts (trim_left s) (trim_left-Starts s)))
    ∙ trim_right_idem (trim_left s)
