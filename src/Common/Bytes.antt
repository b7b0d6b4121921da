-- ===== src/Common/Bytes.antt =====
-- Text that the program walks: the list of its bytes. The standard library's functions on it.
use Prim.Native.Nat.{ℕ, ◌+◌, ◌≤◌}
use mathlib.Core.Path.{◌≡◌, refl}
use mathlib.Core.Logic.{◌↔◌}
use mathlib.Core.Bool.{Bool, true, false, ◌&&◌}
use mathlib.Core.List.{List, [], ◌∷◌, ◌++◌, map}
use native.Mathlib.Omega.{arith}
use cnfrp.Common.Tests.{ltb, leb, eqb, if◌then◌else◌}
use cnfrp.Common.Keys.{Key}
use cnfrp.Common.Lists.{length}

abbrev pub Text : Type 0
Text = List ℕ

unfoldable pub text_beq : Text → Text → Bool
text_beq [] [] = true
text_beq [] (c ∷ t) = false
text_beq (b ∷ s) [] = false
text_beq (b ∷ s) (c ∷ t) = eqb b c && text_beq s t

pub text_beq_self : (s : Text) → text_beq s s ≡ true
unfolding text_beq
text_beq_self [] = refl
text_beq_self (b ∷ s) = ground (arith, text_beq_self s)

eq_of_text_beq : (s t : Text) → text_beq s t ≡ true → s ≡ t
unfolding text_beq
eq_of_text_beq [] [] h = refl
eq_of_text_beq [] (c ∷ t) h = cc
eq_of_text_beq (b ∷ s) [] h = cc
eq_of_text_beq (b ∷ s) (c ∷ t) h = ground (arith, eq_of_text_beq s t)

pub text_beq_iff : (s t : Text) → (text_beq s t ≡ true) ↔ (s ≡ t)
text_beq_iff s t = (eq_of_text_beq s t, λ e. rw e (text_beq_self t))

instance abbrev pub text_eq : Key Text
text_eq = record { same = text_beq; same_iff = text_beq_iff }

-- `strings.ToLower` on a byte, for ASCII text
unfoldable pub lower_byte : ℕ → ℕ
lower_byte c = if leb b'A' c && leb c b'Z' then c + 32 else c

unfoldable pub to_lower : Text → Text
unfolding lower_byte
to_lower s = map lower_byte s

-- `strings.HasPrefix s p`
unfoldable pub has_prefix : Text → Text → Bool
has_prefix s [] = true
has_prefix [] (c ∷ p) = false
has_prefix (b ∷ s) (c ∷ p) = eqb b c && has_prefix s p

-- `cmp.Compare s t < 0`: the order of Go strings, byte by byte
unfoldable pub less : Text → Text → Bool
less s [] = false
less [] (c ∷ t) = true
less (b ∷ s) (c ∷ t) =
    let rest = less s t in if ltb b c then true else if ltb c b then false else rest

pub less_irrefl : (s : Text) → less s s ≡ false
unfolding less
less_irrefl [] = refl
less_irrefl (b ∷ s) = ground (arith, less_irrefl s)

-- "Not smaller" is transitive.
pub not_less_trans : (s t u : Text) → less s t ≡ false → less t u ≡ false → less s u ≡ false
unfolding less
not_less_trans s t [] h k = refl
not_less_trans s [] (d ∷ u) h k = cc
not_less_trans [] (c ∷ t) (d ∷ u) h k = cc
not_less_trans (b ∷ s) (c ∷ t) (d ∷ u) h k = ground (arith, not_less_trans s t u)

pub not_less_of_less : (s t : Text) → less s t ≡ true → less t s ≡ false
unfolding less
not_less_of_less s [] h = cc
not_less_of_less [] (c ∷ t) h = refl
not_less_of_less (b ∷ s) (c ∷ t) h = ground (arith, not_less_of_less s t)

-- Of two prefixes of one text, the one that is not smaller is the longer.
pub longer_prefix :
    (s p q : Text)
    → has_prefix s p ≡ true
    → has_prefix s q ≡ true
    → less p q ≡ false
    → length q ≤ length p
unfolding less has_prefix
longer_prefix s p [] hp hq h = omega arith
longer_prefix s [] (c ∷ q) hp hq h = cc
longer_prefix [] (b ∷ p) (c ∷ q) hp hq h = cc
longer_prefix (a ∷ s) (b ∷ p) (c ∷ q) hp hq h = ground (arith, longer_prefix s p q)

pub to_lower_idem : (s : Text) → to_lower (to_lower s) ≡ to_lower s
unfolding to_lower
to_lower_idem [] = refl
to_lower_idem (c ∷ s) = ground (arith, to_lower_idem s)

-- `strings.Split s sep` for a separator of one byte: the first label, and the others
unfoldable pub split_at : ℕ → Text → Text × List Text
split_at sep [] = ([], [])
split_at sep (c ∷ s) =
    let (label, rest) = split_at sep s in
    if eqb c sep then ([], label ∷ rest) else (c ∷ label, rest)

unfoldable pub split : ℕ → Text → List Text
unfolding split_at
split sep s = let (label, rest) = split_at sep s in label ∷ rest

-- `strings.Join`
unfoldable pub join_from : ℕ → Text → List Text → Text
join_from sep label [] = label
join_from sep label (next ∷ rest) = label ++ (sep ∷ join_from sep next rest)

unfoldable pub join : ℕ → List Text → Text
unfolding join_from
join sep [] = []
join sep (label ∷ rest) = join_from sep label rest

join_from-cons :
    (sep c : ℕ) (label : Text) (rest : List Text)
    → join_from sep (c ∷ label) rest ≡ c ∷ join_from sep label rest
unfolding join_from
join_from-cons sep c label [] = refl
join_from-cons sep c label (next ∷ rest) = refl

join-split_at : (sep : ℕ) (s : Text) → join_from sep (split_at sep s).0 (split_at sep s).1 ≡ s
unfolding split_at join_from
join-split_at sep [] = refl
join-split_at sep (c ∷ s) =
    ground (arith, join-split_at sep s, join_from-cons sep c (split_at sep s).0 (split_at sep s).1)

-- Splitting and joining gives the text back.
pub join-split : (sep : ℕ) (s : Text) → join sep (split sep s) ≡ s
unfolding join split
join-split sep s = join-split_at sep s
