-- ===== src/NatHole/Analysis/Bounds.antt =====
-- The scores: what is recommended is in the tables, is a greatest score, and no score passes 10.
use cnfrp.Common.{
  ℕ, ◌+◌, ◌≤◌, sym, subst, ◌<◌, ◌≡◌, refl, Bool, true, false, ◌&&◌, Option, none, some, List, [],
  ◌∷◌, ◌==◌, nat_eq, arith, if◌then◌else◌, All, All-append, length, Bool-cases, inl, inr, string_eq,
}
use cnfrp.Common.Integer.{
  ℤ, pos, lt_int, inc_int, lt_int_irrefl, not_lt_int_trans, not_lt_int_of_lt, min_int-le_right,
  dec_int-le,
}
use cnfrp.NatHole.Classify.{NatFeature, Counts}
use cnfrp.NatHole.Analysis.Behaviors.{Pair, get_behavior_by_mode}
use cnfrp.NatHole.Analysis.Records.{
  BehaviorScore, score_behaviors, get_behavior_scores_by_mode2, get_behavior_scores_by_mode,
  mode0_scores, scores_for, report_score, keep_max, pick_max, recommand_scores, lower,
}

-- A score that names a behaviour of the tables and is 10 at most.
pub record IsKnown (s : BehaviorScore) : Type 0 where
  pub mode : s.mode ≤ 4
  pub index : s.index < length (get_behavior_by_mode s.mode)
  pub score : lt_int (pos 10) s.score ≡ false

score_behaviors-IsKnown :
    (mode i : ℕ) (a b : ℕ) (xs : List Pair)
    → mode ≤ 4
    → i + length xs ≡ length (get_behavior_by_mode mode)
    → a ≤ 10
    → b ≤ 10
    → All IsKnown (score_behaviors mode i (pos a) (pos b) xs)
unfolding score_behaviors
score_behaviors-IsKnown mode i a b [] h e ha hb = tt
score_behaviors-IsKnown mode i a b (p ∷ xs) h e ha hb = (
  record { mode = h; index = omega arith; score = ground arith },
  score_behaviors-IsKnown mode (i + 1) a b xs h (omega arith) ha hb,
)

by_mode2-IsKnown :
    (mode a b : ℕ)
    → mode ≤ 4
    → a ≤ 10
    → b ≤ 10
    → All IsKnown (get_behavior_scores_by_mode2 mode (pos a) (pos b))
unfolding get_behavior_scores_by_mode2
by_mode2-IsKnown mode a b h ha hb =
    score_behaviors-IsKnown mode 0 a b (get_behavior_by_mode mode) h (omega arith) ha hb

by_mode-IsKnown :
    (mode a : ℕ) → mode ≤ 4 → a ≤ 10 → All IsKnown (get_behavior_scores_by_mode mode (pos a))
unfolding get_behavior_scores_by_mode
by_mode-IsKnown mode a h ha = by_mode2-IsKnown mode a a h ha ha

if-All :
    (b : Bool) (xs ys : List BehaviorScore)
    → All IsKnown xs
    → All IsKnown ys
    → All IsKnown (if b then xs else ys)
if-All true xs ys hx hy = hx
if-All false xs ys hx hy = hy

mode0_scores-IsKnown : (c v : NatFeature) → All IsKnown (mode0_scores c v)
unfolding mode0_scores
mode0_scores-IsKnown c v =
    if-All c.public_network _ _ (by_mode2-IsKnown 0 0 1 (omega arith) (omega arith) (omega arith)) (
      if-All v.public_network _ _ (by_mode2-IsKnown 0 1 0 (omega arith) (omega arith) (omega arith))
        (by_mode-IsKnown 0 0 (omega arith) (omega arith)))

pub scores_for-IsKnown : (n : Counts) (c v : NatFeature) → All IsKnown (scores_for n c v)
unfolding scores_for
scores_for-IsKnown n c v =
    let known : (mode : ℕ) → mode ≤ 4 → All IsKnown (get_behavior_scores_by_mode mode (pos 0)) =
      λ mode h. by_mode-IsKnown mode 0 h (omega arith) in
    let tried : (mode : ℕ) → mode ≤ 4 → All IsKnown (get_behavior_scores_by_mode mode (pos 1)) =
      λ mode h. by_mode-IsKnown mode 1 h (omega arith) in
    let easy : All IsKnown (mode0_scores c v) = mode0_scores-IsKnown c v in
    if-All (n.easy == 2) _ _ easy (
      if-All ((n.hard == 1) && (n.regular == 1)) _ _
        (All-append IsKnown _ _ (known 1 (omega arith))
          (All-append IsKnown _ _ (known 2 (omega arith)) easy))
        (if-All ((n.hard == 1) && (n.regular == 0)) _ _
          (All-append IsKnown _ _ (known 2 (omega arith))
            (All-append IsKnown _ _ (known 1 (omega arith)) easy))
          (if-All ((n.hard == 2) && (n.regular == 2)) _ _
            (All-append IsKnown _ _ (known 3 (omega arith)) (known 4 (omega arith)))
            (if-All ((n.hard == 2) && (n.regular == 1)) _ _ (known 4 (omega arith)) (
              All-append IsKnown _ _ (tried 0 (omega arith))
                (All-append IsKnown _ _ (tried 1 (omega arith)) (tried 3 (omega arith))))))))

pub report_score-IsKnown :
    (mode index : ℕ) (xs : List BehaviorScore)
    → All IsKnown xs
    → All IsKnown (report_score mode index xs)
unfolding report_score
report_score-IsKnown mode index [] h = tt
report_score-IsKnown mode index (s ∷ rest) h =
    elim (Bool-cases ((s.mode == mode) && (s.index == index))) [
      | inl e ↦ rw e (
        record {
          mode = h.0.mode;
          index = h.0.index;
          score = min_int-le_right (inc_int (inc_int s.score)) (pos 10);
        },
        h.1,
      )
      | inr e ↦ rw e (h.0, report_score-IsKnown mode index rest h.1)
    ]

lower-IsKnown : (s : BehaviorScore) → IsKnown s → IsKnown (lower s)
lower-IsKnown s h = record {
  mode = h.mode;
  index = h.index;
  score = dec_int-le s.score (pos 10) h.score;
}

keep_max-IsKnown :
    (s : BehaviorScore) (rest : List BehaviorScore) (found : BehaviorScore × List BehaviorScore)
    → IsKnown s
    → All IsKnown rest
    → IsKnown found.0 × All IsKnown found.1
    → IsKnown (keep_max s rest found).0 × All IsKnown (keep_max s rest found).1
unfolding keep_max
keep_max-IsKnown s rest found h hs hf = elim (Bool-cases (lt_int s.score found.0.score)) [
  | inl e ↦ rw e (hf.0, (h, hf.1))
  | inr e ↦ rw e (h, (lower-IsKnown s h, hs))
]

pub pick_max-IsKnown :
    (s : BehaviorScore) (rest : List BehaviorScore)
    → IsKnown s
    → All IsKnown rest
    → IsKnown (pick_max s rest).0 × All IsKnown (pick_max s rest).1
unfolding pick_max
pick_max-IsKnown s [] h hs = (h, (lower-IsKnown s h, tt))
pick_max-IsKnown s (t ∷ rest) h hs =
    keep_max-IsKnown s (t ∷ rest) (pick_max t rest) h hs (pick_max-IsKnown t rest hs.0 hs.1)

abbrev pub IsMax : ℤ → List BehaviorScore → Type 0
IsMax best xs = All (λ x. lt_int best x.score ≡ false) xs

IsMax-trans : (a b : ℤ) (xs : List BehaviorScore) → lt_int a b ≡ false → IsMax b xs → IsMax a xs
IsMax-trans a b [] h m = tt
IsMax-trans a b (x ∷ xs) h m = (not_lt_int_trans a b x.score h m.0, IsMax-trans a b xs h m.1)

keep_max-IsMax :
    (s : BehaviorScore) (rest : List BehaviorScore) (found : BehaviorScore × List BehaviorScore)
    → IsMax found.0.score rest
    → IsMax (keep_max s rest found).0.score (s ∷ rest)
unfolding keep_max
keep_max-IsMax s rest found m = elim (Bool-cases (lt_int s.score found.0.score)) [
  | inl e ↦
      let kept : (keep_max s rest found).0 ≡ found.0 = rw (e, keep_max) in
      subst (λ b. IsMax b.score (s ∷ rest)) (sym kept) (not_lt_int_of_lt s.score found.0.score e, m)
  | inr e ↦
      let first : (keep_max s rest found).0 ≡ s = rw (e, keep_max) in
      subst (λ b. IsMax b.score (s ∷ rest)) (sym first)
        (lt_int_irrefl s.score, IsMax-trans s.score found.0.score rest e m)
]

pick_max-IsMax :
    (s : BehaviorScore) (rest : List BehaviorScore) → IsMax (pick_max s rest).0.score (s ∷ rest)
unfolding pick_max
pick_max-IsMax s [] = (lt_int_irrefl s.score, tt)
pick_max-IsMax s (t ∷ rest) = keep_max-IsMax s (t ∷ rest) (pick_max t rest) (pick_max-IsMax t rest)

-- Two lists of scores differ in one element, which is one less in the second.
pub data LoweredAt (best : BehaviorScore) : List BehaviorScore → List BehaviorScore → Type 0 where
  here : {rest : List BehaviorScore} → LoweredAt best (best ∷ rest) (lower best ∷ rest)
  there :
      (s : BehaviorScore) {xs ys : List BehaviorScore}
      → LoweredAt best xs ys
      → LoweredAt best (s ∷ xs) (s ∷ ys)

keep_max-LoweredAt :
    (s : BehaviorScore) (rest : List BehaviorScore) (found : BehaviorScore × List BehaviorScore)
    → LoweredAt found.0 rest found.1
    → LoweredAt (keep_max s rest found).0 (s ∷ rest) (keep_max s rest found).1
unfolding keep_max
keep_max-LoweredAt s rest found l = elim (Bool-cases (lt_int s.score found.0.score)) [
  | inl e ↦ rw e (there s l)
  | inr e ↦ rw e here
]

pick_max-LoweredAt :
    (s : BehaviorScore) (rest : List BehaviorScore)
    → LoweredAt (pick_max s rest).0 (s ∷ rest) (pick_max s rest).1
unfolding pick_max
pick_max-LoweredAt s [] = here
pick_max-LoweredAt s (t ∷ rest) =
    keep_max-LoweredAt s (t ∷ rest) (pick_max t rest) (pick_max-LoweredAt t rest)

-- What `Recommand` may answer.
abbrev pub Chosen : List BehaviorScore → Option (BehaviorScore × List BehaviorScore) → Type 0
Chosen xs none = xs ≡ []
Chosen xs (some (best, ys)) = IsMax best.score xs × LoweredAt best xs ys

-- Recommand answers nothing only for no scores; otherwise it answers a behaviour with a greatest
-- score, and the scores after it are the scores before it with that one element lowered by one.
pub recommand_scores-Chosen : (xs : List BehaviorScore) → Chosen xs (recommand_scores xs)
unfolding recommand_scores
recommand_scores-Chosen [] = refl
recommand_scores-Chosen (s ∷ rest) = (pick_max-IsMax s rest, pick_max-LoweredAt s rest)
