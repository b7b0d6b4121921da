-- ===== src/NatHole/Analysis/Records.antt =====
-- pkg/nathole/analysis.go: the scores of the behaviours for one pair of peers.
use cnfrp.Common.{
  ℕ, ◌+◌, Bool, true, false, ◌&&◌, Option, none, some, List, [], ◌∷◌, ◌++◌, ◌==◌, nat_eq,
  if◌then◌else◌,
}
use cnfrp.Common.Integer.{ℤ, pos, lt_int, inc_int, dec_int, min_int}
use cnfrp.NatHole.Classify.{NatFeature, Counts, classify_feature_count}
use cnfrp.NatHole.Analysis.Behaviors.{Role, sender, Pair, get_behavior_by_mode}

pub record BehaviorScore : Type 0 where
  pub mode : ℕ
  pub index : ℕ
  pub score : ℤ

abbrev is_sender : Role → Bool
is_sender sender = true
is_sender _ = false

-- the loop over the behaviours of a mode, from index `i`
unfoldable pub score_behaviors : ℕ → ℕ → ℤ → ℤ → List Pair → List BehaviorScore
score_behaviors mode i sender_score receiver_score [] = []
score_behaviors mode i sender_score receiver_score (p ∷ rest) =
    record {
      mode = mode;
      index = i;
      score = if is_sender p.0.role then sender_score else receiver_score;
    }
    ∷ score_behaviors mode (i + 1) sender_score receiver_score rest

unfoldable pub get_behavior_scores_by_mode2 : ℕ → ℤ → ℤ → List BehaviorScore
get_behavior_scores_by_mode2 mode sender_score receiver_score =
    score_behaviors mode 0 sender_score receiver_score (get_behavior_by_mode mode)

unfoldable pub get_behavior_scores_by_mode : ℕ → ℤ → List BehaviorScore
get_behavior_scores_by_mode mode score = get_behavior_scores_by_mode2 mode score score

-- the closure `appendMode0`
unfoldable pub mode0_scores : NatFeature → NatFeature → List BehaviorScore
mode0_scores c v =
    if c.public_network
    then get_behavior_scores_by_mode2 0 (pos 0) (pos 1)
    else if v.public_network
    then get_behavior_scores_by_mode2 0 (pos 1) (pos 0)
    else get_behavior_scores_by_mode 0 (pos 0)

abbrev no_counts : Counts
no_counts = record { easy = 0; hard = 0; regular = 0 }

unfoldable pub scores_for : Counts → NatFeature → NatFeature → List BehaviorScore
scores_for n c v =
    if n.easy == 2
    then mode0_scores c v
    else if (n.hard == 1) && (n.regular == 1)
    then get_behavior_scores_by_mode 1 (pos 0)
      ++ (get_behavior_scores_by_mode 2 (pos 0) ++ mode0_scores c v)
    else if (n.hard == 1) && (n.regular == 0)
    then get_behavior_scores_by_mode 2 (pos 0)
      ++ (get_behavior_scores_by_mode 1 (pos 0) ++ mode0_scores c v)
    else if (n.hard == 2) && (n.regular == 2)
    then get_behavior_scores_by_mode 3 (pos 0) ++ get_behavior_scores_by_mode 4 (pos 0)
    else if (n.hard == 2) && (n.regular == 1)
    then get_behavior_scores_by_mode 4 (pos 0)
    else get_behavior_scores_by_mode 0 (pos 1)
      ++ (get_behavior_scores_by_mode 1 (pos 1) ++ get_behavior_scores_by_mode 3 (pos 1))

unfoldable pub new_make_hole_records : NatFeature → NatFeature → List BehaviorScore
new_make_hole_records c v = scores_for (classify_feature_count no_counts (c ∷ v ∷ [])) c v

abbrev pub ten : ℤ
ten = pos 10

-- the first record of the mode and the index has its score raised by 2, to 10 at most
unfoldable pub report_score : ℕ → ℕ → List BehaviorScore → List BehaviorScore
report_score mode index [] = []
report_score mode index (s ∷ rest) =
    let later = report_score mode index rest in
    if (s.mode == mode) && (s.index == index)
    then record s { score = min_int (inc_int (inc_int s.score)) ten } ∷ rest
    else s ∷ later

abbrev pub lower : BehaviorScore → BehaviorScore
lower s = record s { score = dec_int s.score }

-- `s` before a list whose first greatest element is known: it wins unless it is smaller
unfoldable pub keep_max :
    BehaviorScore
    → List BehaviorScore
    → BehaviorScore × List BehaviorScore
    → BehaviorScore × List BehaviorScore
keep_max s rest found =
    if lt_int s.score found.0.score then (found.0, s ∷ found.1) else (s, lower s ∷ rest)

-- `slices.MaxFunc` by the score answers the first greatest element of `s ∷ rest`, and
-- `maxScore.Score--` lowers that element where it stands.
unfoldable pub pick_max : BehaviorScore → List BehaviorScore → BehaviorScore × List BehaviorScore
pick_max s [] = (s, lower s ∷ [])
pick_max s (t ∷ rest) = keep_max s (t ∷ rest) (pick_max t rest)

-- The element that is recommended, as it was before, and the scores after. `none` is no scores.
unfoldable pub recommand_scores : List BehaviorScore → Option (BehaviorScore × List BehaviorScore)
recommand_scores [] = none
recommand_scores (s ∷ rest) = some (pick_max s rest)
