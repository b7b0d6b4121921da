-- ===== src/NatHole/Tests.antt =====
-- The NAT classification and the analyzer on concrete inputs.
use cnfrp.Common.{
  ℕ, String, ◌≡◌, ◌≢◌, refl, true, false, Option, some, List, [], ◌∷◌, arith, str_eq_iff,
}
use cnfrp.NatHole.Classify.{
  easy_nat, hard_nat, NatFeature, no_change, port_changed, Address, read_address,
  classify_nat_feature,
}
use cnfrp.NatHole.Classify.Laws.{read_all, Describes, classify-Describes}
use cnfrp.NatHole.Analysis.{
  new_analyzer, get_recommand_behaviors, run, recommends, reports, cleans, Call,
}
use cnfrp.NatHole.Analysis.Records.{recommand_scores, BehaviorScore}
use cnfrp.Common.Integer.{pos, negsuc}
use cnfrp.NatHole.Analysis.Bounds.{Chosen, recommand_scores-Chosen}
use cnfrp.NatHole.Analysis.Answers.{IsSound, recommendation_after_run, Capped, run-Capped}

-- Addresses of one IP: the text is the port.
abbrev split : String → Option (String × String)
split s = some ("10.0.0.1", s)

abbrev atoi : String → Option ℕ
atoi s = some 7

first : Address
first = record { ip = "10.0.0.1"; port = "80"; port_num = 7 }

second : Address
second = record { ip = "10.0.0.1"; port = "81"; port_num = 7 }

both_read : read_all split atoi ("80" ∷ "81" ∷ []) ≡ some (first ∷ second ∷ [])
unfolding read_all read_address first second
both_read = refl

first_named : first.ip ≢ ""
unfolding first
first_named = ground (arith, str_eq_iff "10.0.0.1" "")

classify-Describes_example :
    (f : NatFeature) × (classify_nat_feature split atoi ("80" ∷ "81" ∷ []) [] ≡ some f)
    × Describes [] first (second ∷ []) f
classify-Describes_example =
    classify-Describes split atoi ("80" ∷ "81" ∷ []) [] first second [] both_read first_named

abbrev easy : NatFeature
easy = record {
  nat_type = easy_nat;
  behavior = no_change;
  ports_difference = 0;
  regular_ports_change = false;
  public_network = false;
}

abbrev hard : NatFeature
hard = record {
  nat_type = hard_nat;
  behavior = port_changed;
  ports_difference = 2;
  regular_ports_change = true;
  public_network = false;
}

abbrev history : List (ℕ × Call)
history = (1, recommends "k" easy hard) ∷ (2, reports "k" 1 0) ∷ (3, cleans) ∷ []

recommendation_after_run_example :
    IsSound easy (get_recommand_behaviors "k" easy hard 4 (run (new_analyzer 100) history)).0
recommendation_after_run_example = recommendation_after_run 100 history "k" easy hard 4

run-Capped_example : Capped (run (new_analyzer 100) history).records
run-Capped_example = run-Capped 100 history

abbrev two_scores : List BehaviorScore
two_scores =
    record { mode = 0; index = 0; score = pos 1 }
    ∷ record { mode = 1; index = 0; score = negsuc 3 }
    ∷ []

recommand_scores-Chosen_example : Chosen two_scores (recommand_scores two_scores)
recommand_scores-Chosen_example = recommand_scores-Chosen two_scores
