-- ===== src/NatHole/Analysis.antt =====
-- pkg/nathole/analysis.go: which behaviour the two peers are told, and how reports of success and
-- the number of trials move the choice. A mode and an index are natural numbers; a time is a
-- number of seconds. The two mutexes make each operation one step.
pub mod Behaviors
pub mod Records
pub mod Roles
pub mod Answers
pub mod Bounds
use cnfrp.Common.{
  ℕ, zero, suc, ◌+◌, ◌-◌, String, Bool, true, false, ◌&&◌, Option, none, some, List, [], ◌∷◌, ◌++◌,
  ◌==◌, nat_eq, string_eq, ltb, if◌then◌else◌, not, length,
}
use cnfrp.Common.Dict.{Dict, get, put, del}
use cnfrp.NatHole.Classify.{NatType, easy_nat, hard_nat, NatFeature}
use Behaviors.{RecommandBehavior, get_behavior_by_mode_and_index}
use Records.{BehaviorScore, new_make_hole_records, report_score, recommand_scores}

pub record MakeHoleRecords : Type 0 where
  pub scores : List BehaviorScore
  pub last_update_time : ℕ

pub record Analyzer : Type 0 where
  pub records : Dict String MakeHoleRecords
  pub data_reserve_duration : ℕ

abbrev pub new_analyzer : ℕ → Analyzer
new_analyzer duration = record { records = []; data_reserve_duration = duration }

-- the records of a key, made where they are missing
unfoldable pub records_of : String → NatFeature → NatFeature → ℕ → Analyzer → MakeHoleRecords
records_of key c v now a = elim (get key a.records) [
  | none ↦ record { scores = new_make_hole_records c v; last_update_time = now }
  | some records ↦ records
]

-- the answer for what was found, with the time of the call; with no scores it is (0, 0), and no
-- time is set
unfoldable pub choose :
    ℕ → MakeHoleRecords → Option (BehaviorScore × List BehaviorScore) → (ℕ × ℕ) × MakeHoleRecords
choose now r none = ((0, 0), r)
choose now r (some (best, scores)) =
    ((best.mode, best.index), record { scores = scores; last_update_time = now })

unfoldable pub recommand : ℕ → MakeHoleRecords → (ℕ × ℕ) × MakeHoleRecords
unfolding choose
recommand now r = choose now r (recommand_scores r.scores)

abbrev pub swap_pair : RecommandBehavior × RecommandBehavior → RecommandBehavior × RecommandBehavior
swap_pair p = (p.1, p.0)

abbrev pub easy_type : NatType → Bool
easy_type easy_nat = true
easy_type hard_nat = false

abbrev pub is_easy : NatFeature → Bool
is_easy f = easy_type f.nat_type

-- which of the two is the client's behaviour
unfoldable pub assign_behaviors :
    ℕ → NatFeature → RecommandBehavior × RecommandBehavior → RecommandBehavior × RecommandBehavior
assign_behaviors mode c p =
    if mode == 1
    then if is_easy c then swap_pair p else p
    else if mode == 2
    then if is_easy c then p else swap_pair p
    else if mode == 4
    then if c.regular_ports_change then p else swap_pair p
    else p

pub record Recommendation : Type 0 where
  pub mode : ℕ
  pub index : ℕ
  pub behaviors : RecommandBehavior × RecommandBehavior

unfoldable pub get_recommand_behaviors :
    String → NatFeature → NatFeature → ℕ → Analyzer → Recommendation × Analyzer
get_recommand_behaviors key c v now a =
    let (choice, records) = recommand now (records_of key c v now a) in
    (
      record {
        mode = choice.0;
        index = choice.1;
        behaviors = assign_behaviors choice.0 c (get_behavior_by_mode_and_index choice.0 choice.1);
      },
      record a { records = put key records a.records },
    )

unfoldable pub report_success : String → ℕ → ℕ → ℕ → Analyzer → Analyzer
report_success key mode index now a = elim (get key a.records) [
  | none ↦ a
  | some r ↦ record a {
    records =
        put key (record { scores = report_score mode index r.scores; last_update_time = now })
          a.records;
  }
]

abbrev pub is_old : ℕ → ℕ → MakeHoleRecords → Bool
is_old now duration r = ltb duration (now - r.last_update_time)

-- the records that stay, and how many go
unfoldable pub clean_records : ℕ → ℕ → Dict String MakeHoleRecords → Dict String MakeHoleRecords × ℕ
clean_records now duration [] = ([], 0)
clean_records now duration ((key, r) ∷ rest) =
    let (kept, count) = clean_records now duration rest in
    if is_old now duration r then (kept, count + 1) else ((key, r) ∷ kept, count)

-- the count of what was removed and of what there was
unfoldable pub clean : ℕ → Analyzer → (ℕ × ℕ) × Analyzer
clean now a =
    let (kept, count) = clean_records now a.data_reserve_duration a.records in
    ((count, length a.records), record a { records = kept })

pub data Call : Type 0 where
  recommends : String → NatFeature → NatFeature → Call
  reports : String → ℕ → ℕ → Call
  cleans : Call

unfoldable pub step : Analyzer → ℕ × Call → Analyzer
step a (now, recommends key c v) = (get_recommand_behaviors key c v now a).1
step a (now, reports key mode index) = report_success key mode index now a
step a (now, cleans) = (clean now a).1

unfoldable pub run : Analyzer → List (ℕ × Call) → Analyzer
run a [] = a
run a (c ∷ cs) = run (step a c) cs
