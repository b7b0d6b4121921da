-- ===== src/NatHole/Analysis/Answers.antt =====
-- What the analyzer answers after any calls.
use cnfrp.Common.{
  ℕ, ◌≤◌, ◌<◌, ◌≡◌, false, Option, none, some, List, [], ◌∷◌, ◌==◌, nat_eq, arith, All, length,
  Bool-cases, inl, inr, String, string_eq, subst, Option-cases,
}
use cnfrp.Common.Dict.{Dict, get, put}
use cnfrp.NatHole.Classify.{NatFeature}
use cnfrp.NatHole.Analysis.Behaviors.{get_behavior_by_mode}
use cnfrp.NatHole.Analysis.Records.{BehaviorScore, new_make_hole_records, recommand_scores}
use cnfrp.NatHole.Analysis.Bounds.{
  IsKnown, scores_for-IsKnown, report_score-IsKnown, pick_max-IsKnown,
}
use cnfrp.NatHole.Analysis.{
  MakeHoleRecords, Analyzer, Recommendation, new_analyzer, records_of, choose, recommand,
  get_recommand_behaviors, report_success, clean_records, clean, is_old, Call, recommends, reports,
  cleans, step, run,
}
use cnfrp.NatHole.Analysis.Roles.{Told, assign-Told, behavior-Ordered}
use cnfrp.Common.Integer.{pos, lt_int}

-- Every score that an analyzer keeps is known.
abbrev AllKnown : Dict String MakeHoleRecords → Type 0
AllKnown records = All (λ e. All IsKnown e.1.scores) records

get-AllKnown :
    (key : String) (records : Dict String MakeHoleRecords) (r : MakeHoleRecords)
    → AllKnown records
    → get key records ≡ some r
    → All IsKnown r.scores
unfolding get
get-AllKnown key [] r h e = cc
get-AllKnown key ((k, x) ∷ rest) r h e = elim (Bool-cases (k == key)) [
  | inl hit ↦ let same : x ≡ r = ground arith in subst (λ y. All IsKnown y.scores) same h.0
  | inr miss ↦ get-AllKnown key rest r h.1 (ground arith)
]

put-AllKnown :
    (key : String) (r : MakeHoleRecords) (records : Dict String MakeHoleRecords)
    → All IsKnown r.scores
    → AllKnown records
    → AllKnown (put key r records)
unfolding put
put-AllKnown key r [] h hs = (h, tt)
put-AllKnown key r ((k, x) ∷ rest) h hs = elim (Bool-cases (k == key)) [
  | inl hit ↦ rw hit (h, hs.1)
  | inr miss ↦ rw miss (hs.0, put-AllKnown key r rest h hs.1)
]

clean-AllKnown :
    (now duration : ℕ) (records : Dict String MakeHoleRecords)
    → AllKnown records
    → AllKnown (clean_records now duration records).0
unfolding clean_records
clean-AllKnown now duration [] h = tt
clean-AllKnown now duration ((k, r) ∷ rest) h = elim (Bool-cases (is_old now duration r)) [
  | inl e ↦ rw e (clean-AllKnown now duration rest h.1)
  | inr e ↦ rw e (h.0, clean-AllKnown now duration rest h.1)
]

records_of-IsKnown :
    (key : String) (c v : NatFeature) (now : ℕ) (a : Analyzer)
    → AllKnown a.records
    → All IsKnown (records_of key c v now a).scores
unfolding records_of new_make_hole_records
records_of-IsKnown key c v now a h = elim (Option-cases (get key a.records)) [
  | inl e ↦ rw (e, records_of) (scores_for-IsKnown _ c v)
  | inr (r, e) ↦ rw (e, records_of) (get-AllKnown key a.records r h e)
]

-- A choice in the tables.
abbrev pub InTables : ℕ × ℕ → Type 0
InTables m = (m.0 ≤ 4) × (m.1 < length (get_behavior_by_mode m.0))

abbrev ChoiceKnown : Option (BehaviorScore × List BehaviorScore) → Type 0
ChoiceKnown none = Unit
ChoiceKnown (some (best, ys)) = IsKnown best × All IsKnown ys

scores-ChoiceKnown : (xs : List BehaviorScore) → All IsKnown xs → ChoiceKnown (recommand_scores xs)
unfolding recommand_scores
scores-ChoiceKnown [] h = tt
scores-ChoiceKnown (s ∷ rest) h = pick_max-IsKnown s rest h.0 h.1

mode0_nonempty : 0 < length (get_behavior_by_mode 0)
unfolding get_behavior_by_mode
mode0_nonempty = omega arith

choose-Known :
    (now : ℕ) (r : MakeHoleRecords) (o : Option (BehaviorScore × List BehaviorScore))
    → All IsKnown r.scores
    → ChoiceKnown o
    → InTables (choose now r o).0 × All IsKnown (choose now r o).1.scores
unfolding choose
choose-Known now r none h k = ((omega arith, mode0_nonempty), h)
choose-Known now r (some (best, ys)) h k = ((k.0.mode, k.0.index), k.1)

recommand-Known :
    (now : ℕ) (r : MakeHoleRecords)
    → All IsKnown r.scores
    → InTables (recommand now r).0 × All IsKnown (recommand now r).1.scores
unfolding recommand
recommand-Known now r h =
    choose-Known now r (recommand_scores r.scores) h (scores-ChoiceKnown r.scores h)

step-AllKnown :
    (a : Analyzer) (call : ℕ × Call) → AllKnown a.records → AllKnown (step a call).records
unfolding step get_recommand_behaviors report_success clean
step-AllKnown a (now, recommends key c v) h =
    put-AllKnown key _ a.records
      (recommand-Known now (records_of key c v now a) (records_of-IsKnown key c v now a h)).1 h
step-AllKnown a (now, reports key mode index) h = elim (Option-cases (get key a.records)) [
  | inl e ↦ rw (e, report_success) h
  | inr (r, e) ↦
      rw (e, report_success)
        (put-AllKnown key _ a.records
          (report_score-IsKnown mode index r.scores (get-AllKnown key a.records r h e)) h)
]
step-AllKnown a (now, cleans) h = clean-AllKnown now a.data_reserve_duration a.records h

run-AllKnown :
    (a : Analyzer) (cs : List (ℕ × Call)) → AllKnown a.records → AllKnown (run a cs).records
unfolding run
run-AllKnown a [] h = h
run-AllKnown a (c ∷ cs) h = run-AllKnown (step a c) cs (step-AllKnown a c h)

-- An answer names a behaviour of the tables, and tells the two peers what fits their NAT.
pub record IsSound (c : NatFeature) (r : Recommendation) : Type 0 where
  pub in_tables : InTables (r.mode, r.index)
  pub told : Told r.mode c r.behaviors

get_recommand_behaviors-IsSound :
    (key : String) (c v : NatFeature) (now : ℕ) (a : Analyzer)
    → AllKnown a.records
    → IsSound c (get_recommand_behaviors key c v now a).0
unfolding get_recommand_behaviors
get_recommand_behaviors-IsSound key c v now a h =
    let r : MakeHoleRecords = records_of key c v now a in
    let known : InTables (recommand now r).0 =
      (recommand-Known now r (records_of-IsKnown key c v now a h)).0 in
    record {
      in_tables = known;
      told =
          assign-Told (recommand now r).0.0 c _ known.0
            (behavior-Ordered (recommand now r).0.0 (recommand now r).0.1 known.0 known.1);
    }

-- After any calls on a new analyzer, a recommendation names a mode and an index of the tables, and
-- tells one peer to send and the other to receive: in mode 1 the client sends exactly if its NAT is
-- not easy, in mode 2 exactly if it is easy, in mode 4 exactly if its ports change regularly.
pub recommendation_after_run :
    (duration : ℕ) (cs : List (ℕ × Call)) (key : String) (c v : NatFeature) (now : ℕ)
    → IsSound c (get_recommand_behaviors key c v now (run (new_analyzer duration) cs)).0
recommendation_after_run duration cs key c v now =
    get_recommand_behaviors-IsSound key c v now (run (new_analyzer duration) cs)
      (run-AllKnown (new_analyzer duration) cs tt)

abbrev pub Capped : Dict String MakeHoleRecords → Type 0
Capped records = All (λ e. All (λ s. lt_int (pos 10) s.score ≡ false) e.1.scores) records

capped_of_known :
    (xs : List BehaviorScore) → All IsKnown xs → All (λ s. lt_int (pos 10) s.score ≡ false) xs
capped_of_known [] h = tt
capped_of_known (s ∷ xs) h = (h.0.score, capped_of_known xs h.1)

Capped-AllKnown : (records : Dict String MakeHoleRecords) → AllKnown records → Capped records
Capped-AllKnown [] h = tt
Capped-AllKnown (e ∷ rest) h = (capped_of_known e.1.scores h.0, Capped-AllKnown rest h.1)

-- After any calls on a new analyzer no score is above 10.
pub run-Capped :
    (duration : ℕ) (cs : List (ℕ × Call)) → Capped (run (new_analyzer duration) cs).records
run-Capped duration cs = Capped-AllKnown _ (run-AllKnown (new_analyzer duration) cs tt)
