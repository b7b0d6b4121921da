-- ===== src/FeatureGate/Tests.antt =====
-- Feature gates on concrete inputs.
use cnfrp.Common.{◌≡◌, refl, true, false, some, List, [], ◌∷◌, string_eq}
use cnfrp.Common.Dict.{get, put}
use cnfrp.FeatureGate.{
  FeatureSpec, new_feature_gate, is_enabled, may_set, apply_settings, set_from_map, add_one,
  add_all, add_features, Call, sets, adds, step, run,
}
use cnfrp.FeatureGate.Laws.{run-locked}

abbrev pinned : FeatureSpec
pinned = record { default = true; lock_to_default = true; stage = "BETA" }

-- The gate is asked to switch the locked feature off, and refuses all of that call.
abbrev calls : List Call
calls =
    adds (("Pinned", pinned) ∷ [])
    ∷ sets (("VirtualNet", true) ∷ ("Pinned", false) ∷ [])
    ∷ sets (("VirtualNet", true) ∷ [])
    ∷ []

there : get "Pinned" (run new_feature_gate calls).known ≡ some pinned
unfolding get put new_feature_gate may_set apply_settings set_from_map add_one add_all add_features
    step run
there = refl

on : is_enabled "VirtualNet" (run new_feature_gate calls) ≡ true
unfolding is_enabled get put new_feature_gate may_set apply_settings set_from_map add_one add_all
    add_features step run
on = refl

run-locked_example : is_enabled "Pinned" (run new_feature_gate calls) ≡ pinned.default
run-locked_example = run-locked calls "Pinned" pinned there refl
