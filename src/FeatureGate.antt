-- ===== src/FeatureGate.antt =====
-- pkg/policy/featuregate/feature_gate.go: which features are switched on. The texts that list
-- features are left out.
pub mod Laws
pub mod Tests
use cnfrp.Common.{
  Bool, true, false, ◌&&◌, ◌||◌, Option, none, some, List, [], ◌∷◌, String, if◌then◌else◌, not,
  ◌==◌, string_eq, map, keep,
}
use cnfrp.Common.Dict.{Dict, get, put}

pub record FeatureSpec : Type 0 where
  pub default : Bool
  pub lock_to_default : Bool
  pub stage : String

pub record FeatureGate : Type 0 where
  pub known : Dict String FeatureSpec
  pub enabled : Dict String Bool
  pub is_closed : Bool

-- `defaultFeatures`
abbrev pub default_features : Dict String FeatureSpec
default_features =
    ("VirtualNet", record { default = false; lock_to_default = false; stage = "ALPHA" }) ∷ []

unfoldable pub new_feature_gate : FeatureGate
new_feature_gate = record { known = default_features; enabled = []; is_closed = false }

abbrev pub same_bool : Bool → Bool → Bool
same_bool true b = b
same_bool false b = not b

-- whether a feature may be set to a value: it is known, and not locked to the other one
unfoldable pub may_set : Option FeatureSpec → Bool → Bool
may_set none v = false
may_set (some spec) v = not (spec.lock_to_default && not (same_bool spec.default v))

-- the loop over the settings; none: it meets one that it refuses
unfoldable pub apply_settings :
    Dict String FeatureSpec → Dict String Bool → Dict String Bool → Option (Dict String Bool)
apply_settings known [] enabled = some enabled
apply_settings known ((k, v) ∷ m) enabled =
    let rest = apply_settings known m (put k v enabled) in
    if may_set (get k known) v then rest else none

-- false: an error is reported
unfoldable pub set_from_map : Dict String Bool → FeatureGate → Bool × FeatureGate
set_from_map m f = elim (apply_settings f.known m f.enabled) [
  | none ↦ (false, f)
  | some enabled ↦ (true, record f { enabled = enabled })
]

abbrev pub same_spec : FeatureSpec → FeatureSpec → Bool
same_spec a b =
    same_bool a.default b.default
    && (same_bool a.lock_to_default b.lock_to_default && a.stage == b.stage)

-- the specs with a new one; none: there is another one of the name
unfoldable pub add_one :
    String → FeatureSpec → Dict String FeatureSpec → Option (Dict String FeatureSpec)
add_one name spec known = elim (get name known) [
  | none ↦ some (put name spec known)
  | some existing ↦ if same_spec existing spec then some known else none
]

unfoldable pub add_all :
    Dict String FeatureSpec → Dict String FeatureSpec → Option (Dict String FeatureSpec)
add_all [] known = some known
add_all ((name, spec) ∷ features) known = elim (add_one name spec known) [
  | none ↦ none
  | some more ↦ add_all features more
]

unfoldable pub add_features : Dict String FeatureSpec → FeatureGate → Bool × FeatureGate
add_features features f = if f.is_closed then (false, f) else elim (add_all features f.known) [
  | none ↦ (false, f)
  | some known ↦ (true, record f { known = known })
]

-- the setting, else the default of a known feature, else off
unfoldable pub is_enabled : String → FeatureGate → Bool
is_enabled key f = elim (get key f.enabled) [
  | none ↦ elim (get key f.known) [ none ↦ false | some spec ↦ spec.default ]
  | some v ↦ v
]

pub data Call : Type 0 where
  sets : Dict String Bool → Call
  adds : Dict String FeatureSpec → Call

unfoldable pub step : FeatureGate → Call → FeatureGate
step f (sets m) = (set_from_map m f).1
step f (adds features) = (add_features features f).1

unfoldable pub run : FeatureGate → List Call → FeatureGate
run f [] = f
run f (c ∷ cs) = run (step f c) cs
