-- ===== src/FeatureGate/Laws.antt =====
-- A locked feature keeps its default, and a refused call changes nothing.
use cnfrp.Common.{
  ◌≡◌, refl, sym, subst, ◌∙◌, Bool, true, false, Option, none, some, List, [], ◌∷◌, String,
  if◌then◌else◌, ◌==◌, string_eq, str_eq_iff, arith, Bool-cases, Option-cases, inl, inr,
}
use cnfrp.Common.Dict.{Dict, get, put, get-put}
use cnfrp.FeatureGate.{
  FeatureSpec, FeatureGate, may_set, apply_settings, set_from_map, same_spec, add_one, add_all,
  add_features, is_enabled, Call, sets, adds, step, run, new_feature_gate,
}

-- Every setting is one that the spec of its feature allows.
abbrev pub Allowed : Dict String FeatureSpec → Dict String Bool → Type 0
Allowed known enabled =
    (key : String) (v : Bool) → get key enabled ≡ some v → may_set (get key known) v ≡ true

put-Allowed :
    (known : Dict String FeatureSpec) (enabled : Dict String Bool) (k : String) (v : Bool)
    → may_set (get k known) v ≡ true
    → Allowed known enabled
    → Allowed known (put k v enabled)
put-Allowed known enabled k v ok h key w e = elim (Bool-cases (k == key)) [
  | inl same ↦
      let k_is : k ≡ key = (str_eq_iff k key).0 same in
      let w_is : ◌≡◌ {A = Option Bool} (some v) (some w) =
        subst (λ (b : Bool). (if b then some v else get key enabled) ≡ some w) same
          (sym (get-put k key v enabled) ∙ e) in
      let vw : v ≡ w = cc in
      subst (λ (i : String). may_set (get i known) w ≡ true) k_is
        (subst (λ (b : Bool). may_set (get k known) b ≡ true) vw ok)
  | inr other ↦ h key w (
      subst (λ (b : Bool). (if b then some v else get key enabled) ≡ some w) other
        (sym (get-put k key v enabled) ∙ e))
]

apply_settings-Allowed :
    (known : Dict String FeatureSpec) (m enabled last : Dict String Bool)
    → Allowed known enabled
    → apply_settings known m enabled ≡ some last
    → Allowed known last
unfolding apply_settings
apply_settings-Allowed known [] enabled last h e =
    let same : enabled ≡ last = cc in subst (Allowed known) same h
apply_settings-Allowed known ((k, v) ∷ m) enabled last h e =
    elim (Bool-cases (may_set (get k known) v)) [
      | inl ok ↦
          apply_settings-Allowed known m (put k v enabled) last (put-Allowed known enabled k v ok h)
            (subst
              (λ (b : Bool).
                (if b then apply_settings known m (put k v enabled) else none) ≡ some last)
              ok e)
      | inr bad ↦
          let none_is : ◌≡◌ {A = Option (Dict String Bool)} none (some last) =
            subst
              (λ (b : Bool).
                (if b then apply_settings known m (put k v enabled) else none) ≡ some last)
              bad e in
          cc
    ]

-- Adding keeps the specs that are known.
abbrev Extends : Dict String FeatureSpec → Dict String FeatureSpec → Type 0
Extends known more =
    (key : String) (s : FeatureSpec) → get key known ≡ some s → get key more ≡ some s

add_one-free :
    (name : String) (spec : FeatureSpec) (known : Dict String FeatureSpec)
    → get name known ≡ none
    → add_one name spec known ≡ some (put name spec known)
unfolding add_one
add_one-free name spec known free = rw (add_one, free) refl

add_one-there :
    (name : String) (spec old : FeatureSpec) (known : Dict String FeatureSpec)
    → get name known ≡ some old
    → add_one name spec known ≡ (if same_spec old spec then some known else none)
unfolding add_one
add_one-there name spec old known there = rw (add_one, there) refl

same_of_kept :
    (b : Bool) (known more : Dict String FeatureSpec)
    → (if b then some known else none) ≡ some more
    → known ≡ more
same_of_kept true known more e = cc
same_of_kept false known more e = cc

add_one-Extends :
    (name : String) (spec : FeatureSpec) (known more : Dict String FeatureSpec)
    → add_one name spec known ≡ some more
    → Extends known more
add_one-Extends name spec known more e key s found = elim (Option-cases (get name known)) [
  | inl free ↦
      let put_is : ◌≡◌ {A = Option (Dict String FeatureSpec)} (some (put name spec known))
          (some more) =
        sym (add_one-free name spec known free) ∙ e in
      let is_put : put name spec known ≡ more = cc in
      subst (λ (m : Dict String FeatureSpec). get key m ≡ some s) is_put
        (ground (arith, get-put name key spec known, str_eq_iff name key, free, found))
  | inr (old, there) ↦
      subst (λ (m : Dict String FeatureSpec). get key m ≡ some s)
        (same_of_kept (same_spec old spec) known more
          (sym (add_one-there name spec old known there) ∙ e))
        found
]

add_all-none :
    (name : String) (spec : FeatureSpec) (features known : Dict String FeatureSpec)
    → add_one name spec known ≡ none
    → add_all ((name, spec) ∷ features) known ≡ none
unfolding add_all
add_all-none name spec features known e = rw (add_all, e) refl

add_all-some :
    (name : String) (spec : FeatureSpec) (features known next : Dict String FeatureSpec)
    → add_one name spec known ≡ some next
    → add_all ((name, spec) ∷ features) known ≡ add_all features next
unfolding add_all
add_all-some name spec features known next e = rw (add_all, e) refl

add_all-Extends :
    (features known more : Dict String FeatureSpec)
    → add_all features known ≡ some more
    → Extends known more
unfolding add_all
add_all-Extends [] known more e key s found =
    let same : known ≡ more = cc in
    subst (λ (m : Dict String FeatureSpec). get key m ≡ some s) same found
add_all-Extends ((name, spec) ∷ features) known more e key s found =
    elim (Option-cases (add_one name spec known)) [
      | inl bad ↦
          let none_is : ◌≡◌ {A = Option (Dict String FeatureSpec)} none (some more) =
            sym (add_all-none name spec features known bad) ∙ e in
          cc
      | inr (next, ok) ↦
          add_all-Extends features next more
            (sym (add_all-some name spec features known next ok) ∙ e) key s
            (add_one-Extends name spec known next ok key s found)
    ]

Extends-Allowed :
    (known more : Dict String FeatureSpec) (enabled : Dict String Bool)
    → Extends known more
    → Allowed known enabled
    → Allowed more enabled
unfolding may_set
Extends-Allowed known more enabled ext h key v e = elim (Option-cases (get key known)) [
  | inl missing ↦
      let f : false ≡ true =
        subst (λ (o : Option FeatureSpec). may_set o v ≡ true) missing (h key v e) in
      cc
  | inr (spec, there) ↦
      subst (λ (o : Option FeatureSpec). may_set o v ≡ true) (there ∙ sym (ext key spec there))
        (h key v e)
]

abbrev pub Ok : FeatureGate → Type 0
Ok f = Allowed f.known f.enabled

step-Ok : (f : FeatureGate) (c : Call) → Ok f → Ok (step f c)
unfolding step set_from_map add_features
step-Ok f (sets m) h = elim (Option-cases (apply_settings f.known m f.enabled)) [
  | inl bad ↦ rw (step, set_from_map, bad) h
  | inr (last, ok) ↦
      rw (step, set_from_map, ok) (apply_settings-Allowed f.known m f.enabled last h ok)
]
step-Ok f (adds features) h = elim (Bool-cases f.is_closed) [
  | inl shut ↦ rw (step, add_features, shut) h
  | inr still ↦ elim (Option-cases (add_all features f.known)) [
    | inl bad ↦ rw (step, add_features, still, bad) h
    | inr (more, ok) ↦
        rw (step, add_features, still, ok)
          (Extends-Allowed f.known more f.enabled (add_all-Extends features f.known more ok) h)
  ]
]

run-Ok : (cs : List Call) (f : FeatureGate) → Ok f → Ok (run f cs)
unfolding run
run-Ok [] f h = h
run-Ok (c ∷ cs) f h = run-Ok cs (step f c) (step-Ok f c h)

-- After any settings and additions on a new gate, accepted or not, a known feature that is locked
-- to its default is enabled exactly if its default says so.
pub run-locked :
    (cs : List Call) (key : String) (spec : FeatureSpec)
    → get key (run new_feature_gate cs).known ≡ some spec
    → spec.lock_to_default ≡ true
    → is_enabled key (run new_feature_gate cs) ≡ spec.default
unfolding is_enabled new_feature_gate get may_set
run-locked cs key spec known locked =
    let f : FeatureGate = run new_feature_gate cs in
    let ok : Ok f = run-Ok cs new_feature_gate (λ k v e. cc) in
    elim (Option-cases (get key f.enabled)) [
      | inl unset ↦ rw (is_enabled, unset, known) refl
      | inr (v, set) ↦
          let may : may_set (some spec) v ≡ true =
            subst (λ (o : Option FeatureSpec). may_set o v ≡ true) known (ok key v set) in
          rw (is_enabled, set) (ground arith)
    ]
