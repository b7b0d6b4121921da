-- ===== src/Group/Names.antt =====
-- server/group/registry.go: what the names of the groups stand for, after one is written or removed.
use cnfrp.Common.{
  ℕ, ◌≡◌, ◌≢◌, refl, sym, ap, subst, ◌∙◌, Bool, true, Option, none, some, String, ◌==◌, string_eq,
  nat_eq, if◌then◌else◌, Bool-cases, inl, inr, ◌⊎◌, str_eq_iff, eqb_iff,
}
use cnfrp.Common.Bytes.{text_eq}
use cnfrp.Common.Dict.{Dict, get, put, del, get-put, get-del}
use cnfrp.Group.{remove_current, same_address}

-- a name that is there stays so where a new one is written
pub put-new :
    (groups : Dict String ℕ) (key : String) (a : ℕ) (other : String) (b : ℕ)
    → get key groups ≡ none
    → get other groups ≡ some b
    → get other (put key a groups) ≡ some b
put-new groups key a other b free there = elim (Bool-cases (key == other)) [
  | inl same ↦
      let it : key ≡ other = (str_eq_iff key other).0 same in
      let gone : get other groups ≡ none = subst (λ k. get k groups ≡ none) it free in
      let no : none ≡ some b = sym gone ∙ there in cc
  | inr apart ↦
      get-put key other a groups ∙ ap (λ t. if t then some a else get other groups) apart ∙ there
]

-- what a name stands for where one is written
pub name_cases :
    (groups : Dict String ℕ) (key : String) (a : ℕ) (other : String) (b : ℕ)
    → get other (put key a groups) ≡ some b
    → (a ≡ b) ⊎ (get other groups ≡ some b)
name_cases groups key a other b e = elim (Bool-cases (key == other)) [
  | inl same ↦
      let found : some a ≡ some b =
        sym (get-put key other a groups ∙ ap (λ t. if t then some a else get other groups) same)
        ∙ e in
      inl cc
  | inr apart ↦ inr (
      sym (get-put key other a groups ∙ ap (λ t. if t then some a else get other groups) apart) ∙ e)
]

pub same_address-some : (o : Option ℕ) (a : ℕ) → same_address o a ≡ true → o ≡ some a
same_address-some none a h = cc
same_address-some (some b) a h = ap some ((eqb_iff b a).0 h)

remove_current_lem :
    (groups : Dict String ℕ) (key : String) (a : ℕ)
    → get key groups ≡ some a
    → remove_current key a groups ≡ del key groups
unfolding remove_current
remove_current_lem groups key a e = rw (remove_current, e, (eqb_iff a a).1 refl) refl

-- another group keeps its name
pub kept-name :
    (groups : Dict String ℕ) (key : String) (a : ℕ) (other : String) (b : ℕ)
    → get key groups ≡ some a
    → get other groups ≡ some b
    → a ≢ b
    → get other (remove_current key a groups) ≡ some b
kept-name groups key a other b mine current apart = elim (Bool-cases (key == other)) [
  | inl same ↦
      let it : key ≡ other = (str_eq_iff key other).0 same in
      let both : some a ≡ some b =
        sym mine ∙ (subst (λ k. get k groups ≡ some b) (sym it) current) in
      let equal : a ≡ b = cc in absurd (apart equal)
  | inr differ ↦
      ap (get other) (remove_current_lem groups key a mine)
      ∙ (get-del key other groups ∙ ap (λ t. if t then none else get other groups) differ ∙ current)
]

-- what stands after a removal stood before
pub removed-name :
    (groups : Dict String ℕ) (key : String) (a : ℕ) (other : String) (b : ℕ)
    → get key groups ≡ some a
    → get other (remove_current key a groups) ≡ some b
    → get other groups ≡ some b
removed-name groups key a other b mine e = elim (Bool-cases (key == other)) [
  | inl same ↦ let no : none ≡ some b = sym (back same) ∙ e in cc
  | inr differ ↦ sym (back differ) ∙ e
]
  where
    back :
        {t : Bool}
        → (key == other) ≡ t
        → get other (remove_current key a groups) ≡ (if t then none else get other groups)
    back h =
        ap (get other) (remove_current_lem groups key a mine)
        ∙ (get-del key other groups ∙ ap (λ t. if t then none else get other groups) h)
