-- ===== src/Metrics/Days.antt =====
-- pkg/util/metric/date_counter.go: the sums of what was counted on each of the last days, and how they
-- move as days go by.
use cnfrp.Common.{
  ℕ, zero, suc, ◌+◌, ◌-◌, ◌%◌, ◌≤◌, ◌<◌, ◌≡◌, refl, sym, ap, ◌∙◌, true, false, some, List, [], ◌∷◌,
  ◌++◌, if◌then◌else◌, leb, ltb, eqb, get_elem?, take, replicate, All, arith, Bool-cases, if_cases,
  inl, inr, leb→le,
}
use cnfrp.Common.Integer.{pos}
use cnfrp.Metrics.{word64, shifted, add_first}

-- what is counted on a day: the day and the amount, the latest first
abbrev pub History : Type 0
History = List (ℕ × ℕ)

-- The sum of what was counted some days before a day.
unfoldable pub total : History → ℕ → ℕ → ℕ
total [] today ago = 0
total ((day, n) ∷ h) today ago =
    let rest = total h today ago in if eqb (day + ago) today then (rest + n) % word64 else rest

abbrev pub Past : ℕ → History → Type 0
Past today h = All (λ (p : ℕ × ℕ). p.0 ≤ today) h

total-shift : (h : History) (today m ago : ℕ) → total h (today + m) (m + ago) ≡ total h today ago
unfolding total
total-shift [] today m ago = refl
total-shift ((day, n) ∷ h) today m ago =
    let same : eqb (day + (m + ago)) (today + m) ≡ eqb (day + ago) today = ground arith in
    rw (same, total-shift h today m ago) refl

total-future :
    (h : History) (today m ago : ℕ) → Past today h → ago < m → total h (today + m) ago ≡ 0
unfolding total
total-future [] today m ago past later = refl
total-future ((day, n) ∷ h) today m ago past later =
    let other : eqb (day + ago) (today + m) ≡ false = let old = past.0 in ground arith in
    rw other (total-future h today m ago past.1 later)

pub replicate_at : (r k : ℕ) → k < r → get_elem? {A = ℕ} (replicate r 0) k ≡ some 0
replicate_at zero k h = absurd (omega arith)
replicate_at (suc r) zero h = refl
replicate_at (suc r) (suc k) h = replicate_at r k (omega arith)

front_at : (m k : ℕ) (ys : List ℕ) → k < m → get_elem? (replicate m 0 ++ ys) k ≡ some 0
front_at zero k ys h = absurd (omega arith)
front_at (suc m) zero ys h = refl
front_at (suc m) (suc k) ys h = front_at m k ys (omega arith)

back_at : (m j : ℕ) (ys : List ℕ) → get_elem? (replicate m 0 ++ ys) (m + j) ≡ get_elem? ys j
back_at zero j ys = let same : 0 + j ≡ j = omega arith in ap (get_elem? ys) same
back_at (suc m) j ys =
    let up : suc m + j ≡ suc (m + j) = omega arith in
    ap (get_elem? (replicate (suc m) 0 ++ ys)) up ∙ back_at m j ys

pub take_at : (n j : ℕ) (xs : List ℕ) → j < n → get_elem? (take n xs) j ≡ get_elem? xs j
take_at zero j xs h = absurd (omega arith)
take_at (suc n) j [] h = refl
take_at (suc n) zero (x ∷ xs) h = refl
take_at (suc n) (suc j) (x ∷ xs) h = take_at n j xs (omega arith)

-- The counts of the last days are the sums of a history.
abbrev pub Sums : ℕ → List ℕ → History → ℕ → Type 0
Sums r counts h today = (k : ℕ) → k < r → get_elem? counts k ≡ some (total h today k)

pub shifted-Sums :
    (r m : ℕ) (counts : List ℕ) (h : History) (today : ℕ)
    → Past today h
    → Sums r counts h today
    → Sums r (shifted r (pos m) counts) h (today + m)
unfolding shifted
shifted-Sums r zero counts h today past sums = λ k low.
    let same : today ≡ today + 0 = omega arith in sums k low ∙ ap (λ t. some (total h t k)) same
shifted-Sums r (suc n) counts h today past sums = λ k low.
    if_cases (λ (cs : List ℕ). get_elem? cs k ≡ some (total h (today + suc n) k)) (leb r (suc n)) _
      _
      (λ e.
        let within : k < suc n = let wide = leb→le r (suc n) e in omega arith in
        replicate_at r k low ∙ ap some (sym (total-future h today (suc n) k past within)))
      (λ e. elim (Bool-cases (ltb k (suc n))) [
        | inl new ↦
            let within : k < suc n = ground arith in
            front_at (suc n) k _ within ∙ ap some (sym (total-future h today (suc n) k past within))
        | inr old ↦
            let there : k ≡ suc n + (k - suc n) = ground arith in
            let inside : k - suc n < r - suc n = ground arith in
            ap (get_elem? (replicate (suc n) 0 ++ take (r - suc n) counts)) there
            ∙ back_at (suc n) (k - suc n) _
            ∙ take_at (r - suc n) (k - suc n) counts inside
            ∙ sums (k - suc n) (omega arith)
            ∙ ap some (sym (total-shift h today (suc n) (k - suc n)))
            ∙ ap (λ j. some (total h (today + suc n) j)) (sym there)
      ])

-- adding to today's count
pub add_first-Sums :
    (r n : ℕ) (counts : List ℕ) (h : History) (today : ℕ)
    → Past today h
    → Sums r counts h today
    → Sums r (add_first n counts) ((today, n) ∷ h) today
unfolding add_first total
add_first-Sums r n [] h today past sums k low = let no = sums k low in cc
add_first-Sums r n (c ∷ cs) h today past sums zero low =
    let was : c ≡ total h today 0 = let found = sums 0 low in cc in
    let same : eqb (today + 0) today ≡ true = ground arith in rw (same, was) refl
add_first-Sums r n (c ∷ cs) h today past sums (suc j) low =
    let other : eqb (today + suc j) today ≡ false = ground arith in rw other (sums (suc j) low)
