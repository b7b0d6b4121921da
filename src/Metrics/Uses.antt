-- ===== src/Metrics/Uses.antt =====
-- pkg/util/metric/date_counter.go: a counter keeps the sums of what was counted on each of the last
-- days.
use cnfrp.Common.{
  ℕ, ◌+◌, ◌-◌, ◌%◌, ◌≤◌, ◌<◌, ◌≡◌, refl, sym, ap, subst, ◌∙◌, some, List, [], ◌∷◌, if◌then◌else◌,
  leb, get_elem?, arith,
}
use cnfrp.Common.Integer.{ℤ, pos}
use cnfrp.Metrics.{
  DateCounter, word64, new_date_counter, rotate, shifted, add_first, get_last_days_count, inc, dec,
  clear, reserve,
}
use cnfrp.Metrics.Days.{
  History, total, Past, Sums, shifted-Sums, add_first-Sums, replicate_at, take_at,
}

-- What is used of a counter, at a time.
pub data Use : Type 0 where
  incs : ℕ → Use
  decs : ℕ → Use
  clears : Use

-- `day` numbers the days of the times.
module _ {T : Type 0} (midnight : T → T) (span : T → T → ℤ) (day : T → ℕ) where
  abbrev pub use_at : T → Use → DateCounter T → DateCounter T
  use_at now (incs n) c = inc midnight span now n c
  use_at now (decs n) c = dec midnight span now n c
  use_at now clears c = clear midnight span c

  unfoldable pub use_all : List (T × Use) → DateCounter T → DateCounter T
  use_all [] c = c
  use_all ((now, u) ∷ us) c = use_all us (use_at now u c)

  abbrev pub noted : T → Use → History → History
  noted now (incs n) h = (day now, n) ∷ h
  noted now (decs n) h = (day now, word64 - n % word64) ∷ h
  noted now clears h = []

  unfoldable pub history : List (T × Use) → History → History
  history [] h = h
  history ((now, u) ∷ us) h = history us (noted now u h)

  -- the days do not go back
  abbrev pub Ascending : ℕ → List (T × Use) → ℕ → Type 0
  Ascending today [] last = today ≤ last
  Ascending today ((now, u) ∷ us) last = (today ≤ day now) × Ascending (day now) us last

  -- A counter that holds the sums of a history, last used not after a day.
  pub record Agrees (c : DateCounter T) (h : History) (today : ℕ) : Type 0 where
    pub at : T
    pub date : c.last_update_date ≡ midnight at
    pub recent : day at ≤ today
    pub past : Past (day at) h
    pub sums : Sums c.reserve_days c.counts h (day at)

  module _
      (span_days : (now at : T)
        → day at ≤ day now
        → span (midnight now) (midnight at) ≡ pos (day now - day at)) where
    Past-later : (h : History) (today later : ℕ) → today ≤ later → Past today h → Past later h
    Past-later [] today later low past = tt
    Past-later (p ∷ h) today later low past =
        (let old = past.0 in omega arith, Past-later h today later low past.1)

    rotate-Sums :
        (now : T) (c : DateCounter T) (h : History) (today : ℕ)
        → Agrees c h today
        → today ≤ day now
        → Sums c.reserve_days (rotate midnight span now c).counts h (day now)
    unfolding rotate
    rotate-Sums now c h today a low =
        let order : day a.at ≤ day now = let old = a.recent in omega arith in
        let days : span (midnight now) c.last_update_date ≡ pos (day now - day a.at) =
          ap (span (midnight now)) a.date ∙ span_days now a.at order in
        let last : day a.at + (day now - day a.at) ≡ day now = omega arith in
        subst (λ d. Sums c.reserve_days (shifted c.reserve_days d c.counts) h (day now)) (sym days)
          (subst
            (λ d.
              Sums c.reserve_days (shifted c.reserve_days (pos (day now - day a.at)) c.counts) h d)
            last
            (shifted-Sums c.reserve_days (day now - day a.at) c.counts h (day a.at) a.past a.sums))

    rotate-Past :
        (now : T) (c : DateCounter T) (h : History) (today : ℕ)
        → Agrees c h today
        → today ≤ day now
        → Past (day now) h
    rotate-Past now c h today a low =
        Past-later h (day a.at) (day now) (let old = a.recent in omega arith) a.past

    adding-Agrees :
        (now : T) (n : ℕ) (c : DateCounter T) (h : History) (today : ℕ)
        → Agrees c h today
        → today ≤ day now
        → Agrees
            (record (rotate midnight span now c) {
              counts = add_first n (rotate midnight span now c).counts;
            })
            ((day now, n) ∷ h)
            (day now)
    unfolding rotate
    adding-Agrees now n c h today a low = record {
      at = now;
      date = refl;
      recent = omega arith;
      past = (omega arith, rotate-Past now c h today a low);
      sums =
          add_first-Sums c.reserve_days n (rotate midnight span now c).counts h (day now)
            (rotate-Past now c h today a low) (rotate-Sums now c h today a low);
    }

    use_at-Agrees :
        (now : T) (u : Use) (c : DateCounter T) (h : History) (today : ℕ)
        → Agrees c h today
        → today ≤ day now
        → Agrees (use_at now u c) (noted now u h) (day now)
    unfolding inc dec clear total
    use_at-Agrees now (incs n) c h today a low = adding-Agrees now n c h today a low
    use_at-Agrees now (decs n) c h today a low =
        adding-Agrees now (word64 - n % word64) c h today a low
    use_at-Agrees now clears c h today a low = record {
      at = a.at;
      date = a.date;
      recent = let old = a.recent in omega arith;
      past = tt;
      sums = λ k below. replicate_at c.reserve_days k below;
    }

    use_all-Agrees :
        (us : List (T × Use)) (c : DateCounter T) (h : History) (today last : ℕ)
        → Agrees c h today
        → Ascending today us last
        → Agrees (use_all us c) (history us h) last
    unfolding use_all history
    use_all-Agrees [] c h today last a up = record {
      at = a.at;
      date = a.date;
      recent = let old = a.recent in omega arith;
      past = a.past;
      sums = a.sums;
    }
    use_all-Agrees ((now, u) ∷ us) c h today last a up =
        use_all-Agrees us (use_at now u c) (noted now u h) (day now) last
          (use_at-Agrees now u c h today a up.0) up.1

    use_all-reserve_days :
        (us : List (T × Use)) (c : DateCounter T) → (use_all us c).reserve_days ≡ c.reserve_days
    unfolding use_all inc dec clear rotate
    use_all-reserve_days [] c = refl
    use_all-reserve_days ((now, incs n) ∷ us) c = use_all-reserve_days us _
    use_all-reserve_days ((now, decs n) ∷ us) c = use_all-reserve_days us _
    use_all-reserve_days ((now, clears) ∷ us) c = use_all-reserve_days us _

    new_date_counter-Agrees :
        (start : T) (reserve_days : ℤ)
        → Agrees (new_date_counter midnight span start reserve_days) [] (day start)
    unfolding new_date_counter total
    new_date_counter-Agrees start reserve_days = record {
      at = start;
      date = refl;
      recent = omega arith;
      past = tt;
      sums = λ k below. replicate_at (reserve reserve_days) k below;
    }

    counts_of_last :
        (now : T) (c : DateCounter T) (h : History) (last_days k : ℕ)
        → Agrees c h (day now)
        → k < last_days
        → k < c.reserve_days
        → get_elem? (get_last_days_count midnight span now last_days c).0 k
          ≡ some (total h (day now) k)
    unfolding get_last_days_count
    counts_of_last now c h last_days k a wanted low =
        take_at (if leb last_days c.reserve_days then last_days else c.reserve_days) k
          (rotate midnight span now c).counts (ground arith)
        ∙ rotate-Sums now c h (day now) a (omega arith) k low

    -- For times whose days are numbered such that the hours between two midnights, divided by 24,
    -- are the days between them, and uses of a new counter in the order of the days: for each of
    -- the last days that are asked for and kept, the counter answers the sum, modulo 2^64, of what
    -- was added and taken away on that day since the last clearing.
    pub get_last_days_count-total :
        (start now : T) (reserve_days : ℤ) (us : List (T × Use)) (last k : ℕ)
        → Ascending (day start) us (day now)
        → k < last
        → k < reserve reserve_days
        → get_elem?
            (get_last_days_count midnight span now last
              (use_all us (new_date_counter midnight span start reserve_days))).0
            k
          ≡ some (total (history us []) (day now) k)
    unfolding new_date_counter
    get_last_days_count-total start now reserve_days us last k up wanted low =
        let c = new_date_counter midnight span start reserve_days in
        let kept : (use_all us c).reserve_days ≡ reserve reserve_days = use_all-reserve_days us c in
        counts_of_last now (use_all us c) (history us []) last k
          (use_all-Agrees us c [] (day start) (day now) (new_date_counter-Agrees start reserve_days)
            up)
          wanted (subst (λ r. k < r) (sym kept) low)
