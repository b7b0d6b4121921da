-- ===== src/Metrics.antt =====
-- pkg/util/metric: the counters of the server's statistics. A signed number of 32 or 64 bits is kept
-- as its remainder by 2^32 or 2^64. `midnight` is time.Date at the start of the day of a time, and
-- `span now before` is int(now.Sub(before).Hours() / 24).
pub mod Days
pub mod Uses
pub mod Statistics
pub mod Tests
use cnfrp.Common.{
  ℕ, zero, suc, ◌+◌, ◌-◌, ◌%◌, ◌^◌, Bool, true, false, ◌||◌, Option, none, some, List, [], ◌∷◌,
  ◌++◌, if◌then◌else◌, leb, take, replicate,
}
use cnfrp.Common.Integer.{ℤ, pos, negsuc}

-- StandardCounter: int32
abbrev pub Counter : Type 0
Counter = ℕ

abbrev pub word32 : ℕ
word32 = 2 ^ 32

abbrev pub word64 : ℕ
word64 = 2 ^ 64

abbrev pub new_counter : Counter
new_counter = 0

unfoldable pub inc_counter : ℕ → Counter → Counter
inc_counter n c = (c + n) % word32

unfoldable pub dec_counter : ℕ → Counter → Counter
dec_counter n c = (c + (word32 - n % word32)) % word32

-- StandardDateCounter: the counts of the last days, today's first
pub record DateCounter (T : Type 0) : Type 0 where
  pub reserve_days : ℕ
  pub counts : List ℕ
  pub last_update_date : T

-- `NewDateCounter` takes at least one day
unfoldable pub reserve : ℤ → ℕ
reserve (pos zero) = 1
reserve (pos (suc n)) = suc n
reserve (negsuc n) = 1

-- `counts[0] += n`
unfoldable pub add_first : ℕ → List ℕ → List ℕ
add_first n [] = []
add_first n (c ∷ cs) = ((c + n) % word64) ∷ cs

-- the counts after some days
unfoldable pub shifted : ℕ → ℤ → List ℕ → List ℕ
shifted reserve_days (negsuc n) counts = counts
shifted reserve_days (pos zero) counts = counts
shifted reserve_days (pos (suc n)) counts =
    if leb reserve_days (suc n)
    then replicate reserve_days 0
    else replicate (suc n) 0 ++ take (reserve_days - suc n) counts

module _ {T : Type 0} (midnight : T → T) (span : T → T → ℤ) where
  -- `now` is the first argument after the functions of time
  unfoldable pub new_date_counter : T → ℤ → DateCounter T
  unfolding reserve
  new_date_counter now reserve_days = record {
    reserve_days = reserve reserve_days;
    counts = replicate (reserve reserve_days) 0;
    last_update_date = midnight now;
  }

  unfoldable pub rotate : T → DateCounter T → DateCounter T
  unfolding shifted
  rotate now c = record c {
    counts = shifted c.reserve_days (span (midnight now) c.last_update_date) c.counts;
    last_update_date = midnight now;
  }

  abbrev first_count : List ℕ → ℕ
  first_count [] = 0
  first_count (n ∷ ns) = n

  unfoldable pub today_count : T → DateCounter T → ℕ × DateCounter T
  unfolding rotate
  today_count now c = let turned = rotate now c in (first_count turned.counts, turned)

  unfoldable pub get_last_days_count : T → ℕ → DateCounter T → List ℕ × DateCounter T
  unfolding rotate
  get_last_days_count now last_days c =
      let turned = rotate now c in
      (
        take (if leb last_days c.reserve_days then last_days else c.reserve_days) turned.counts,
        turned,
      )

  unfoldable pub inc : T → ℕ → DateCounter T → DateCounter T
  unfolding rotate add_first
  inc now n c = let turned = rotate now c in record turned { counts = add_first n turned.counts }

  unfoldable pub dec : T → ℕ → DateCounter T → DateCounter T
  unfolding rotate add_first
  dec now n c =
      let turned = rotate now c in
      record turned { counts = add_first (word64 - n % word64) turned.counts }

  unfoldable pub snapshot : T → DateCounter T → DateCounter T
  unfolding new_date_counter
  snapshot now c = record {
    reserve_days = c.reserve_days;
    counts = c.counts;
    last_update_date = midnight now;
  }

  unfoldable pub clear : DateCounter T → DateCounter T
  clear c = record c { counts = replicate c.reserve_days 0 }
