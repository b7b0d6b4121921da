-- ===== src/Client/Health.antt =====
-- client/health/health.go: the monitor of a local service. The checks over the network are
-- arguments: each round is told whether its check succeeded. `failed_times` is a uint64, and is
-- read as an int.
pub mod Laws
use cnfrp.Common.{
  ℕ, ◌+◌, ◌%◌, ◌^◌, ◌/◌, Option, none, some, Bool, true, false, ◌&&◌, List, [], ◌∷◌, ◌++◌,
  if◌then◌else◌, leb, ltb, not, eqb, String, ◌==◌, string_eq,
}
use cnfrp.Common.Integer.{ℤ, pos, negsuc, lt_int}

pub record Monitor : Type 0 where
  pub interval_seconds : ℕ
  pub timeout_seconds : ℕ
  pub max_failed_times : ℕ
  pub failed_times : ℕ
  pub status_ok : Bool

-- a setting that is not positive is replaced
unfoldable pub positive_or : ℤ → ℕ → ℕ
positive_or (pos n) d = if eqb n 0 then d else n
positive_or (negsuc n) d = d

unfoldable pub new_monitor : ℤ → ℤ → ℤ → Monitor
new_monitor interval timeout max_failed = record {
  interval_seconds = positive_or interval 10;
  timeout_seconds = positive_or timeout 3;
  max_failed_times = positive_or max_failed 1;
  failed_times = 0;
  status_ok = false;
}

pub data Callback : Type 0 where
  status_normal status_failed : Callback

-- `int(failed) >= max`: from 2 ^ 63 on the int is negative
unfoldable pub failed_enough : ℕ → ℕ → Bool
failed_enough failed max = ltb failed (2 ^ 63) && leb max failed

-- what the network answers: whether the address can be dialled, and the status code that the URL
-- gives, if it gives one
pub record Answers : Type 0 where
  pub dialled : Bool
  pub status_code : Option ℕ

unfoldable pub do_tcp_check : String → Answers → Bool
do_tcp_check addr a = if addr == "" then true else a.dialled

unfoldable pub do_http_check : Answers → Bool
do_http_check a = elim a.status_code [ none ↦ false | some code ↦ eqb (code / 100) 2 ]

unfoldable pub do_check : String → String → Answers → Bool
do_check check_type addr a =
    if check_type == "tcp"
    then do_tcp_check addr a
    else if check_type == "http"
    then do_http_check a
    else false

-- one round of the worker, with the callbacks that it calls
unfoldable pub check_round : Bool → Monitor → List Callback × Monitor
check_round true m =
    if m.status_ok then ([], m) else (status_normal ∷ [], record m { status_ok = true })
check_round false m =
    let n = (m.failed_times + 1) % 2 ^ 64 in
    if m.status_ok && failed_enough n m.max_failed_times
    then (status_failed ∷ [], record m { failed_times = n; status_ok = false })
    else ([], record m { failed_times = n })

unfoldable pub check_rounds : List Bool → Monitor → List Callback × Monitor
check_rounds [] m = ([], m)
check_rounds (r ∷ rs) m =
    let (now, n) = check_round r m in let (later, last) = check_rounds rs n in (now ++ later, last)
