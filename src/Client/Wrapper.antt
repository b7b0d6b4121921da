-- ===== src/Client/Wrapper.antt =====
-- client/proxy/proxy_wrapper.go: one proxy of a client, which asks the server to run it, follows
-- the answers and the health of the service, and asks again. A time is a number of nanoseconds, 0
-- Go's zero time. What the handler sends is a list of messages; the inner proxy's `Run` is an
-- argument. The mutex makes each operation one step.
pub mod Laws
use cnfrp.Common.{
  ℕ, ◌+◌, ◌*◌, String, Bool, true, false, ◌&&◌, ◌||◌, Option, none, some, List, [], ◌∷◌,
  if◌then◌else◌, ltb, not, ◌==◌, string_eq,
}
use cnfrp.Common.Bytes.{Text}
use cnfrp.Client.Naming.{add_user_prefix}

pub data Phase : Type 0 where
  new_phase wait_start start_err running check_failed closed : Phase

abbrev pub second : ℕ
second = 1000000000

abbrev pub wait_response_timeout : ℕ
wait_response_timeout = 20 * second

abbrev pub start_err_timeout : ℕ
start_err_timeout = 30 * second

-- the configuration that a wrapper reads, with the rest
pub record ProxyConfigurer (C : Type 0) : Type 0 where
  pub name : Text
  pub health_check_type : String
  pub local_port : ℕ
  pub body : C

pub data Event : Type 0 where
  start_proxy close_proxy : Text → Event

pub record Wrapper (C : Type 0) : Type 0 where
  pub phase : Phase
  pub err : String
  pub cfg : ProxyConfigurer C
  pub remote_addr : String
  pub monitored : Bool
  pub unhealthy : Bool
  pub last_send_start_msg : ℕ
  pub last_start_err : ℕ
  pub wire_name : Text

abbrev pub is_wait_start : Phase → Bool
is_wait_start wait_start = true
is_wait_start _ = false

-- whether it takes an unhealthy proxy back
unfoldable pub takes_back : Phase → Bool
takes_back running = true
takes_back wait_start = true
takes_back _ = false

abbrev pub is_running : Phase → Bool
is_running running = true
is_running _ = false

pub data Call : Type 0 where
  response : String → String → Option String → Call
  stops checks normal failed : Call

module _ {C : Type 0} where
  -- with a health check the service counts as failed until a check succeeds
  unfoldable pub new_wrapper : Text → ProxyConfigurer C → Wrapper C
  new_wrapper user cfg =
      let watched = not (cfg.health_check_type == "") && ltb 0 cfg.local_port in
      record {
        phase = new_phase;
        err = "";
        cfg = cfg;
        remote_addr = "";
        monitored = watched;
        unhealthy = watched;
        last_send_start_msg = 0;
        last_start_err = 0;
        wire_name = add_user_prefix user cfg.name;
      }

  -- what `SetRunningStatus` does in the phase "wait start", `ran` being the error of `pxy.Run`; the
  -- first component says whether it reports an error
  unfoldable pub answered :
      String → String → Option String → ℕ → Wrapper C → Bool × (List Event × Wrapper C)
  answered addr resp_err ran now w =
      if not (resp_err == "")
      then (
        true,
        (
          [],
          record w { remote_addr = addr; phase = start_err; err = resp_err; last_start_err = now },
        ),
      )
      else elim ran [
        | none ↦ (false, ([], record w { remote_addr = addr; phase = running; err = "" }))
        | some e ↦ (
          true,
          (
            close_proxy w.wire_name ∷ [],
            record w { remote_addr = addr; phase = start_err; err = e; last_start_err = now },
          ),
        )
      ]

  unfoldable pub set_running_status :
      String → String → Option String → ℕ → Wrapper C → Bool × (List Event × Wrapper C)
  set_running_status addr resp_err ran now w =
      if is_wait_start w.phase then answered addr resp_err ran now w else (true, ([], w))

  unfoldable pub stop : Wrapper C → List Event × Wrapper C
  stop w = (close_proxy w.wire_name ∷ [], record w { phase = closed })

  -- whether a round of the worker asks the server to start the proxy
  unfoldable pub asks_start : ℕ → Wrapper C → Phase → Bool
  asks_start now w new_phase = true
  asks_start now w check_failed = true
  asks_start now w wait_start = ltb (w.last_send_start_msg + wait_response_timeout) now
  asks_start now w start_err = ltb (w.last_start_err + start_err_timeout) now
  asks_start now w running = false
  asks_start now w closed = false

  unfoldable pub check_round : ℕ → Wrapper C → List Event × Wrapper C
  check_round now w =
      if not w.unhealthy
      then if asks_start now w w.phase
        then (
          start_proxy w.wire_name ∷ [],
          record w { phase = wait_start; last_send_start_msg = now },
        )
        else ([], w)
      else if takes_back w.phase
      then (close_proxy w.wire_name ∷ [], record w { phase = check_failed })
      else ([], w)

  unfoldable pub status_normal_callback : Wrapper C → Wrapper C
  status_normal_callback w = record w { unhealthy = false }

  unfoldable pub status_failed_callback : Wrapper C → Wrapper C
  status_failed_callback w = record w { unhealthy = true }

  -- whether the work connection is handed to the proxy; otherwise it is closed
  unfoldable pub in_work_conn : Wrapper C → Bool
  in_work_conn w = is_running w.phase

  unfoldable pub step : Wrapper C → ℕ × Call → List Event × Wrapper C
  step w (now, response addr e ran) = (set_running_status addr e ran now w).1
  step w (now, stops) = stop w
  step w (now, checks) = check_round now w
  step w (now, normal) = ([], status_normal_callback w)
  step w (now, failed) = ([], status_failed_callback w)
