-- ===== src/Control/Tests.antt =====
-- Sessions of a server on concrete inputs.
use cnfrp.Common.{
  ℕ, ◌≡◌, refl, String, true, false, none, some, List, [], ◌∷◌, if◌then◌else◌, ◌==◌, string_eq,
  arith,
}
use cnfrp.Common.Dict.{get, put}
use cnfrp.Control.Pool.{
  PoolCall, registers, gets, ends, new_work_conns, no_trace, pool_run, pool_step,
  register_work_conn, get_work_conn, close_work_conns,
}
use cnfrp.Control.Pool.Laws.{Kept, pool_run-Kept}
use cnfrp.Control.{
  Proxy, new_control, limited, register_proxy, reserved, finish, add, count_up, count_down, Server,
  control_of, set_control, own, Call, registers, step, run,
}
use cnfrp.Control.Limits.{Outcome, register_proxy-Outcome}
use cnfrp.Control.Agreement.{Inv}
use cnfrp.Control.Sync.{new_server, run-new_server-Inv}
use cnfrp.Control.Sessions.{Session, add_session, del_session, get_by_id, del_session-add_session}

abbrev ssh : Proxy
ssh = record { name = "ssh"; used_ports_num = 1; run_id = "r1" }

register_proxy-Outcome_example :
    Outcome 5 ssh new_control [] (register_proxy 5 (some ssh) [] true new_control [])
register_proxy-Outcome_example = register_proxy-Outcome 5 ssh [] true new_control []

-- The second session looks for the name before the first has added it.
abbrev calls : List Call
calls =
    registers "r1" (some ("ssh", 1)) [] true
    ∷ registers "r2" (some ("ssh", 1)) [] true
    ∷ registers "r1" (some ("web", 2)) [] true
    ∷ registers "r1" (some ("dns", 1)) [] true
    ∷ []

run-new_server-Inv_example : Inv (run (new_server 2) calls)
run-new_server-Inv_example = run-new_server-Inv 2 calls

-- Under a limit of two, the first session has two proxies of one port each.
last : Server
unfolding run step register_proxy reserved finish add count_up count_down limited set_control
    control_of own get put
last = run (new_server 2) calls

counted : (control_of "r1" last).ports_used_num ≡ 2
unfolding last control_of get
counted = refl

abbrev first_session : Session
first_session = record { id = 1; run_id = "r1"; conn_closed = false }

abbrev second_session : Session
second_session = record { id = 2; run_id = "r1"; conn_closed = false }

del_session-add_session_example :
    (del_session "r1" first_session (add_session "r1" second_session (("r1", first_session) ∷ [])).1
      ≡ (add_session "r1" second_session (("r1", first_session) ∷ [])).1)
    × (get_by_id "r2" (
          del_session "r1" second_session
            (add_session "r1" second_session (("r1", first_session) ∷ [])).1)
        ≡ (if ◌==◌ {K = String} "r1" "r2"
            then none
            else get_by_id "r2" (("r1", first_session) ∷ [])))
del_session-add_session_example =
    del_session-add_session "r1" "r2" first_session second_session (("r1", first_session) ∷ [])
      (omega arith)

abbrev pool_calls : List (PoolCall ℕ)
pool_calls = registers 1 ∷ registers 2 ∷ gets true ∷ ends ∷ registers 3 ∷ gets true ∷ []

-- the first connection is handed out, the second is dropped at the end, the third is not taken
pool_traced :
    (pool_run (new_work_conns 1, no_trace) pool_calls).1
    ≡ record { accepted = 1 ∷ 2 ∷ []; handed = 1 ∷ []; dropped = 2 ∷ [] }
unfolding pool_run pool_step register_work_conn get_work_conn close_work_conns
pool_traced = refl

pool_run-Kept_example : Kept (pool_run (new_work_conns 1, no_trace) pool_calls)
pool_run-Kept_example = pool_run-Kept 1 pool_calls
