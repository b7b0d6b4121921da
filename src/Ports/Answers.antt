-- ===== src/Ports/Answers.antt =====
-- server/ports/ports.go: what `Acquire` answers for a port, in terms of the configuration.
use cnfrp.Common.{ℕ, String, ◌≡◌, ◌≢◌, Bool, List, arith, nat_eq, if◌then◌else◌, eqb_iff}
use cnfrp.Common.Dict.{has}
use cnfrp.Ports.{
  Manager, PortsRange, Call, Acquired, ok, err, acquire, acquire_specified, run, new_manager,
  port_already_used, port_not_allowed, port_unavailable,
}
use cnfrp.Ports.Invariant.{Inv, is_allowed, run-new_manager-Inv}

-- a port is granted if it is allowed, not in use, and free on the host
abbrev pub granted : (ℕ → Bool) → (ℕ → Bool) → ℕ → Manager → Acquired
granted allowed free_on_host port m =
    if allowed port
    then if has port m.used_ports
      then err port_already_used
      else if free_on_host port
      then ok port
      else err port_unavailable
    else err port_not_allowed

granted-Inv :
    (allowed free_on_host : ℕ → Bool) (name : String) (port now : ℕ) (m : Manager)
    → Inv allowed m
    → port ≢ 0
    → (acquire free_on_host name port now m).0 ≡ granted allowed free_on_host port m
unfolding acquire acquire_specified
granted-Inv allowed free_on_host name port now m v h =
    ground (arith, eqb_iff port 0, v.disjoint port, v.total port)

-- After any calls of acquire, release and the cleaning round on a new port manager, a call for a
-- port other than 0 answers that the port is not allowed exactly if the configuration does not
-- allow it, else that it is in use exactly if it is on record as used, else that it is unavailable
-- exactly if the host refuses it, and else with that port.
pub acquire-run :
    (rs : List PortsRange) (cs : List (ℕ × Call)) (free_on_host : ℕ → Bool) (name : String)
    (port now : ℕ)
    → port ≢ 0
    → (acquire free_on_host name port now (run (new_manager rs) cs)).0
      ≡ granted (is_allowed rs) free_on_host port (run (new_manager rs) cs)
acquire-run rs cs free_on_host name port now h =
    granted-Inv (is_allowed rs) free_on_host name port now (run (new_manager rs) cs)
      (run-new_manager-Inv rs cs) h
