-- ===== src/Ports/Tests.antt =====
-- The port manager on concrete inputs.
use cnfrp.Common.{
  ℕ, ◌≡◌, refl, Bool, true, false, none, some, List, [], ◌∷◌, arith, nat_eq, string_eq,
}
use cnfrp.Common.Dict.{get, put, del, has}
use cnfrp.Ports.{
  Manager, PortsRange, Call, acquires, releases, cleans, ok, err, acquire, release, clean, step,
  run, new_manager, add_ranges, add_ports, port_already_used, port_not_allowed, port_unavailable,
  allowed_ports,
}
use cnfrp.Ports.Invariant.{Inv, is_allowed, run-new_manager-Inv, has-new_manager}
use cnfrp.Ports.Answers.{granted, acquire-run}
use cnfrp.Ports.Reserve.{
  Outcome, reservation, acquire-Outcome, reservation-clean-release, acquire-clean-release,
}

abbrev three_ports : List PortsRange
three_ports =
    (record { start = 6000; last = 6001; single = 0 })
    ∷ (record { start = 0; last = 0; single = 7000 })
    ∷ []

abbrev always : ℕ → Bool
always p = true

-- "web" takes 6001 at time 10.
abbrev history : List (ℕ × Call)
history = (10, acquires always "web" 6001) ∷ []

taken : Manager
unfolding run step acquire new_manager allowed_ports add_ranges add_ports get put del
taken = run (new_manager three_ports) history

taken-Inv : Inv (is_allowed three_ports) taken
unfolding taken
taken-Inv = run-new_manager-Inv three_ports history

taken_used : get 6001 taken.used_ports ≡ some 0
unfolding taken
taken_used = refl

taken_reserved : get "web" taken.reserved_ports ≡ some 0
unfolding taken
taken_reserved = refl

no_port_zero : has 0 taken.free_ports ≡ false
unfolding taken
no_port_zero = refl

-- A port that is in use, one that is not allowed, one that the host refuses, and any port.
answers :
    ((acquire always "b" 6001 20 taken).0 ≡ err port_already_used)
    × ((acquire always "b" 9 20 taken).0 ≡ err port_not_allowed)
    × ((acquire (λ p. false) "b" 7000 20 taken).0 ≡ err port_unavailable)
    × ((acquire always "b" 0 20 taken).0 ≡ ok 6000)
    × ((acquire always "web" 0 20 taken).0 ≡ ok 6001)
unfolding taken
answers = (refl, refl, refl, refl, refl)

run-new_manager-Inv_example : Inv (is_allowed three_ports) (
    run
      (new_manager three_ports)
      ((10, acquires always "web" 6001) ∷ (20, releases 6001) ∷ (90000, cleans) ∷ []))
run-new_manager-Inv_example =
    run-new_manager-Inv three_ports
      ((10, acquires always "web" 6001) ∷ (20, releases 6001) ∷ (90000, cleans) ∷ [])

has-new_manager_example :
    has 6001 (new_manager three_ports).free_ports ≡ is_allowed three_ports 6001
has-new_manager_example = has-new_manager three_ports 6001

acquire-Outcome_example : Outcome always "b" 7000 20 taken (acquire always "b" 7000 20 taken)
acquire-Outcome_example = acquire-Outcome always "b" 7000 20 taken no_port_zero

web_reservation : reservation "web" taken ≡ some 6001
unfolding taken
web_reservation = refl

reservation-clean-release_example : reservation "web" (clean 90000 (release 6001 20 taken)) ≡ none
reservation-clean-release_example =
    reservation-clean-release (is_allowed three_ports) taken "web" 6001 0 20 90000 taken-Inv
      taken_used taken_reserved

acquire-clean-release_example :
    (acquire always "web" 0 70 (clean 60 (release 6001 20 taken))).0 ≡ ok 6001
acquire-clean-release_example =
    acquire-clean-release (is_allowed three_ports) taken always "web" 6001 0 20 60 70 taken-Inv
      taken_used taken_reserved (omega arith) refl

acquire-run_example :
    (acquire always "b" 6001 20 (run (new_manager three_ports) history)).0
    ≡ granted (is_allowed three_ports) always 6001 (run (new_manager three_ports) history)
acquire-run_example = acquire-run three_ports history always "b" 6001 20 (omega arith)
