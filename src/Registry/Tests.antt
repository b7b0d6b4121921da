-- ===== src/Registry/Tests.antt =====
-- The client registry on concrete inputs.
use cnfrp.Common.{String, ◌≡◌, ◌≢◌, ◌↔◌, refl, true, false, none, some, [], ◌∷◌, arith, str_eq_iff}
use cnfrp.Common.Dict.{get, put, del}
use cnfrp.Registry.{
  ClientInfo, ClientRegistry, Hello, empty, compose_client_key, effective_id, key_of, conflicts,
  base_info, connected, forget_run, info_of, register, disconnected, end_run,
  mark_offline_by_run_id, registers, ends, run, get_by_key,
}
use cnfrp.Registry.Invariant.{Inv, run-empty-Inv}
use cnfrp.Registry.Laws.{HeldByOther, register-conflict_iff, end-register, end-register_self, Ended}

abbrev alice : String → Hello
alice r = record {
  user = "alice";
  raw_client_id = "pc";
  run_id = r;
  hostname = "h";
  version = "1";
  remote_addr = "10.0.0.1";
}

abbrev guest : Hello
guest = record {
  user = "";
  raw_client_id = "";
  run_id = "g";
  hostname = "h";
  version = "1";
  remote_addr = "10.0.0.2";
}

one : ClientRegistry
unfolding register compose_client_key effective_id key_of conflicts base_info connected forget_run
    get put del
one = (register (alice "r1") 10 empty).1

-- The same client under a new run while the old one is online; under its own run; a guest.
answers :
    ((register (alice "r2") 20 one).0 ≡ ("alice.pc", true))
    × ((register (alice "r1") 20 one).0 ≡ ("alice.pc", false))
    × ((register guest 20 one).0 ≡ ("g", false))
unfolding one
answers = (refl, refl, refl)

offline : ClientRegistry
unfolding one mark_offline_by_run_id end_run disconnected
offline = mark_offline_by_run_id "r1" 30 one

seen :
    (get_by_key "alice.pc" offline
      ≡ some (record {
        key = "alice.pc";
        user = "alice";
        raw_client_id = "pc";
        run_id = "";
        hostname = "h";
        ip = "10.0.0.1";
        version = "1";
        first_connected_at = 10;
        last_connected_at = 10;
        disconnected_at = 30;
        online = false;
      }))
unfolding offline get_by_key
seen = refl

r1_ne_empty : ◌≢◌ {A = String} "r1" ""
r1_ne_empty = ground (arith, str_eq_iff "r1" "")

r2_ne_empty : ◌≢◌ {A = String} "r2" ""
r2_ne_empty = ground (arith, str_eq_iff "r2" "")

run-empty-Inv_example :
    Inv (run empty ((10, registers (alice "r1")) ∷ (20, registers guest) ∷ (30, ends "r1") ∷ []))
run-empty-Inv_example =
    run-empty-Inv ((10, registers (alice "r1")) ∷ (20, registers guest) ∷ (30, ends "r1") ∷ [])

register-conflict_iff_example :
    ((register (alice "r2") 20 one).0.1 ≡ true)
    ↔ (((alice "r2").raw_client_id ≢ "") × HeldByOther (alice "r2") one)
register-conflict_iff_example = register-conflict_iff (alice "r2") 20 one r2_ne_empty

-- Another client whose key is the same.
abbrev moved : Hello
moved = record guest { run_id = "pc"; user = "alice" }

moved_accepted : (register moved 20 one).0.1 ≡ false
unfolding one
moved_accepted = refl

moved_info : ClientInfo
unfolding connected base_info key_of compose_client_key effective_id
moved_info = connected (alice "r1") 10 (base_info (alice "r1") 10 none)

moved_found : info_of moved one ≡ some moved_info
unfolding one moved_info
moved_found = refl

pc_ne_empty : moved.run_id ≢ ""
pc_ne_empty = ground (arith, str_eq_iff "pc" "")

moved_other : moved_info.run_id ≢ moved.run_id
unfolding moved_info
moved_other = ground (arith, str_eq_iff "r1" "pc")

moved_some : moved_info.run_id ≢ ""
unfolding moved_info
moved_some = r1_ne_empty

end-register_example :
    mark_offline_by_run_id moved_info.run_id 40 (register moved 20 one).1
    ≡ (register moved 20 one).1
end-register_example =
    end-register moved 20 40 one moved_info pc_ne_empty moved_accepted moved_found moved_other
      moved_some

end-register_self_example :
    let after = mark_offline_by_run_id "pc" 40 (register moved 20 one).1 in
    Ended moved 20 40 (get_by_key (key_of moved) one) (get_by_key (key_of moved) after)
    × ((k : String) → k ≢ key_of moved → get_by_key k after ≡ get_by_key k one)
end-register_self_example = end-register_self moved 20 40 one pc_ne_empty moved_accepted
