-- ===== src/Control/Sync.antt =====
-- The sessions and the server's map agree, in any interleaving of the sessions' calls.
use cnfrp.Common.{ℕ, ◌≡◌, refl, subst, String, List, [], ◌∷◌, string_eq, arith}
use cnfrp.Common.Dict.{Dict, get, del, get-put, get-del}
use cnfrp.Control.{
  Proxy, Control, register_proxy, close_proxy, close_all, Server, control_of, set_control,
  new_control, Call, registers, closes, ends, own, step, run,
}
use cnfrp.Control.Limits.{Counted}
use cnfrp.Control.Agreement.{owned, Inv, set_control-Inv, register-Fits}
use cnfrp.Control.Closing.{close-Fits, all_closed-Fits}

control_of-ended :
    (k j : String) (m : Dict String Proxy) (s : Server)
    → control_of j (set_control k (new_control, m) s)
      ≡ control_of j (record s { controls = del k s.controls; pxys = m })
unfolding control_of set_control
control_of-ended k j m s =
    ground (arith, get-put k j new_control s.controls, get-del k j s.controls)

step-Inv : (s : Server) (c : Call) → Inv s → Inv (step s c)
unfolding step set_control
step-Inv s (registers k made seen ran) h =
    set_control-Inv s k
      (register_proxy s.max_ports_per_client (own k made) seen ran (control_of k s) s.pxys).1 h
      (register-Fits s k made seen ran h)
step-Inv s (closes k name) h =
    set_control-Inv s k (close_proxy s.max_ports_per_client name (control_of k s) s.pxys) h
      (close-Fits s k name h)
step-Inv s (ends k) h =
    let m = close_all (control_of k s).proxies s.pxys in
    let t : Inv (set_control k (new_control, m) s) =
      set_control-Inv s k (new_control, m) h (all_closed-Fits s k h) in
    (
      λ j n.
          subst (λ (c : Control). get n c.proxies ≡ owned j (get n m)) (control_of-ended k j m s)
            (t.0 j n),
      ((λ j. subst (Counted s.max_ports_per_client) (control_of-ended k j m s) (t.1.0 j)), t.1.1),
    )

run-Inv : (calls : List Call) (s : Server) → Inv s → Inv (run s calls)
unfolding run
run-Inv [] s h = h
run-Inv (c ∷ cs) s h = run-Inv cs (step s c) (step-Inv s c h)

abbrev pub new_server : ℕ → Server
new_server max = record { max_ports_per_client = max; controls = []; pxys = [] }

-- In any interleaving of registrations, closings and ends of the sessions of a new server, whatever
-- a registration saw when it looked for its name: a session has exactly the proxies of the server
-- map that are its own, each under its name, so no two sessions have one name; and where the number
-- of ports is limited, the ports counted for a session are those of its proxies, and at most the
-- limit.
pub run-new_server-Inv : (max : ℕ) (calls : List Call) → Inv (run (new_server max) calls)
unfolding get control_of
run-new_server-Inv max calls =
    run-Inv calls (new_server max)
      ((λ j n. refl), ((λ j. (tt, λ l. (refl, omega arith))), λ n p e. cc))
