-- ===== src/Control/Sessions.antt =====
-- ControlManager of server/control.go: the live session of each run id. A session is known by an
-- identity, which stands for its pointer.
use cnfrp.Common.{
  ℕ, ◌≡◌, ◌≢◌, String, Bool, true, Option, none, some, List, [], map, if◌then◌else◌, ◌==◌,
  string_eq, nat_eq, arith,
}
use cnfrp.Common.Dict.{Dict, get, put, del, get-put, get-del, get-put_self}

pub record Session : Type 0 where
  pub id : ℕ
  pub run_id : String
  pub conn_closed : Bool

-- `Replaced`: the session forgets its run id and closes its connection
unfoldable pub replaced : Session → Session
replaced s = record s { run_id = ""; conn_closed = true }

-- the session that was there, as it is afterwards
unfoldable pub add_session :
    String → Session → Dict String Session → Option Session × Dict String Session
add_session run_id ctl m =
    (elim (get run_id m) [ none ↦ none | some old ↦ some (replaced old) ], put run_id ctl m)

unfoldable pub del_session : String → Session → Dict String Session → Dict String Session
del_session run_id ctl m = elim (get run_id m) [
  | none ↦ m
  | some c ↦ if c.id == ctl.id then del run_id m else m
]

unfoldable pub get_by_id : String → Dict String Session → Option Session
get_by_id run_id m = get run_id m

-- the closed sessions, and the map
unfoldable pub close_sessions : Dict String Session → List Session × Dict String Session
close_sessions m = (map (λ e. record e.1 { conn_closed = true }) m, [])

-- After a session has been entered under a run id, deleting another session under that run id
-- changes nothing, and deleting the session itself leaves that run id without a session and every
-- other as before it was entered.
pub del_session-add_session :
    (run_id other : String) (old new : Session) (m : Dict String Session)
    → old.id ≢ new.id
    → (del_session run_id old (add_session run_id new m).1 ≡ (add_session run_id new m).1)
      × (get_by_id other (del_session run_id new (add_session run_id new m).1)
          ≡ (if run_id == other then none else get_by_id other m))
unfolding del_session add_session get_by_id
del_session-add_session run_id other old new m ne = (
  rw (get-put_self, del_session) (ground arith),
  rw (get-put_self, del_session)
      (ground (arith, get-del run_id other (put run_id new m), get-put run_id other new m)),
)
