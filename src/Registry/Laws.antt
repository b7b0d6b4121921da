-- ===== src/Registry/Laws.antt =====
-- What a client's connection and its end do to the registry.
use cnfrp.Common.{
  ℕ, String, Option, refl, ◌≡◌, ◌≢◌, ◌↔◌, true, false, none, some, ◌==◌, nat_eq, string_eq,
  str_eq_iff, arith, Option-cases, inl, inr, if◌then◌else◌, same_self,
}
use cnfrp.Common.Dict.{Dict, get, get-put, get-del_self}
use cnfrp.Registry.{
  ClientInfo, ClientRegistry, Hello, key_of, conflicts, base_info, connected, forget_run, info_of,
  register, disconnected, mark_offline_by_run_id, get_by_key,
}
use cnfrp.Registry.Invariant.{get-end_run}

-- A client that is online under another run, for a client that names itself.
abbrev pub HeldByOther : Hello → ClientRegistry → Type 0
HeldByOther h cr =
    (info : ClientInfo) × (get (key_of h) cr.clients ≡ some info)
    × (info.online ≡ true)
    × (info.run_id ≢ "")
    × (info.run_id ≢ h.run_id)

conflict_of_held :
    (h : Hello) (now : ℕ) (cr : ClientRegistry)
    → h.run_id ≢ ""
    → (h.raw_client_id ≢ "") × HeldByOther h cr
    → (register h now cr).0.1 ≡ true
unfolding register conflicts
conflict_of_held h now cr ne (named, held) =
    let (info, found, on, some_run, other) = held in
    ground (
      arith,
      str_eq_iff h.run_id "",
      str_eq_iff h.raw_client_id "",
      str_eq_iff info.run_id "",
      str_eq_iff info.run_id h.run_id,
    )

held_of_conflict :
    (h : Hello) (now : ℕ) (cr : ClientRegistry)
    → (register h now cr).0.1 ≡ true
    → (h.raw_client_id ≢ "") × HeldByOther h cr
unfolding register conflicts
held_of_conflict h now cr e = elim (Option-cases (info_of h cr)) [
  | inl missing ↦ absurd (ground arith)
  | inr (info, found) ↦ (
    ground (arith, str_eq_iff h.raw_client_id ""),
    (
      info,
      found,
      ground arith,
      ground (arith, str_eq_iff info.run_id ""),
      ground (arith, str_eq_iff info.run_id h.run_id),
    ),
  )
]

-- A registration with a run id reports a conflict exactly if the client names itself and the record
-- at its key is online under another, non-empty run id.
pub register-conflict_iff :
    (h : Hello) (now : ℕ) (cr : ClientRegistry)
    → h.run_id ≢ ""
    → ((register h now cr).0.1 ≡ true) ↔ ((h.raw_client_id ≢ "") × HeldByOther h cr)
register-conflict_iff h now cr ne = (held_of_conflict h now cr, conflict_of_held h now cr ne)

-- accepted
pub get-register :
    (h : Hello) (now : ℕ) (cr : ClientRegistry) (k : String)
    → h.run_id ≢ ""
    → (register h now cr).0.1 ≡ false
    → get_by_key k (register h now cr).1 ≡ (
        if key_of h == k
        then some (connected h now (base_info h now (info_of h cr)))
        else get_by_key k cr)
unfolding register get_by_key
get-register h now cr k ne e = ground (
  arith,
  str_eq_iff h.run_id "",
  get-put (key_of h) k (connected h now (base_info h now (info_of h cr))) cr.clients,
)

pub register-refused :
    (h : Hello) (now : ℕ) (cr : ClientRegistry)
    → (register h now cr).0.1 ≡ true
    → (register h now cr).1 ≡ cr
unfolding register
register-refused h now cr e = ground arith

-- stale end
pub mark_offline-stale :
    (run_id : String) (now : ℕ) (cr : ClientRegistry)
    → get run_id cr.run_index ≡ none
    → mark_offline_by_run_id run_id now cr ≡ cr
unfolding mark_offline_by_run_id
mark_offline-stale run_id now cr e = rw (e, mark_offline_by_run_id)

get-forget_run_self :
    (info : ClientInfo) (index : Dict String String)
    → info.run_id ≢ ""
    → get info.run_id (forget_run (some info) index) ≡ none
unfolding forget_run
get-forget_run_self info index n =
    ground (arith, str_eq_iff info.run_id "", get-del_self info.run_id index)

run_index-register :
    (h : Hello) (now : ℕ) (cr : ClientRegistry) (r : String)
    → h.run_id ≢ ""
    → (register h now cr).0.1 ≡ false
    → get r (register h now cr).1.run_index
      ≡ (if h.run_id == r then some (key_of h) else get r (forget_run (info_of h cr) cr.run_index))
unfolding register
run_index-register h now cr r ne e = ground (
  arith,
  str_eq_iff h.run_id "",
  get-put h.run_id r (key_of h) (forget_run (info_of h cr) cr.run_index),
)

-- When an accepted registration has taken a record over from another run, the later end of that
-- former run changes nothing: the new session stays online.
pub end-register :
    (h : Hello) (now later : ℕ) (cr : ClientRegistry) (info : ClientInfo)
    → h.run_id ≢ ""
    → (register h now cr).0.1 ≡ false
    → info_of h cr ≡ some info
    → info.run_id ≢ h.run_id
    → info.run_id ≢ ""
    → mark_offline_by_run_id info.run_id later (register h now cr).1 ≡ (register h now cr).1
end-register h now later cr info ne e o d n =
    let gone : get info.run_id (forget_run (info_of h cr) cr.run_index) ≡ none =
      rw o (get-forget_run_self info cr.run_index n) in
    mark_offline-stale info.run_id later (register h now cr).1 (
      ground (arith, run_index-register h now cr info.run_id ne e, str_eq_iff h.run_id info.run_id))

-- when the client of a key was first connected: a new client, or one without that time, now
abbrev pub first_time : ℕ → Option ClientInfo → ℕ
first_time now none = now
first_time now (some info) = if info.first_connected_at == 0 then now else info.first_connected_at

-- the key and the user of a record are those that it had, and those of the client if it is new
abbrev pub SameName : Hello → Option ClientInfo → ClientInfo → Type 0
SameName h none info = (info.key ≡ key_of h) × (info.user ≡ h.user)
SameName h (some old) info = (info.key ≡ old.key) × (info.user ≡ old.user)

-- The record of a client that said `h` at `now` and left at `later`, whose record was `old`.
pub record Left (h : Hello) (now later : ℕ) (old : Option ClientInfo) (info : ClientInfo)
    : Type 0 where
  pub names : SameName h old info
  pub offline : info.online ≡ false
  pub no_run : info.run_id ≡ ""
  pub left_at : info.disconnected_at ≡ later
  pub came_at : info.last_connected_at ≡ now
  pub first_at : info.first_connected_at ≡ first_time now old
  pub raw_client_id : info.raw_client_id ≡ h.raw_client_id
  pub hostname : info.hostname ≡ h.hostname
  pub ip : info.ip ≡ h.remote_addr
  pub version : info.version ≡ h.version

-- What is at the key after the end of the run.
abbrev pub Ended : Hello → ℕ → ℕ → Option ClientInfo → Option ClientInfo → Type 0
Ended h now later old after =
    (h.raw_client_id ≡ "" → after ≡ none)
    × (h.raw_client_id ≢ "" → (info : ClientInfo) × (after ≡ some info) × Left h now later old info)

disconnected-Left :
    (h : Hello) (now later : ℕ) (old : Option ClientInfo)
    → Left h now later old (disconnected later (connected h now (base_info h now old)))
unfolding disconnected connected base_info
disconnected-Left h now later none = record {
  names = (refl, refl);
  offline = refl;
  no_run = refl;
  left_at = refl;
  came_at = refl;
  first_at = ground arith;
  raw_client_id = refl;
  hostname = refl;
  ip = refl;
  version = refl;
}
disconnected-Left h now later (some info) = record {
  names = (refl, refl);
  offline = refl;
  no_run = refl;
  left_at = refl;
  came_at = refl;
  first_at = refl;
  raw_client_id = refl;
  hostname = refl;
  ip = refl;
  version = refl;
}

get-end_register :
    (h : Hello) (now later : ℕ) (cr : ClientRegistry) (k : String)
    → h.run_id ≢ ""
    → (register h now cr).0.1 ≡ false
    → get_by_key k (mark_offline_by_run_id h.run_id later (register h now cr).1) ≡ (
        if key_of h == k
        then if h.raw_client_id == ""
          then none
          else some (disconnected later (connected h now (base_info h now (info_of h cr))))
        else get_by_key k cr)
unfolding mark_offline_by_run_id get_by_key connected
get-end_register h now later cr k ne e = ground (
  arith,
  run_index-register h now cr h.run_id ne e,
  same_self h.run_id,
  str_eq_iff (key_of h) k,
  get-register h now cr k ne e,
  get-end_run (key_of h) h.run_id later (register h now cr).1.clients k,
)

-- After an accepted registration and the end of its run, the record at its key is gone if the
-- client has no client id. Otherwise it is offline, has no run, has the time of the end and the
-- time of the registration, the client id, host name, address and version that the client told, the
-- first time at which it came, and the key and user that it had, or those of the client if it is
-- new. The record at any other key is as before the registration.
pub end-register_self :
    (h : Hello) (now later : ℕ) (cr : ClientRegistry)
    → h.run_id ≢ ""
    → (register h now cr).0.1 ≡ false
    → let after = (mark_offline_by_run_id h.run_id later (register h now cr).1) in
      Ended h now later (get_by_key (key_of h) cr) (get_by_key (key_of h) after)
      × ((k : String) → k ≢ key_of h → get_by_key k after ≡ get_by_key k cr)
unfolding get_by_key
end-register_self h now later cr ne e =
    let at = get-end_register h now later cr in
    (
      (
        (λ no_id.
            ground
              (arith, at (key_of h) ne e, same_self (key_of h), str_eq_iff h.raw_client_id "")),
        (λ named. (
          disconnected later (connected h now (base_info h now (info_of h cr))),
          ground (arith, at (key_of h) ne e, same_self (key_of h), str_eq_iff h.raw_client_id ""),
          disconnected-Left h now later (info_of h cr),
        )),
      ),
      (λ k other. ground (arith, at k ne e, str_eq_iff (key_of h) k)),
    )
