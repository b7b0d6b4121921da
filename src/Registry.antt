-- ===== src/Registry.antt =====
-- server/registry/registry.go: the clients that the server knows, online and offline. A time is a
-- number of seconds, and 0 is Go's zero time. The mutex makes each operation one step. A record
-- that two maps would share is held by key only, so no aliasing arises.
pub mod Invariant
pub mod Laws
pub mod Tests
use cnfrp.Common.{
  ℕ, zero, suc, ◌+◌, String, Bool, true, false, ◌&&◌, Option, none, some, List, [], ◌∷◌, map, ◌==◌,
  nat_eq, string_eq, if◌then◌else◌, is_some, not,
}
use Prim.Native.String.{◌++◌}
use cnfrp.Common.Dict.{Dict, get, put, del}

pub record ClientInfo : Type 0 where
  pub key : String
  pub user : String
  pub raw_client_id : String
  pub run_id : String
  pub hostname : String
  pub ip : String
  pub version : String
  pub first_connected_at : ℕ
  pub last_connected_at : ℕ
  pub disconnected_at : ℕ
  pub online : Bool

pub record ClientRegistry : Type 0 where
  pub clients : Dict String ClientInfo
  pub run_index : Dict String String

abbrev pub empty : ClientRegistry
empty = record { clients = []; run_index = [] }

unfoldable pub compose_client_key : String → String → String
compose_client_key user id = if user == "" then id else if id == "" then user else user ++ "." ++ id

-- what a client says of itself when it connects
pub record Hello : Type 0 where
  pub user : String
  pub raw_client_id : String
  pub run_id : String
  pub hostname : String
  pub version : String
  pub remote_addr : String

unfoldable pub effective_id : Hello → String
effective_id h = if h.raw_client_id == "" then h.run_id else h.raw_client_id

unfoldable pub key_of : Hello → String
key_of h = compose_client_key h.user (effective_id h)

unfoldable pub conflicts : Hello → Option ClientInfo → Bool
conflicts h none = false
conflicts h (some info) =
    not (h.raw_client_id == "")
    && (info.online && (not (info.run_id == "") && not (info.run_id == h.run_id)))

-- the record that is updated: the known one, or a new one
unfoldable pub base_info : Hello → ℕ → Option ClientInfo → ClientInfo
base_info h now none = record {
  key = key_of h;
  user = h.user;
  raw_client_id = "";
  run_id = "";
  hostname = "";
  ip = "";
  version = "";
  first_connected_at = now;
  last_connected_at = 0;
  disconnected_at = 0;
  online = false;
}
base_info h now (some info) = info

unfoldable pub connected : Hello → ℕ → ClientInfo → ClientInfo
connected h now info = record info {
  raw_client_id = h.raw_client_id;
  run_id = h.run_id;
  hostname = h.hostname;
  ip = h.remote_addr;
  version = h.version;
  first_connected_at = if info.first_connected_at == 0 then now else info.first_connected_at;
  last_connected_at = now;
  disconnected_at = 0;
  online = true;
}

-- the index without the run id that the known record had
unfoldable pub forget_run : Option ClientInfo → Dict String String → Dict String String
forget_run none index = index
forget_run (some info) index = if info.run_id == "" then index else del info.run_id index

abbrev pub info_of : Hello → ClientRegistry → Option ClientInfo
info_of h cr = get (key_of h) cr.clients

-- the key, and whether it conflicts
unfoldable pub register : Hello → ℕ → ClientRegistry → (String × Bool) × ClientRegistry
register h now cr =
    if h.run_id == ""
    then (("", false), cr)
    else if conflicts h (info_of h cr)
    then ((key_of h, true), cr)
    else (
      (key_of h, false),
      record {
        clients = put (key_of h) (connected h now (base_info h now (info_of h cr))) cr.clients;
        run_index = put h.run_id (key_of h) (forget_run (info_of h cr) cr.run_index);
      },
    )

unfoldable pub disconnected : ℕ → ClientInfo → ClientInfo
disconnected now info = record info { run_id = ""; online = false; disconnected_at = now }

-- what becomes of the clients when the run of `key` ends
unfoldable pub end_run : String → String → ℕ → Dict String ClientInfo → Dict String ClientInfo
end_run key run_id now clients = elim (get key clients) [
  | none ↦ clients
  | some info ↦
      if info.run_id == run_id
      then if info.raw_client_id == ""
        then del key clients
        else put key (disconnected now info) clients
      else clients
]

unfoldable pub mark_offline_by_run_id : String → ℕ → ClientRegistry → ClientRegistry
mark_offline_by_run_id run_id now cr = elim (get run_id cr.run_index) [
  | none ↦ cr
  | some key ↦ record {
    clients = end_run key run_id now cr.clients;
    run_index = del run_id cr.run_index;
  }
]

-- a snapshot of all known clients, in the order of the map
unfoldable pub list_clients : ClientRegistry → List ClientInfo
list_clients cr = map (λ p. p.1) cr.clients

unfoldable pub get_by_key : String → ClientRegistry → Option ClientInfo
get_by_key key cr = get key cr.clients

unfoldable pub client_id : ClientInfo → String
client_id info = if info.raw_client_id == "" then info.run_id else info.raw_client_id

pub data Call : Type 0 where
  registers : Hello → Call
  ends : String → Call

unfoldable pub step : ClientRegistry → ℕ × Call → ClientRegistry
step cr (now, registers h) = (register h now cr).1
step cr (now, ends run_id) = mark_offline_by_run_id run_id now cr

unfoldable pub run : ClientRegistry → List (ℕ × Call) → ClientRegistry
run cr [] = cr
run cr (c ∷ cs) = run (step cr c) cs
