-- ===== src/Control.antt =====
-- server/control.go and the Manager of server/proxy/proxy.go: the proxies of each client's session
-- and of the whole server, with the limit of ports for a session. The proxies of a server are made
-- by libraries and the other components: whether one is made and whether it runs are arguments.
-- `seen` is the server's map when `Exist` looked, before other sessions changed it; messages of one
-- session are handled one by one.
pub mod Limits
pub mod Agreement
pub mod Closing
pub mod Sync
pub mod Sessions
pub mod Pool
pub mod Tests
use cnfrp.Common.{
  ℕ, ◌+◌, ◌-◌, String, Bool, true, false, ◌&&◌, Option, none, some, List, [], ◌∷◌, if◌then◌else◌,
  ltb, not, is_some, ◌==◌, string_eq,
}
use cnfrp.Common.Dict.{Dict, get, put, del, has}

-- the name, `GetUsedPortsNum`, and the run id of the client
pub record Proxy : Type 0 where
  pub name : String
  pub used_ports_num : ℕ
  pub run_id : String

pub record Control : Type 0 where
  pub proxies : Dict String Proxy
  pub ports_used_num : ℕ

abbrev pub new_control : Control
new_control = record { proxies = []; ports_used_num = 0 }

pub data RegisterError : Type 0 where
  not_made exceed_max_ports already_exists run_failed name_in_use : RegisterError

-- `Manager.Add`; false: the name is in use
unfoldable pub add : String → Proxy → Dict String Proxy → Bool × Dict String Proxy
add name p m = if has name m then (false, m) else (true, put name p m)

unfoldable pub limited : ℕ → Bool
limited max = ltb 0 max

unfoldable pub count_up : ℕ → Proxy → Control → Control
count_up max p c =
    if limited max then record c { ports_used_num = c.ports_used_num + p.used_ports_num } else c

unfoldable pub count_down : ℕ → Proxy → Control → Control
count_down max p c =
    if limited max then record c { ports_used_num = c.ports_used_num - p.used_ports_num } else c

abbrev pub Registered : Type 0
Registered = Option RegisterError × (Control × Dict String Proxy)

-- the end of a registration, on the answer of `Add`
unfoldable pub finish : ℕ → Proxy → Control → Bool × Dict String Proxy → Registered
finish max p c (false, m) = (some name_in_use, (count_down max p c, m))
finish max p c (true, m) = (none, (record c { proxies = put p.name p c.proxies }, m))

-- a registration whose ports are counted
unfoldable pub reserved :
    ℕ → Proxy → Dict String Proxy → Bool → Control → Dict String Proxy → Registered
reserved max p seen ran c m =
    if has p.name seen
    then (some already_exists, (count_down max p c, m))
    else if not ran
    then (some run_failed, (count_down max p c, m))
    else finish max p c (add p.name p m)

unfoldable pub register_proxy :
    ℕ → Option Proxy → Dict String Proxy → Bool → Control → Dict String Proxy → Registered
register_proxy max none seen ran c m = (some not_made, (c, m))
register_proxy max (some p) seen ran c m =
    if limited max && ltb max (c.ports_used_num + p.used_ports_num)
    then (some exceed_max_ports, (c, m))
    else reserved max p seen ran (count_up max p c) m

-- `CloseProxy`, with the removal from the server's map by `closeProxy`
unfoldable pub close_proxy : ℕ → String → Control → Dict String Proxy → Control × Dict String Proxy
close_proxy max name c m = elim (get name c.proxies) [
  | none ↦ (c, m)
  | some p ↦ (record (count_down max p c) { proxies = del name c.proxies }, del p.name m)
]

-- the end of the worker: every proxy of the session is closed
unfoldable pub close_all : Dict String Proxy → Dict String Proxy → Dict String Proxy
close_all [] m = m
close_all ((name, p) ∷ ps) m = close_all ps (del p.name m)

pub record Server : Type 0 where
  pub max_ports_per_client : ℕ
  pub controls : Dict String Control
  pub pxys : Dict String Proxy

unfoldable pub control_of : String → Server → Control
control_of run_id s = elim (get run_id s.controls) [ none ↦ new_control | some c ↦ c ]

unfoldable pub set_control : String → Control × Dict String Proxy → Server → Server
set_control run_id r s = record s { controls = put run_id r.0 s.controls; pxys = r.1 }

pub data Call : Type 0 where
  registers : String → Option (String × ℕ) → Dict String Proxy → Bool → Call
  closes : String → String → Call
  ends : String → Call

-- a proxy that a session makes is its own
unfoldable pub own : String → Option (String × ℕ) → Option Proxy
own run_id none = none
own run_id (some (name, ports)) =
    some (record { name = name; used_ports_num = ports; run_id = run_id })

unfoldable pub step : Server → Call → Server
step s (registers run_id made seen ran) =
    set_control run_id
      (register_proxy s.max_ports_per_client (own run_id made) seen ran (control_of run_id s)
        s.pxys).1
      s
step s (closes run_id name) =
    set_control run_id (close_proxy s.max_ports_per_client name (control_of run_id s) s.pxys) s
step s (ends run_id) = record s {
  controls = del run_id s.controls;
  pxys = close_all (control_of run_id s).proxies s.pxys;
}

unfoldable pub run : Server → List Call → Server
run s [] = s
run s (c ∷ cs) = run (step s c) cs
