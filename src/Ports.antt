-- ===== src/Ports.antt =====
-- server/ports/ports.go: the manager of the TCP or UDP ports that proxies may take.
-- A context is shared by the two maps that point at it, so the maps hold references into `ctxs`.
-- What the operating system answers to a trial listen is the argument `free_on_host`; the time is
-- an argument too. The mutex makes each operation one step.
pub mod Invariant
pub mod Reserve
pub mod Answers
pub mod Tests
use cnfrp.Common.{
  ℕ, zero, suc, ◌+◌, ◌-◌, String, Bool, true, false, ◌&&◌, Option, none, some, List, [], ◌∷◌, ◌==◌,
  nat_eq, string_eq, ltb, leb, if◌then◌else◌, is_some,
}
use cnfrp.Common.Dict.{Dict, get, put, del, has}

pub record PortCtx : Type 0 where
  pub proxy_name : String
  pub port : ℕ
  pub closed : Bool
  pub update_time : ℕ

pub record Manager : Type 0 where
  pub reserved_ports : Dict String ℕ
  pub used_ports : Dict ℕ ℕ
  pub free_ports : Dict ℕ (Unit {0})
  pub ctxs : ℕ → PortCtx
  pub next : ℕ

pub data PortError : Type 0 where
  port_already_used port_not_allowed port_unavailable no_available_port : PortError

pub data Acquired : Type 0 where
  ok : ℕ → Acquired
  err : PortError → Acquired

pub record PortsRange : Type 0 where
  pub start : ℕ
  pub last : ℕ
  pub single : ℕ

abbrev pub min_port : ℕ
min_port = 1

abbrev pub max_port : ℕ
max_port = 65535

-- 24 hours, in seconds.
abbrev pub max_reserved : ℕ
max_reserved = 86400

-- `for i := start; ...; i++`, as many rounds as the loop makes
unfoldable pub add_ports : ℕ → ℕ → Dict ℕ (Unit {0}) → Dict ℕ (Unit {0})
add_ports i zero free = free
add_ports i (suc n) free = add_ports (i + 1) n (put i tt free)

unfoldable pub add_ranges : List PortsRange → Dict ℕ (Unit {0}) → Dict ℕ (Unit {0})
add_ranges [] free = free
add_ranges (pair ∷ rest) free = add_ranges rest (
    if ltb 0 pair.single
    then put pair.single tt free
    else add_ports pair.start (pair.last + 1 - pair.start) free)

abbrev no_ctx : PortCtx
no_ctx = record { proxy_name = ""; port = 0; closed = false; update_time = 0 }

pub allowed_ports : List PortsRange → Dict ℕ (Unit {0})
allowed_ports [] = add_ports min_port (max_port + 1 - min_port) []
allowed_ports (pair ∷ rest) = add_ranges (pair ∷ rest) []

pub new_manager : List PortsRange → Manager
new_manager allow_ports = record {
  reserved_ports = [];
  used_ports = [];
  free_ports = allowed_ports allow_ports;
  ctxs = λ r. no_ctx;
  next = 0;
}

-- a new context for `name`, put into both maps under `port`
pub take_port : String → ℕ → ℕ → Manager → Manager
take_port name port now m = record m {
  reserved_ports = put name m.next m.reserved_ports;
  used_ports = put port m.next m.used_ports;
  free_ports = del port m.free_ports;
  ctxs = λ r.
      if m.next == r
      then (record { proxy_name = name; port = port; closed = false; update_time = now })
      else m.ctxs r;
  next = m.next + 1;
}

-- the port that the reservation of `name` names, if the host has it free
pub reserved_port : (ℕ → Bool) → String → Manager → Option ℕ
reserved_port free_on_host name m = elim (get name m.reserved_ports) [
  | none ↦ none
  | some r ↦ let port = (m.ctxs r).port in if free_on_host port then some port else none
]

-- at most five ports are tried, in the order in which the map gives them
pub random_port : (ℕ → Bool) → ℕ → Dict ℕ (Unit {0}) → Option ℕ
random_port free_on_host count [] = none
random_port free_on_host count ((k, _) ∷ rest) =
    let later = random_port free_on_host (count + 1) rest in
    if ltb 5 (count + 1) then none else if free_on_host k then some k else later

pub acquire_random : (ℕ → Bool) → String → ℕ → Manager → Acquired × Manager
unfolding random_port take_port
acquire_random free_on_host name now m = elim (random_port free_on_host 0 m.free_ports) [
  | none ↦ (err no_available_port, m)
  | some k ↦ (if k == 0 then err no_available_port else ok k, take_port name k now m)
]

pub acquire_specified : (ℕ → Bool) → String → ℕ → ℕ → Manager → Acquired × Manager
unfolding take_port
acquire_specified free_on_host name port now m =
    if has port m.free_ports
    then if free_on_host port
      then (ok port, take_port name port now m)
      else (err port_unavailable, m)
    else if has port m.used_ports
    then (err port_already_used, m)
    else (err port_not_allowed, m)

acquire_any : (ℕ → Bool) → String → ℕ → Manager → Acquired × Manager
unfolding acquire_random reserved_port
acquire_any free_on_host name now m = elim (reserved_port free_on_host name m) [
  | none ↦ acquire_random free_on_host name now m
  | some port ↦ (ok port, take_port name port now m)
]

pub acquire : (ℕ → Bool) → String → ℕ → ℕ → Manager → Acquired × Manager
unfolding acquire_any acquire_specified
acquire free_on_host name port now m =
    if port == 0
    then acquire_any free_on_host name now m
    else acquire_specified free_on_host name port now m

pub release : ℕ → ℕ → Manager → Manager
release port now m = elim (get port m.used_ports) [
  | none ↦ m
  | some r ↦ record m {
    free_ports = put port tt m.free_ports;
    used_ports = del port m.used_ports;
    ctxs = λ q. if r == q then record (m.ctxs r) { closed = true; update_time = now } else m.ctxs q;
  }
]

-- one round of `cleanReservedPortsWorker`
pub is_stale : ℕ → PortCtx → Bool
is_stale now ctx = ctx.closed && ltb max_reserved (now - ctx.update_time)

pub clean_reserved : (ℕ → PortCtx) → ℕ → Dict String ℕ → Dict String ℕ
unfolding is_stale
clean_reserved ctxs now [] = []
clean_reserved ctxs now ((name, r) ∷ rest) =
    let kept = clean_reserved ctxs now rest in
    if is_stale now (ctxs r) then kept else (name, r) ∷ kept

pub clean : ℕ → Manager → Manager
unfolding clean_reserved
clean now m = record m { reserved_ports = clean_reserved m.ctxs now m.reserved_ports }

pub data Call : Type 0 where
  acquires : (ℕ → Bool) → String → ℕ → Call
  releases : ℕ → Call
  cleans : Call

pub step : Manager → ℕ × Call → Manager
step m (now, acquires free_on_host name port) = (acquire free_on_host name port now m).1
step m (now, releases port) = release port now m
step m (now, cleans) = clean now m

pub run : Manager → List (ℕ × Call) → Manager
run m [] = m
run m (c ∷ cs) = run (step m c) cs
