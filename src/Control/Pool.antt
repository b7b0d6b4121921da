-- ===== src/Control/Pool.antt =====
-- server/control.go, `RegisterWorkConn`, `GetWorkConn` and the end of `worker`: the work connections
-- of a session that wait in the channel `workConnCh`. `C` is the type of the connections. A call of
-- GetWorkConn is two steps, one for each of its selects; whether a message to the client is sent is
-- an argument. The size of the pool that the client asks for is not negative here.
pub mod Laws
use cnfrp.Common.{
  ℕ, ◌+◌, ◌≤◌, ◌≡◌, refl, sym, ap, ◌∙◌, Bool, true, false, not, Option, none, some, List, [], ◌∷◌,
  ◌++◌, if◌then◌else◌, ltb, length, arith, if_cases, length-append,
}

-- `workConnCh`: the connections in order, its size and whether it is closed
pub record WorkConns (C : Type 0) : Type 0 where
  pub waiting : List C
  pub size : ℕ
  pub closed : Bool

-- `make(chan net.Conn, poolCount+10)`
abbrev pub new_work_conns : {C : Type 0} → ℕ → WorkConns C
new_work_conns pool_count = record { waiting = []; size = pool_count + 10; closed = false }

pub data RegisterAnswer : Type 0 where
  registered : RegisterAnswer
  pool_full : RegisterAnswer
  -- sending on a closed channel panics; the recovered panic leaves a nil error
  recovered : RegisterAnswer

pub data GetAnswer (C : Type 0) : Type 0 where
  -- the connection, after a message that asks the client for another one
  work_conn : C → GetAnswer C
  ctl_closed : GetAnswer C
  -- the message that asks for a connection could not be sent
  not_sent : GetAnswer C
  -- the second select follows
  asked : GetAnswer C
  timed_out : GetAnswer C

module _ {C : Type 0} where
  unfoldable pub register_work_conn : C → WorkConns C → RegisterAnswer × WorkConns C
  register_work_conn conn p =
      if p.closed
      then (recovered, p)
      else if ltb (length p.waiting) p.size
      then (registered, record p { waiting = p.waiting ++ (conn ∷ []) })
      else (pool_full, p)

  -- the first select of `GetWorkConn`
  unfoldable pub get_work_conn : Bool → WorkConns C → GetAnswer C × WorkConns C
  get_work_conn sent p = elim p.waiting [
    | c ∷ cs ↦ (work_conn c, record p { waiting = cs })
    | [] ↦ if p.closed then (ctl_closed, p) else if sent then (asked, p) else (not_sent, p)
  ]

  -- its second select, which ends by a connection, by the end of the session or in time; where the
  -- time is over, the select may choose that although a connection waits, which `late` tells
  unfoldable pub await_work_conn : Bool → WorkConns C → GetAnswer C × WorkConns C
  await_work_conn true p = (timed_out, p)
  await_work_conn false p = elim p.waiting [
    | c ∷ cs ↦ (work_conn c, record p { waiting = cs })
    | [] ↦ if p.closed then (ctl_closed, p) else (timed_out, p)
  ]

  -- the worker closes the channel and the connections that wait in it, which it answers
  unfoldable pub close_work_conns : WorkConns C → List C × WorkConns C
  close_work_conns p = (p.waiting, record p { waiting = []; closed = true })

-- What happened to connections: `taken` is in the order in which they were registered.
pub record Trace (C : Type 0) : Type 0 where
  pub accepted : List C
  pub handed : List C
  pub dropped : List C

pub data PoolCall (C : Type 0) : Type 0 where
  registers : C → PoolCall C
  gets : Bool → PoolCall C
  awaits : Bool → PoolCall C
  ends : PoolCall C

module _ {C : Type 0} where
  abbrev pub no_trace : Trace C
  no_trace = record { accepted = []; handed = []; dropped = [] }

  abbrev pub handed_by : GetAnswer C → List C
  handed_by (work_conn c) = c ∷ []
  handed_by ctl_closed = []
  handed_by not_sent = []
  handed_by asked = []
  handed_by timed_out = []

  abbrev pub accepted_by : C → RegisterAnswer → List C
  accepted_by c registered = c ∷ []
  accepted_by c pool_full = []
  accepted_by c recovered = []

  unfoldable pub pool_step : WorkConns C × Trace C → PoolCall C → WorkConns C × Trace C
  pool_step (p, t) (registers c) =
      let (answer, after) = register_work_conn c p in
      (after, record t { accepted = t.accepted ++ accepted_by c answer })
  pool_step (p, t) (gets sent) =
      let (answer, after) = get_work_conn sent p in
      (after, record t { handed = t.handed ++ handed_by answer })
  pool_step (p, t) (awaits late) =
      let (answer, after) = await_work_conn late p in
      (after, record t { handed = t.handed ++ handed_by answer })
  pool_step (p, t) ends =
      let (left, after) = close_work_conns p in (after, record t { dropped = t.dropped ++ left })

  unfoldable pub pool_run : WorkConns C × Trace C → List (PoolCall C) → WorkConns C × Trace C
  unfolding pool_step
  pool_run s [] = s
  pool_run s (c ∷ cs) = pool_run (pool_step s c) cs
