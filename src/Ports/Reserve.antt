-- ===== src/Ports/Reserve.antt =====
-- What `Acquire` and `Release` answer, and what they leave alone.
use cnfrp.Common.{
  ℕ, zero, suc, ◌-◌, ◌+◌, ◌≤◌, String, ◌≡◌, refl, Bool, true, false, Option, none, some, arith,
  Option-cases, Bool-cases, inl, inr, nat_eq, string_eq, ◌==◌, ltb, if◌then◌else◌, eqb_iff,
  str_eq_iff, same_self, ◌≢◌, ◌⊎◌, ◌∙◌,
}
use cnfrp.Common.Dict.{get, has, get-put, get-del, get-put_self, get-del_self}
use cnfrp.Ports.{
  PortCtx, Manager, take_port, reserved_port, ok, err, Acquired, random_port, acquire_random,
  acquire_specified, acquire_any, acquire, release, is_stale, clean, max_reserved,
}
use cnfrp.Ports.Invariant.{Inv, random_port-free, get-clean_reserved}

-- What a successful call leaves: `port` is used, by a new context of `name` that is also its
-- reservation, and it is not free; every other port, reservation and context is as before.
pub record Taken (name : String) (port now : ℕ) (m m' : Manager) : Type 0 where
  pub used : get port m'.used_ports ≡ some m.next
  pub not_free : has port m'.free_ports ≡ false
  pub mine : get name m'.reserved_ports ≡ some m.next
  pub ctx :
      m'.ctxs m.next ≡ record { proxy_name = name; port = port; closed = false; update_time = now }
  pub next : m'.next ≡ m.next + 1
  pub others_ctx : (r : ℕ) → r ≢ m.next → m'.ctxs r ≡ m.ctxs r
  pub others_used : (q : ℕ) → q ≢ port → get q m'.used_ports ≡ get q m.used_ports
  pub others_free : (q : ℕ) → q ≢ port → has q m'.free_ports ≡ has q m.free_ports
  pub others_reserved : (n : String) → n ≢ name → get n m'.reserved_ports ≡ get n m.reserved_ports

take_port-Taken :
    (name : String) (port now : ℕ) (m : Manager) → Taken name port now m (take_port name port now m)
unfolding take_port
take_port-Taken name port now m = record {
  used = get-put_self port m.next m.used_ports;
  not_free = rw get-del_self;
  mine = get-put_self name m.next m.reserved_ports;
  ctx = rw (same_self m.next);
  next = refl;
  others_ctx = λ r h. ground (arith, eqb_iff m.next r);
  others_used = λ q h. ground (arith, eqb_iff port q, get-put port q m.next m.used_ports);
  others_free = λ q h. ground (arith, eqb_iff port q, get-del port q m.free_ports);
  others_reserved =
      λ n h. ground (arith, str_eq_iff name n, get-put name n m.next m.reserved_ports);
}

-- The reservation of a name: the port of the context that it points at.
abbrev pub reservation : String → Manager → Option ℕ
reservation name m = elim (get name m.reserved_ports) [
  | none ↦ none
  | some r ↦ some (m.ctxs r).port
]

-- Where 0 is no allowed port, `acquire` either answers with an error and changes nothing, or it
-- answers with a port that the host has free, that was free or is the reservation of the name, and
-- that is now taken. A port that was asked for is the one that is answered.
abbrev pub Outcome : (ℕ → Bool) → String → ℕ → ℕ → Manager → Acquired × Manager → Type 0
Outcome free_on_host name port now m (err e, m') = m' ≡ m
Outcome free_on_host name port now m (ok p, m') =
    (free_on_host p ≡ true)
    × ((has p m.free_ports ≡ true) ⊎ ((port ≡ 0) × (reservation name m ≡ some p)))
    × ((port ≡ 0) ⊎ (p ≡ port))
    × Taken name p now m m'

acquire_specified-Outcome :
    (free_on_host : ℕ → Bool) (name : String) (port now : ℕ) (m : Manager)
    → Outcome free_on_host name port now m (acquire_specified free_on_host name port now m)
unfolding acquire_specified
acquire_specified-Outcome free_on_host name port now m = elim (Bool-cases (has port m.free_ports)) [
  | inl h ↦ elim (Bool-cases (free_on_host port)) [
    | inl g ↦ rw (h, g) (g, inl h, inr refl, take_port-Taken name port now m)
    | inr g ↦ rw (h, g) refl
  ]
  | inr h ↦
      rw h (elim (Bool-cases (has port m.used_ports)) [ inl g ↦ rw g refl | inr g ↦ rw g refl ])
]

acquire_random-Outcome :
    (free_on_host : ℕ → Bool) (name : String) (now : ℕ) (m : Manager)
    → has 0 m.free_ports ≡ false
    → Outcome free_on_host name 0 now m (acquire_random free_on_host name now m)
unfolding acquire_random
acquire_random-Outcome free_on_host name now m z =
    elim (Option-cases (random_port free_on_host 0 m.free_ports)) [
      | inl h ↦ rw (h, acquire_random) refl
      | inr (k, h) ↦
          let found = random_port-free free_on_host 0 m.free_ports k h in
          let nonzero : (k == 0) ≡ false = ground (arith, eqb_iff k 0) in
          rw (h, acquire_random)
            (rw nonzero (found.1, inl found.0, inl refl, take_port-Taken name k now m))
    ]

reserved_port-reservation :
    (free_on_host : ℕ → Bool) (name : String) (p : ℕ) (m : Manager)
    → reserved_port free_on_host name m ≡ some p
    → (free_on_host p ≡ true) × (reservation name m ≡ some p)
unfolding reserved_port
reserved_port-reservation free_on_host name p m e = ground arith

-- Where port 0 is not free, an acquire that answers with an error changes nothing. One that answers
-- with a port found that port free on the host, and either free on record or, for a call with port
-- 0, the reservation of the name; a port that was asked for is the one answered; that port is then
-- used and the reservation of the name, by a new open context, and no longer free; every other
-- port, every other reservation and every other context is as before.
pub acquire-Outcome :
    (free_on_host : ℕ → Bool) (name : String) (port now : ℕ) (m : Manager)
    → has 0 m.free_ports ≡ false
    → Outcome free_on_host name port now m (acquire free_on_host name port now m)
unfolding acquire
acquire-Outcome free_on_host name zero now m z =
    elim (Option-cases (reserved_port free_on_host name m)) [
      | inl h ↦ rw (h, acquire_any) (acquire_random-Outcome free_on_host name now m z)
      | inr (p, h) ↦
          let found = reserved_port-reservation free_on_host name p m h in
          rw (h, acquire_any) (found.0, inr (refl, found.1), inl refl, take_port-Taken name p now m)
    ]
acquire-Outcome free_on_host name (suc port) now m z =
    let given : (suc port == 0) ≡ false = ground arith in
    rw given (acquire_specified-Outcome free_on_host name (suc port) now m)

-- the reserved port of a name
acquire-reservation :
    (free_on_host : ℕ → Bool) (name : String) (p now : ℕ) (m : Manager)
    → reservation name m ≡ some p
    → free_on_host p ≡ true
    → (acquire free_on_host name 0 now m).0 ≡ ok p
unfolding acquire
acquire-reservation free_on_host name p now m e h = ground (arith)

-- After `release` of the port that `name` holds, and one round of the cleaning worker at time `t`,
-- the reservation of `name` is that port, unless more than 24 hours have passed: then it is gone.
pub reservation-clean-release :
    (allowed : ℕ → Bool) (m : Manager) (name : String) (p r now t : ℕ)
    → Inv allowed m
    → get p m.used_ports ≡ some r
    → get name m.reserved_ports ≡ some r
    → reservation name (clean t (release p now m))
      ≡ (if ltb max_reserved (t - now) then none else some p)
unfolding release clean is_stale
reservation-clean-release allowed m name p r now t v u g =
    let ctxs' : ℕ → PortCtx =
      λ q. if r == q then record (m.ctxs r) { closed = true; update_time = now } else m.ctxs q in
    ground
      (arith, v.used p r, eqb_iff r r, get-clean_reserved ctxs' t name m.reserved_ports v.distinct)

-- In a manager that keeps its invariant, a name that holds a port, gives it back and asks for any
-- port again gets the same port, if the host has it free and at most 24 hours lay between the
-- release and a cleaning round.
pub acquire-clean-release :
    (allowed : ℕ → Bool) (m : Manager) (free_on_host : ℕ → Bool) (name : String)
    (p r now t later : ℕ)
    → Inv allowed m
    → get p m.used_ports ≡ some r
    → get name m.reserved_ports ≡ some r
    → t - now ≤ max_reserved
    → free_on_host p ≡ true
    → (acquire free_on_host name 0 later (clean t (release p now m))).0 ≡ ok p
acquire-clean-release allowed m free_on_host name p r now t later v u g h f =
    acquire-reservation free_on_host name p later (clean t (release p now m))
      (reservation-clean-release allowed m name p r now t v u g ∙ ground arith) f
