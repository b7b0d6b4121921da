-- ===== src/Ports/Invariant.antt =====
-- The bookkeeping of the port manager: free and used ports split the allowed ones.
use cnfrp.Common.{
  ℕ, zero, suc, ◌+◌, ◌-◌, ◌<◌, String, ◌≡◌, refl, Bool, true, false, ◌&&◌, ◌||◌, none, some, List,
  [], ◌∷◌, arith, Option-cases, Bool-cases, inl, inr, nat_eq, string_eq, ◌==◌, ltb, leb,
  if◌then◌else◌, eqb_iff, str_eq_iff, any,
}
use cnfrp.Common.Dict.{Dict, get, put, has, get-put, get-del, get-empty, Distinct, put-Distinct}
use cnfrp.Ports.{
  PortCtx, Manager, PortsRange, Call, acquires, releases, cleans, take_port, reserved_port,
  random_port, acquire_random, acquire_specified, acquire_any, acquire, release, is_stale,
  clean_reserved, clean, step, run, new_manager, allowed_ports, add_ports, add_ranges, min_port,
  max_port,
}

pub record Inv (allowed : ℕ → Bool) (m : Manager) : Type 0 where
  pub disjoint : (p : ℕ) → (has p m.free_ports && has p m.used_ports) ≡ false
  pub total : (p : ℕ) → (has p m.free_ports || has p m.used_ports) ≡ allowed p
  pub reserved :
      (n : String) (r : ℕ) → get n m.reserved_ports ≡ some r → allowed (m.ctxs r).port ≡ true
  pub reserved_below : (n : String) (r : ℕ) → get n m.reserved_ports ≡ some r → r < m.next
  pub used : (p r : ℕ) → get p m.used_ports ≡ some r → (m.ctxs r).port ≡ p
  pub used_below : (p r : ℕ) → get p m.used_ports ≡ some r → r < m.next
  pub distinct : Distinct m.reserved_ports

module _ (allowed : ℕ → Bool) (m : Manager) (v : Inv allowed m) where
  take_port-Inv :
      (name : String) (port now : ℕ) → allowed port ≡ true → Inv allowed (take_port name port now m)
  unfolding take_port
  take_port-Inv name port now h = record {
    disjoint = λ p.
        ground
          (arith, v.disjoint p, get-put port p m.next m.used_ports, get-del port p m.free_ports);
    total = λ p. ground (
      arith,
      v.total p,
      eqb_iff port p,
      get-put port p m.next m.used_ports,
      get-del port p m.free_ports,
    );
    reserved = λ n r e.
        ground
          (arith, get-put name n m.next m.reserved_ports, v.reserved n r, v.reserved_below n r);
    reserved_below =
        λ n r e. ground (arith, get-put name n m.next m.reserved_ports, v.reserved_below n r);
    used =
        λ p r e. ground (arith, get-put port p m.next m.used_ports, v.used p r, v.used_below p r);
    used_below = λ p r e. ground (arith, get-put port p m.next m.used_ports, v.used_below p r);
    distinct = put-Distinct name m.next m.reserved_ports v.distinct;
  }

  release-Inv : (port now : ℕ) → Inv allowed (release port now m)
  unfolding release
  release-Inv port now = record {
    disjoint = λ p.
        ground (arith, v.disjoint p, get-put port p tt m.free_ports, get-del port p m.used_ports);
    total = λ p. ground (
      arith,
      v.total p,
      eqb_iff port p,
      get-put port p tt m.free_ports,
      get-del port p m.used_ports,
    );
    reserved = λ n r e. ground (arith, v.reserved n r);
    reserved_below = λ n r e. ground (arith, v.reserved_below n r);
    used = λ p r e. ground (arith, get-del port p m.used_ports, v.used p r);
    used_below = λ p r e. ground (arith, get-del port p m.used_ports, v.used_below p r);
    distinct = ground arith;
  }

-- A name that the sweep leaves had the same reservation before: one is dropped, never moved. A
-- name whose first entry goes could show a second, so no name may stand twice.
pub get-clean_reserved :
    (ctxs : ℕ → PortCtx) (now : ℕ) (n : String) (l : Dict String ℕ)
    → Distinct l
    → get n (clean_reserved ctxs now l)
      ≡ elim (get n l) [ none ↦ none | some r ↦ if is_stale now (ctxs r) then none else some r ]
unfolding clean_reserved get
get-clean_reserved ctxs now n [] d = refl
get-clean_reserved ctxs now n ((k, r) ∷ l) d =
    ground (arith, str_eq_iff k n, get-clean_reserved ctxs now n l d.1)

clean_reserved-Distinct :
    (ctxs : ℕ → PortCtx) (now : ℕ) (l : Dict String ℕ)
    → Distinct l
    → Distinct (clean_reserved ctxs now l)
unfolding clean_reserved
clean_reserved-Distinct ctxs now [] d = tt
clean_reserved-Distinct ctxs now ((k, r) ∷ l) d =
    ground (arith, get-clean_reserved ctxs now k l d.1, clean_reserved-Distinct ctxs now l d.1)

pub random_port-free :
    (free_on_host : ℕ → Bool) (count : ℕ) (l : Dict ℕ (Unit {0})) (k : ℕ)
    → random_port free_on_host count l ≡ some k
    → (has k l ≡ true) × (free_on_host k ≡ true)
unfolding random_port get
random_port-free free_on_host count [] k e = ground arith
random_port-free free_on_host count ((j, u) ∷ l) k e =
    ground (arith, eqb_iff j k, random_port-free free_on_host (count + 1) l k)

module _ (allowed : ℕ → Bool) (m : Manager) (v : Inv allowed m) where
  clean-Inv : (now : ℕ) → Inv allowed (clean now m)
  unfolding clean
  clean-Inv now = record {
    disjoint = v.disjoint;
    total = v.total;
    reserved = λ n r e.
        ground (arith, v.reserved n r, get-clean_reserved m.ctxs now n m.reserved_ports v.distinct);
    reserved_below = λ n r e.
        ground (
          arith,
          v.reserved_below n r,
          get-clean_reserved m.ctxs now n m.reserved_ports v.distinct,
        );
    used = v.used;
    used_below = v.used_below;
    distinct = clean_reserved-Distinct m.ctxs now m.reserved_ports v.distinct;
  }

  allowed_of_free : (p : ℕ) → has p m.free_ports ≡ true → allowed p ≡ true
  allowed_of_free p h = ground (arith, v.total p)

  allowed_of_reserved :
      (free_on_host : ℕ → Bool) (name : String) (p : ℕ)
      → reserved_port free_on_host name m ≡ some p
      → allowed p ≡ true
  unfolding reserved_port
  allowed_of_reserved free_on_host name p e = elim (Option-cases (get name m.reserved_ports)) [
    | inl h ↦ ground arith
    | inr (r, h) ↦ ground (arith, v.reserved name r)
  ]

  acquire_random-Inv :
      (free_on_host : ℕ → Bool) (name : String) (now : ℕ)
      → Inv allowed (acquire_random free_on_host name now m).1
  unfolding acquire_random
  acquire_random-Inv free_on_host name now =
      elim (Option-cases (random_port free_on_host 0 m.free_ports)) [
        | inl h ↦ rw (h, acquire_random) v
        | inr (k, h) ↦
            rw (h, acquire_random)
              (take_port-Inv allowed m v name k now
                (allowed_of_free k (random_port-free free_on_host 0 m.free_ports k h).0))
      ]

  acquire_specified_cases :
      (P : Manager → Type 0) (free_on_host : ℕ → Bool) (name : String) (port now : ℕ)
      → P m
      → (has port m.free_ports ≡ true → P (take_port name port now m))
      → P (acquire_specified free_on_host name port now m).1
  unfolding acquire_specified
  acquire_specified_cases P free_on_host name port now same taken = ground arith

  acquire_specified-Inv :
      (free_on_host : ℕ → Bool) (name : String) (port now : ℕ)
      → Inv allowed (acquire_specified free_on_host name port now m).1
  acquire_specified-Inv free_on_host name port now =
      acquire_specified_cases (Inv allowed) free_on_host name port now v
        (λ h. take_port-Inv allowed m v name port now (allowed_of_free port h))

  acquire-Inv :
      (free_on_host : ℕ → Bool) (name : String) (port now : ℕ)
      → Inv allowed (acquire free_on_host name port now m).1
  unfolding acquire
  acquire-Inv free_on_host name port now = elim (Bool-cases (port == 0)) [
    | inl z ↦ rw z (elim (Option-cases (reserved_port free_on_host name m)) [
      | inl h ↦ rw (h, acquire_any) (acquire_random-Inv free_on_host name now)
      | inr (p, h) ↦
          rw (h, acquire_any)
            (take_port-Inv allowed m v name p now (allowed_of_reserved free_on_host name p h))
    ])
    | inr z ↦ rw z (acquire_specified-Inv free_on_host name port now)
  ]

  pub step-Inv : (c : ℕ × Call) → Inv allowed (step m c)
  unfolding step
  step-Inv (now, acquires free_on_host name port) = acquire-Inv free_on_host name port now
  step-Inv (now, releases port) = release-Inv allowed m v port now
  step-Inv (now, cleans) = clean-Inv now

-- What the configuration allows: the single ports and the ranges, or all ports if none is given.
abbrev pub in_range : ℕ → PortsRange → Bool
in_range p r = if ltb 0 r.single then r.single == p else leb r.start p && leb p r.last

pub is_allowed : List PortsRange → ℕ → Bool
is_allowed [] p = leb min_port p && leb p max_port
is_allowed (r ∷ rs) p = in_range p r || any (in_range p) rs

has-add_ports :
    (i n p : ℕ) (free : Dict ℕ (Unit {0}))
    → has p (add_ports i n free) ≡ ((leb i p && ltb p (i + n)) || has p free)
unfolding add_ports
has-add_ports i zero p free = ground arith
has-add_ports i (suc n) p free =
    ground (arith, has-add_ports (i + 1) n p (put i tt free), get-put i p tt free, eqb_iff i p)

has-add_ranges :
    (rs : List PortsRange) (p : ℕ) (free : Dict ℕ (Unit {0}))
    → has p (add_ranges rs free) ≡ (any (in_range p) rs || has p free)
unfolding add_ranges
has-add_ranges [] p free = refl
has-add_ranges (r ∷ rs) p free = ground (
  arith,
  eqb_iff r.single p,
  has-add_ranges rs p (put r.single tt free),
  has-add_ranges rs p (add_ports r.start (r.last + 1 - r.start) free),
  get-put r.single p tt free,
  has-add_ports r.start (r.last + 1 - r.start) p free,
)

-- A new manager has free exactly the allowed ports.
pub has-new_manager :
    (rs : List PortsRange) (p : ℕ) → has p (new_manager rs).free_ports ≡ is_allowed rs p
unfolding new_manager allowed_ports is_allowed
has-new_manager [] p =
    ground
      (arith, has-add_ports min_port (max_port + 1 - min_port) p [], get-empty {V = Unit {0}} p)
has-new_manager (r ∷ rs) p =
    ground (arith, has-add_ranges (r ∷ rs) p [], get-empty {V = Unit {0}} p)

new_manager-Inv : (rs : List PortsRange) → Inv (is_allowed rs) (new_manager rs)
unfolding new_manager get
new_manager-Inv rs = record {
  disjoint = λ p. ground arith;
  total = λ p. ground (arith, has-new_manager rs p);
  reserved = λ n r e. cc;
  reserved_below = λ n r e. cc;
  used = λ p r e. cc;
  used_below = λ p r e. cc;
  distinct = tt;
}

run-Inv :
    (allowed : ℕ → Bool) (m : Manager) (cs : List (ℕ × Call))
    → Inv allowed m
    → Inv allowed (run m cs)
unfolding run
run-Inv allowed m [] v = v
run-Inv allowed m (c ∷ cs) v = run-Inv allowed (step m c) cs (step-Inv allowed m v c)

-- After any calls of acquire, release and the cleaning round on a new port manager, with any
-- answers of the host: a port is free or used exactly if the configuration allows it, it is never
-- both, the context of a used port names that port, and the port of every reservation is allowed.
pub run-new_manager-Inv :
    (rs : List PortsRange) (cs : List (ℕ × Call)) → Inv (is_allowed rs) (run (new_manager rs) cs)
run-new_manager-Inv rs cs = run-Inv (is_allowed rs) (new_manager rs) cs (new_manager-Inv rs)
