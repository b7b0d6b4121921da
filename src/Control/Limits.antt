-- ===== src/Control/Limits.antt =====
-- Registration and closing of one proxy: what a refusal leaves, and the count of ports.
use cnfrp.Common.{
  ℕ, ◌+◌, ◌≤◌, ◌≡◌, refl, ap, String, Bool, true, ◌&&◌, none, some, [], ◌∷◌, ltb, not, is_some,
  string_eq, str_eq_iff, arith, if_cases, Bool-cases, Option-cases, inl, inr, ◌⊎◌,
}
use cnfrp.Common.Dict.{Dict, get, put, del, has, Distinct, put-Distinct, del-Distinct}
use cnfrp.Control.{
  Proxy, Control, Registered, add, limited, count_up, count_down, finish, reserved, register_proxy,
  close_proxy,
}

-- the ports of a session's proxies
abbrev pub total : Dict String Proxy → ℕ
total [] = 0
total ((name, p) ∷ ps) = p.used_ports_num + total ps

total-put :
    (name : String) (p : Proxy) (m : Dict String Proxy)
    → get name m ≡ none
    → total (put name p m) ≡ total m + p.used_ports_num
unfolding get put
total-put name p [] e = omega arith
total-put name p ((j, q) ∷ m) e = ground (arith, total-put name p m)

total-del_absent :
    (name : String) (m : Dict String Proxy) → get name m ≡ none → total (del name m) ≡ total m
unfolding get del
total-del_absent name [] e = refl
total-del_absent name ((j, q) ∷ m) e = ground (arith, total-del_absent name m)

total-del :
    (name : String) (p : Proxy) (m : Dict String Proxy)
    → Distinct m
    → get name m ≡ some p
    → total (del name m) + p.used_ports_num ≡ total m
unfolding get del
total-del name p [] d e = cc
total-del name p ((j, q) ∷ m) d e =
    ground (arith, total-del name p m d.1, total-del_absent name m, d.0, str_eq_iff j name)

count_down-count_up : (max : ℕ) (p : Proxy) (c : Control) → count_down max p (count_up max p c) ≡ c
unfolding count_down count_up
count_down-count_up max p c = elim (Bool-cases (limited max)) [
  | inl e ↦ rw e (ap (λ (n : ℕ). record c { ports_used_num = n }) (omega arith))
  | inr e ↦ rw e refl
]

-- the session and the server's map after an accepted registration
abbrev pub entered : ℕ → Proxy → Control → Dict String Proxy → Control × Dict String Proxy
entered max p c m = (
  record (count_up max p c) { proxies = put p.name p (count_up max p c).proxies },
  put p.name p m,
)

-- A registration is refused and changes nothing, or it is accepted, for a name that is free and
-- within the limit.
abbrev pub Outcome : ℕ → Proxy → Control → Dict String Proxy → Registered → Type 0
Outcome max p c m r =
    ((is_some r.0 ≡ true) × (r.1 ≡ (c, m)))
    ⊎ ((r.0 ≡ none)
        × ((r.1 ≡ entered max p c m)
            × ((get p.name m ≡ none)
                × (limited max ≡ true → c.ports_used_num + p.used_ports_num ≤ max))))

undone :
    (max : ℕ) (p : Proxy) (c : Control) (m : Dict String Proxy)
    → ◌≡◌ {A = Control × Dict String Proxy} (count_down max p (count_up max p c), m) (c, m)
undone max p c m = ap (λ (x : Control). (x, m)) (count_down-count_up max p c)

finish-Outcome :
    (max : ℕ) (p : Proxy) (c : Control) (m : Dict String Proxy)
    → (limited max ≡ true → c.ports_used_num + p.used_ports_num ≤ max)
    → Outcome max p c m (finish max p (count_up max p c) (add p.name p m))
unfolding finish add
finish-Outcome max p c m within =
    if_cases
      (λ (a : Bool × Dict String Proxy). Outcome max p c m (finish max p (count_up max p c) a))
      (has p.name m) _ _ (λ used. inl (refl, undone max p c m))
      (λ free. inr (refl, (refl, (ground arith, within))))

-- A registration of a proxy that was made either reports an error and leaves the session, its count
-- of ports included, and the server map as they were, or reports none; then the name was free in
-- the server map, the ports are within the limit if there is one, and the proxy is entered in both
-- maps under its name with its ports counted.
pub register_proxy-Outcome :
    (max : ℕ) (p : Proxy) (seen : Dict String Proxy) (ran : Bool) (c : Control)
    (m : Dict String Proxy)
    → Outcome max p c m (register_proxy max (some p) seen ran c m)
unfolding register_proxy reserved
register_proxy-Outcome max p seen ran c m =
    if_cases (Outcome max p c m) (limited max && ltb max (c.ports_used_num + p.used_ports_num)) _ _
      (λ over. inl (refl, refl))
      (λ fits.
        if_cases (Outcome max p c m) (has p.name seen) _ _ (λ there. inl (refl, undone max p c m))
          (λ free.
            if_cases (Outcome max p c m) (not ran) _ _ (λ failed. inl (refl, undone max p c m))
              (λ runs. finish-Outcome max p c m (λ l. ground arith))))

-- The count of a session with a limit: the ports of its proxies, at most the limit.
abbrev pub Counted : ℕ → Control → Type 0
Counted max c =
    Distinct c.proxies
    × (limited max ≡ true → (c.ports_used_num ≡ total c.proxies) × (c.ports_used_num ≤ max))

pub entered-Counted :
    (max : ℕ) (p : Proxy) (c : Control) (m : Dict String Proxy)
    → get p.name c.proxies ≡ none
    → (limited max ≡ true → c.ports_used_num + p.used_ports_num ≤ max)
    → Counted max c
    → Counted max (entered max p c m).0
unfolding count_up
entered-Counted max p c m free within (d, counted) = elim (Bool-cases (limited max)) [
  | inl l ↦
      rw (count_up, l)
        (
          put-Distinct p.name p c.proxies d,
          λ k. (omega (arith, total-put p.name p c.proxies free, (counted l).0), within l),
        )
  | inr l ↦ rw (count_up, l) (put-Distinct p.name p c.proxies d, λ k. cc)
]

pub close_proxy-Counted :
    (max : ℕ) (name : String) (c : Control) (m : Dict String Proxy)
    → Counted max c
    → Counted max (close_proxy max name c m).0
unfolding close_proxy count_down
close_proxy-Counted max name c m (d, counted) = elim (Option-cases (get name c.proxies)) [
  | inl e ↦ rw (close_proxy, e) (d, counted)
  | inr (p, e) ↦
      rw (close_proxy, e)
        (elim (Bool-cases (limited max)) [
          | inl l ↦
              rw (count_down, l)
                (
                  del-Distinct name c.proxies d,
                  λ k.
                      let t = total-del name p c.proxies d e in
                      (omega (arith, t, (counted l).0), omega (arith, (counted l).1)),
                )
          | inr l ↦ rw (count_down, l) (del-Distinct name c.proxies d, λ k. cc)
        ])
]
