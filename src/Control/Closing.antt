-- ===== src/Control/Closing.antt =====
-- What the closing of a proxy, and the end of a session, keep of the agreement.
use cnfrp.Common.{
  ℕ, ◌≡◌, refl, sym, subst, ap, ◌∙◌, String, Bool, true, false, Option, none, some, [], ◌∷◌,
  if◌then◌else◌, is_some, ◌==◌, string_eq, str_eq_iff, arith, Bool-cases, Option-cases, inl, inr,
  ◌≢◌, same_self,
}
use cnfrp.Common.Dict.{Dict, get, del, get-del, Distinct}
use cnfrp.Control.{
  Proxy, Control, count_down, close_proxy, close_all, Server, control_of, new_control,
}
use cnfrp.Control.Limits.{Counted, close_proxy-Counted}
use cnfrp.Control.Agreement.{owned, Named, Inv, Fits}

owned-some :
    (k : String) (o : Option Proxy) (p : Proxy) → owned k o ≡ some p → (o ≡ some p) × (p.run_id ≡ k)
owned-some k none p e = cc
owned-some k (some q) p e = elim (Bool-cases (q.run_id == k)) [
  | inl same ↦
      let f : ◌≡◌ {A = Option Proxy} (some q) (some p) =
        subst (λ (b : Bool). (if b then some q else none) ≡ some p) same e in
      (f, ground (arith, str_eq_iff q.run_id k))
  | inr other ↦
      let f : ◌≡◌ {A = Option Proxy} none (some p) =
        subst (λ (b : Bool). (if b then some q else none) ≡ some p) other e in
      cc
]

abbrev closed : ℕ → String → Proxy → Control → Dict String Proxy → Control × Dict String Proxy
closed max name p c m = (record (count_down max p c) { proxies = del name c.proxies }, del p.name m)

close_proxy-some :
    (max : ℕ) (name : String) (p : Proxy) (c : Control) (m : Dict String Proxy)
    → get name c.proxies ≡ some p
    → close_proxy max name c m ≡ closed max name p c m
unfolding close_proxy
close_proxy-some max name p c m e = rw (close_proxy, e) refl

pub close-Fits :
    (s : Server) (k name : String)
    → Inv s
    → Fits s k (close_proxy s.max_ports_per_client name (control_of k s) s.pxys)
unfolding close_proxy
close-Fits s k name (sync, (counted, named)) =
    elim (Option-cases (get name (control_of k s).proxies)) [
      | inl e ↦ rw (close_proxy, e) (sync k, ((λ j n ne. refl), (counted k, named)))
      | inr (p, e) ↦
          let count =
            close_proxy-Counted s.max_ports_per_client name (control_of k s) s.pxys (counted k) in
          let eq = close_proxy-some s.max_ports_per_client name p (control_of k s) s.pxys e in
          let (there, mine) = owned-some k (get name s.pxys) p (sym (sync k name) ∙ e) in
          let named_so : p.name ≡ name = named name p there in
          subst (Fits s k) (sym eq) (
            (λ n. ground (
              arith,
              get-del name n (control_of k s).proxies,
              get-del p.name n s.pxys,
              sync k n,
              str_eq_iff name n,
              str_eq_iff p.name n,
            )),
            (
              (λ j n ne.
                  ground
                    (arith, get-del p.name n s.pxys, str_eq_iff p.name n, str_eq_iff p.run_id j)),
              (
                subst (λ (r : Control × Dict String Proxy). Counted s.max_ports_per_client r.0) eq
                    count,
                λ n q found.
                    ground (arith, get-del p.name n s.pxys, str_eq_iff p.name n, named n q),
              ),
            ),
          )
    ]

-- whether a session has a proxy of the name
abbrev holds_name : String → Dict String Proxy → Bool
holds_name n [] = false
holds_name n ((j, p) ∷ ps) = if p.name == n then true else holds_name n ps

get-close_all :
    (ps m : Dict String Proxy) (n : String)
    → get n (close_all ps m) ≡ (if holds_name n ps then none else get n m)
unfolding close_all
get-close_all [] m n = refl
get-close_all ((j, p) ∷ ps) m n =
    ground (arith, get-close_all ps (del p.name m) n, get-del p.name n m)

holds_name-get :
    (ps : Dict String Proxy) (n : String)
    → Distinct ps
    → Named ps
    → holds_name n ps ≡ is_some (get n ps)
unfolding get
holds_name-get [] n d h = refl
holds_name-get ((j, p) ∷ ps) n d h =
    let own_name : p.name ≡ j = h j p (rw (same_self j) refl) in
    let rest : Named ps = λ i q e. h i q (ground (arith, str_eq_iff j i, d.0)) in
    ground (arith, holds_name-get ps n d.1 rest, str_eq_iff p.name n, str_eq_iff j n)

gone : (k : String) (o : Option Proxy) → owned k (if is_some (owned k o) then none else o) ≡ none
gone k none = refl
gone k (some p) = ground arith

stays :
    (k j : String) (o : Option Proxy)
    → j ≢ k
    → owned j (if is_some (owned k o) then none else o) ≡ owned j o
stays k j none ne = refl
stays k j (some p) ne = ground (arith, str_eq_iff p.run_id k, str_eq_iff p.run_id j)

kept :
    (k : String) (o : Option Proxy) (q : Proxy)
    → (if is_some (owned k o) then none else o) ≡ some q
    → o ≡ some q
kept k none q e = e
kept k (some p) q e = ground arith

pub all_closed-Fits :
    (s : Server) (k : String)
    → Inv s
    → Fits s k (new_control, close_all (control_of k s).proxies s.pxys)
unfolding get
all_closed-Fits s k (sync, (counted, named)) =
    let ps = (control_of k s).proxies in
    let names : Named ps =
      λ n p e. named n p (owned-some k (get n s.pxys) p (sym (sync k n) ∙ e)).0 in
    let all : (n : String)
        → get n (close_all ps s.pxys)
          ≡ (if is_some (owned k (get n s.pxys)) then none else get n s.pxys) =
      λ n.
        get-close_all ps s.pxys n
        ∙ ap (λ (b : Bool). if b then none else get n s.pxys)
            (holds_name-get ps n (counted k).0 names ∙ ap is_some (sync k n)) in
    (
      (λ n. sym (ap (owned k) (all n) ∙ gone k (get n s.pxys))),
      (
        (λ j n ne. ap (owned j) (all n) ∙ stays k j (get n s.pxys) ne),
        (
          (tt, λ l. (refl, omega arith)),
          λ n q e. named n q (kept k (get n s.pxys) q (sym (all n) ∙ e)),
        ),
      ),
    )
