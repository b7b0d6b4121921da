-- ===== src/Control/Agreement.antt =====
-- When the sessions and the server's map agree, and what a registration keeps of it.
use cnfrp.Common.{
  ℕ, ◌+◌, ◌≤◌, ◌≡◌, refl, sym, subst, ap, ◌∙◌, String, Bool, true, Option, none, some,
  if◌then◌else◌, ◌==◌, string_eq, str_eq_iff, arith, if_cases, inl, inr, ◌≢◌,
}
use cnfrp.Common.Dict.{Dict, get, put, get-put}
use cnfrp.Control.{
  Proxy, Control, limited, count_up, register_proxy, Server, control_of, set_control, own,
}
use cnfrp.Control.Limits.{Counted, entered, register_proxy-Outcome, entered-Counted}

-- the proxy of a name in the server's map, if it is that of a session
abbrev pub owned : String → Option Proxy → Option Proxy
owned run_id none = none
owned run_id (some p) = if p.run_id == run_id then some p else none

-- every proxy stands under its name
abbrev pub Named : Dict String Proxy → Type 0
Named m = (name : String) (p : Proxy) → get name m ≡ some p → p.name ≡ name

-- Each session has the proxies of the server's map that are its own, and no others, and its count
-- is right.
abbrev pub Inv : Server → Type 0
Inv s =
    ((run_id name : String)
      → get name (control_of run_id s).proxies ≡ owned run_id (get name s.pxys))
    × (((run_id : String) → Counted s.max_ports_per_client (control_of run_id s)) × Named s.pxys)

control_of-set_control :
    (k j : String) (r : Control × Dict String Proxy) (s : Server)
    → control_of j (set_control k r s) ≡ (if k == j then r.0 else control_of j s)
unfolding control_of set_control
control_of-set_control k j r s = ground (arith, get-put k j r.0 s.controls)

-- What a change of one session has to keep.
abbrev pub Fits : Server → String → Control × Dict String Proxy → Type 0
Fits s k r =
    ((name : String) → get name r.0.proxies ≡ owned k (get name r.1))
    × (((j name : String) → j ≢ k → owned j (get name r.1) ≡ owned j (get name s.pxys))
        × (Counted s.max_ports_per_client r.0 × Named r.1))

abbrev Right : Server → String → Dict String Proxy → Control → Type 0
Right s j m c =
    ((name : String) → get name c.proxies ≡ owned j (get name m)) × Counted s.max_ports_per_client c

fit_at :
    (s : Server) (k : String) (r : Control × Dict String Proxy)
    → Inv s
    → Fits s k r
    → (j : String) → Right s j r.1 (control_of j (set_control k r s))
fit_at s k r (sync, (counted, named)) (mine, (others, (count, names))) j =
    subst (Right s j r.1) (sym (control_of-set_control k j r s)) (
      if_cases (Right s j r.1) (k == j) r.0 (control_of j s)
        (λ e. subst (λ i. Right s i r.1 r.0) ((str_eq_iff k j).0 e) (mine, count))
        (λ e.
          (λ name. sync j name ∙ sym (others j name (ground (arith, str_eq_iff k j))), counted j)))

pub set_control-Inv :
    (s : Server) (k : String) (r : Control × Dict String Proxy)
    → Inv s
    → Fits s k r
    → Inv (set_control k r s)
unfolding set_control
set_control-Inv s k r (sync, (counted, named)) (mine, (others, (count, names))) =
    let at = fit_at s k r (sync, (counted, named)) (mine, (others, (count, names))) in
    (λ j name. (at j).0 name, (λ j. (at j).1, names))

count_up-get :
    (max : ℕ) (p : Proxy) (c : Control) (name : String)
    → get name (put p.name p (count_up max p c).proxies) ≡ get name (put p.name p c.proxies)
unfolding count_up
count_up-get max p c name =
    if_cases
      (λ (x : Control). get name (put p.name p x.proxies) ≡ get name (put p.name p c.proxies))
      (limited max) _ _ (λ e. refl) (λ e. refl)

entered-Fits :
    (s : Server) (k : String) (p : Proxy)
    → Inv s
    → p.run_id ≡ k
    → get p.name s.pxys ≡ none
    → (limited s.max_ports_per_client ≡ true
        → (control_of k s).ports_used_num + p.used_ports_num ≤ s.max_ports_per_client)
    → Fits s k (entered s.max_ports_per_client p (control_of k s) s.pxys)
unfolding count_up
entered-Fits s k p (sync, (counted, named)) mine free within = (
  λ name.
      count_up-get s.max_ports_per_client p (control_of k s) name
      ∙ ground (
        arith,
        get-put p.name name p (control_of k s).proxies,
        get-put p.name name p s.pxys,
        sync k name,
        str_eq_iff p.run_id k,
      ),
  (
    λ j name ne.
        ground (arith, get-put p.name name p s.pxys, str_eq_iff p.name name, str_eq_iff p.run_id j),
    (
      entered-Counted s.max_ports_per_client p (control_of k s) s.pxys
          (sync k p.name ∙ ap (owned k) free) within (counted k),
      λ name q found.
          ground (arith, get-put p.name name p s.pxys, str_eq_iff p.name name, named name q),
    ),
  ),
)

unchanged-Fits : (s : Server) (k : String) → Inv s → Fits s k (control_of k s, s.pxys)
unchanged-Fits s k (sync, (counted, named)) = (sync k, ((λ j n ne. refl), (counted k, named)))

pub register-Fits :
    (s : Server) (k : String) (made : Option (String × ℕ)) (seen : Dict String Proxy) (ran : Bool)
    → Inv s
    → Fits s k
        (register_proxy s.max_ports_per_client (own k made) seen ran (control_of k s) s.pxys).1
unfolding own register_proxy
register-Fits s k none seen ran h = unchanged-Fits s k h
register-Fits s k (some (name, ports)) seen ran h =
    let p : Proxy = record { name = name; used_ports_num = ports; run_id = k } in
    elim (register_proxy-Outcome s.max_ports_per_client p seen ran (control_of k s) s.pxys) [
      | inl (refused, e) ↦ subst (Fits s k) (sym e) (unchanged-Fits s k h)
      | inr (accepted, (e, (free, within))) ↦
          subst (Fits s k) (sym e) (entered-Fits s k p h refl free within)
    ]
