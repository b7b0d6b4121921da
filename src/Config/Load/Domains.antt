-- ===== src/Config/Load/Domains.antt =====
-- pkg/config/load.go and pkg/config/v1/validation/proxy.go: the domains of a proxy that the server
-- takes.
use cnfrp.Common.{
  ℕ, string_eq, ◌<◌, ◌≡◌, ◌≢◌, refl, sym, ap, subst, ◌∙◌, Bool, true, false, not, ◌&&◌, ◌||◌,
  Option, none, some, List, [], ◌∷◌, ◌++◌, String, ◌==◌, ◌⊎◌, inl, inr, All, any, eqb, length,
  if◌then◌else◌, Bool-cases, arith,
}
use cnfrp.Common.Bytes.{Text, text_eq, text_beq, text_beq_self, split, split_at}
use cnfrp.Common.Integer.{ℤ}
use cnfrp.Config.Values.{str_or}
use cnfrp.Config.Proxy.Announce.{unmarshal_from_msg}
use cnfrp.Message.{NewProxy}
use cnfrp.Config.Server.{ServerConfig}
use cnfrp.Config.Proxy.{
  ProxyConfigurer, DomainConfig, tcp, udp, http, https, tcpmux, stcp, xtcp, sudp, complete,
  new_proxy_configurer_by_type,
}
use cnfrp.Config.Validate.Proxy.{
  ProxyError, validate_proxy_for_server, or_else, has_suffix, below_host, validate_custom_domains,
  validate_subdomain, validate_domain_for_server, validate_http_for_server,
  validate_https_for_server, validate_tcpmux_for_server, unset, unknown_proxy_type,
}
use cnfrp.Config.Load.{checked, from_typed, new_proxy_configurer_from_msg}

dots :
    (sep : ℕ) (front host : Text)
    → length (split_at sep host).1 < length (split_at sep (front ++ (sep ∷ host))).1
unfolding split_at
dots sep [] host = ground arith
dots sep (c ∷ front) host = ground (arith, dots sep front host)

suffix : (front host : Text) → has_suffix (front ++ host) host ≡ true
unfolding has_suffix text_beq
suffix [] [] = refl
suffix [] (c ∷ host) = ground (arith, text_beq_self host)
suffix (c ∷ front) host = ground (arith, suffix front host)

-- A name that ends in a dot and the host is below it.
below_host-append :
    (front host : Text) → (host == []) ≡ false → below_host host (front ++ (b'.' ∷ host)) ≡ true
unfolding below_host split
below_host-append front host h = ground (arith, dots b'.' front host, suffix front (b'.' ∷ host))

-- A domain that is not below the host.
abbrev pub Outside : Text → Text → Type 0
Outside host domain = (front : Text) → domain ≢ front ++ (b'.' ∷ host)

below_host-Outside :
    (host domain : Text)
    → (host == []) ≡ false
    → below_host host domain ≡ false
    → Outside host domain
below_host-Outside host domain full h front e =
    let below : true ≡ false =
      sym (below_host-append front host full) ∙ (ap (below_host host) (sym e) ∙ h) in
    cc

or_else-none {ℓ} : {E : Type ℓ} (a b : Option E) → or_else a b ≡ none → (a ≡ none) × (b ≡ none)
unfolding or_else
or_else-none none b h = (refl, h)
or_else-none (some e) b h = cc

-- No error: the test failed, and what follows has no error.
if_none {ℓ} :
    {E : Type ℓ} (b : Bool) (e : E) (later : Option E)
    → (if b then some e else later) ≡ none
    → (b ≡ false) × (later ≡ none)
if_none true e later h = cc
if_none false e later h = (refl, h)

unless_none {ℓ} :
    {E : Type ℓ} (b : Bool) (o : Option E)
    → b ≡ false
    → (if not b then o else none) ≡ none
    → o ≡ none
unless_none true o e h = cc
unless_none false o e h = h

validate_custom_domains-none :
    (host : Text) (domains : List Text)
    → (host == []) ≡ false
    → validate_custom_domains host domains ≡ none
    → All (Outside host) domains
unfolding validate_custom_domains
validate_custom_domains-none host [] full h = tt
validate_custom_domains-none host (d ∷ rest) full h =
    let (e, later) = if_none (below_host host d) _ _ h in
    (below_host-Outside host d full e, validate_custom_domains-none host rest full later)

-- A subdomain is a single label, on a server that has a host for subdomains.
abbrev pub OneLabel : Text → Text → Type 0
OneLabel host sub_domain =
    (sub_domain == [] ≡ true)
    ⊎ ((host == []) ≡ false)
      × (any (λ c. eqb c b'.') sub_domain ≡ false)
      × (any (λ c. eqb c b'*') sub_domain ≡ false)

or_false : (a b : Bool) → (a || b) ≡ false → (a ≡ false) × (b ≡ false)
or_false true b h = cc
or_false false b h = (refl, h)

validate_subdomain-none :
    (host sub_domain : Text) → validate_subdomain host sub_domain ≡ none → OneLabel host sub_domain
unfolding validate_subdomain
validate_subdomain-none host sub_domain h = elim (Bool-cases (sub_domain == [])) [
  | inl e ↦ inl e
  | inr e ↦
      let (full, rest) = if_none (host == []) _ _ (unless_none _ _ e h) in
      let (labels, end) =
        if_none (any (λ c. eqb c b'.') sub_domain || any (λ c. eqb c b'*') sub_domain) _ _ rest in
      let (dot, star) = or_false _ _ labels in inr (full, dot, star)
]

abbrev pub ServableDomains : ServerConfig → DomainConfig → Type 0
ServableDomains s d =
    ((s.sub_domain_host == []) ≡ false → All (Outside s.sub_domain_host) d.custom_domains)
    × OneLabel s.sub_domain_host d.sub_domain

validate_domain_for_server-none :
    (d : DomainConfig) (s : ServerConfig)
    → validate_domain_for_server d s ≡ none
    → ServableDomains s d
unfolding validate_domain_for_server
validate_domain_for_server-none d s h =
    let (custom, sub) = or_else-none _ _ h in
    (
      λ full. validate_custom_domains-none s.sub_domain_host d.custom_domains full custom,
      validate_subdomain-none s.sub_domain_host d.sub_domain sub,
    )

-- What the server can serve: the front end of the kind is on, and the domains are free to take.
abbrev pub Servable : ServerConfig → ProxyConfigurer → Type 0
Servable s (http c) = (unset s.vhost_http_port ≡ false) × ServableDomains s c.domains
Servable s (https c) = (unset s.vhost_https_port ≡ false) × ServableDomains s c.domains
Servable s (tcpmux c) =
    (((c.multiplexer == "httpconnect") && unset s.tcp_mux_http_connect_port) ≡ false)
    × ServableDomains s c.domains
Servable s (tcp c) = Unit
Servable s (udp c) = Unit
Servable s (stcp c) = Unit
Servable s (xtcp c) = Unit
Servable s (sudp c) = Unit

module _ (qualified_name : Text → List String) (s : ServerConfig) where
  pub valid-Servable :
      (c : ProxyConfigurer) → validate_proxy_for_server qualified_name c s ≡ none → Servable s c
  unfolding validate_proxy_for_server validate_http_for_server validate_https_for_server
      validate_tcpmux_for_server
  valid-Servable (http c) h =
      let (annotations, rest) = or_else-none _ _ h in
      let (port, domains) = if_none _ _ _ rest in
      (port, validate_domain_for_server-none c.domains s domains)
  valid-Servable (https c) h =
      let (annotations, rest) = or_else-none _ _ h in
      let (port, domains) = if_none _ _ _ rest in
      (port, validate_domain_for_server-none c.domains s domains)
  valid-Servable (tcpmux c) h =
      let (annotations, rest) = or_else-none _ _ h in
      let (port, domains) = if_none _ _ _ rest in
      (port, validate_domain_for_server-none c.domains s domains)
  valid-Servable (tcp c) h = tt
  valid-Servable (udp c) h = tt
  valid-Servable (stcp c) h = tt
  valid-Servable (xtcp c) h = tt
  valid-Servable (sudp c) h = tt

  -- by the outcome of the checks
  outcome-Servable :
      (c d : ProxyConfigurer) (o : Option ProxyError)
      → validate_proxy_for_server qualified_name c s ≡ o
      → ◌≡◌ {A = ProxyError ⊎ ProxyConfigurer}
          (elim o [ none ↦ inr c | some err ↦ inl err ])
          (inr d)
      → Servable s d
  outcome-Servable c d none e h =
      let same : c ≡ d = cc in subst (Servable s) same (valid-Servable c e)
  outcome-Servable c d (some err) e h = cc

  typed-Servable :
      (scaled : ℕ → Text → Option ℤ) (m : NewProxy) (c : ProxyConfigurer)
      (o : Option ProxyConfigurer)
      → ◌≡◌ {A = ProxyError ⊎ ProxyConfigurer}
          (elim o [
            | none ↦ inl (unknown_proxy_type m.proxy_type)
            | some configurer ↦
                checked scaled qualified_name s (complete (unmarshal_from_msg scaled configurer m))
          ])
          (inr c)
      → Servable s c
  unfolding checked
  typed-Servable scaled m c none h = cc
  typed-Servable scaled m c (some configurer) h =
      outcome-Servable (complete (unmarshal_from_msg scaled configurer m)) c _ refl h

  -- A proxy that the server takes from an announcement is one that it can serve: the port of its
  -- front end is set (for tcpmux if its multiplexer is httpconnect), its subdomain is empty or, on
  -- a server with a subdomain host, has neither dot nor star, and, if there is a subdomain host, no
  -- custom domain ends in a dot followed by that host.
  pub taken-Servable :
      (scaled : ℕ → Text → Option ℤ) (m : NewProxy) (c : ProxyConfigurer)
      → new_proxy_configurer_from_msg scaled qualified_name s m ≡ inr c
      → Servable s c
  unfolding new_proxy_configurer_from_msg from_typed
  taken-Servable scaled m c h =
      typed-Servable scaled (record m { proxy_type = str_or m.proxy_type "tcp" }) c
        (new_proxy_configurer_by_type (str_or m.proxy_type "tcp")) h
