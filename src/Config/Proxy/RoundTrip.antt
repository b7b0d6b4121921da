-- ===== src/Config/Proxy/RoundTrip.antt =====
-- pkg/config/v1/proxy.go: what a proxy's configuration is after the client announced it and the
-- server read the announcement.
use cnfrp.Common.{
  ℕ, ◌≡◌, ◌≢◌, refl, sym, ap, subst, ◌∙◌, Bool, Option, none, some, [], String, ◌==◌, string_eq,
  not, if◌then◌else◌, inl, inr, arith, str_eq_iff, Bool-cases,
}
use cnfrp.Common.Bytes.{Text, text_eq, text_beq}
use cnfrp.Common.Integer.{ℤ, pos}
use cnfrp.Message.{empty_message}
use cnfrp.Config.Values.{str_or}
use cnfrp.Config.Bandwidth.{BandwidthQuantity, no_limit, new_bandwidth_quantity, Made}
use cnfrp.Config.Plugin.{no_plugin, complete_plugin}
use cnfrp.Config.Proxy.{
  ProxyBaseConfig, ProxyConfigurer, tcp, udp, http, https, tcpmux, stcp, xtcp, sudp, complete,
  new_base, complete_base, get_base_config, no_health_check, new_proxy_configurer_by_type, new_tcp,
  new_udp, new_http, new_https, new_tcpmux, new_stcp, new_xtcp, new_sudp,
}
use cnfrp.Config.Proxy.Announce.{marshal_base, marshal_to_msg, unmarshal_base, unmarshal_from_msg}

-- What the server knows of a base: what only the client uses has its default.
unfoldable pub transferred_base : ProxyBaseConfig → ProxyBaseConfig
transferred_base c = record c {
  enabled = none;
  transport = record c.transport { proxy_protocol_version = "" };
  health_check = no_health_check;
  backend = record { local_ip = "127.0.0.1"; local_port = pos 0; plugin = no_plugin };
}

unfoldable pub transferred : ProxyConfigurer → ProxyConfigurer
unfolding transferred_base
transferred (tcp c) = tcp (record c { base = transferred_base c.base })
transferred (udp c) = udp (record c { base = transferred_base c.base })
transferred (http c) = http (record c { base = transferred_base c.base })
transferred (https c) = https (record c { base = transferred_base c.base })
transferred (tcpmux c) = tcpmux (record c { base = transferred_base c.base })
transferred (stcp c) = stcp (record c { base = transferred_base c.base })
transferred (xtcp c) = xtcp (record c { base = transferred_base c.base; nat_traversal = none })
transferred (sudp c) = sudp (record c { base = transferred_base c.base })

-- the name of a kind
unfoldable pub kind : ProxyConfigurer → String
kind (tcp c) = "tcp"
kind (udp c) = "udp"
kind (http c) = "http"
kind (https c) = "https"
kind (tcpmux c) = "tcpmux"
kind (stcp c) = "stcp"
kind (xtcp c) = "xtcp"
kind (sudp c) = "sudp"

-- the empty configuration of the same kind
unfoldable pub empty_of : ProxyConfigurer → ProxyConfigurer
empty_of (tcp c) = new_tcp
empty_of (udp c) = new_udp
empty_of (http c) = new_http
empty_of (https c) = new_https
empty_of (tcpmux c) = new_tcpmux
empty_of (stcp c) = new_stcp
empty_of (xtcp c) = new_xtcp
empty_of (sudp c) = new_sudp

pub new_proxy_configurer_by_type-kind :
    (c : ProxyConfigurer) → new_proxy_configurer_by_type (kind c) ≡ some (empty_of c)
unfolding new_proxy_configurer_by_type kind empty_of
new_proxy_configurer_by_type-kind (tcp c) = refl
new_proxy_configurer_by_type-kind (udp c) = refl
new_proxy_configurer_by_type-kind (http c) = refl
new_proxy_configurer_by_type-kind (https c) = refl
new_proxy_configurer_by_type-kind (tcpmux c) = refl
new_proxy_configurer_by_type-kind (stcp c) = refl
new_proxy_configurer_by_type-kind (xtcp c) = refl
new_proxy_configurer_by_type-kind (sudp c) = refl

-- the mode that is read, for a mode that was sent
mode_back :
    (mode : String)
    → mode ≢ ""
    → str_or
        (let sent = if not (mode == "client") then mode else "" in
          if not (sent == "") then sent else "")
        "client"
      ≡ mode
unfolding str_or
mode_back mode h = elim (Bool-cases (mode == "client")) [
  | inl e ↦ rw e (sym ((str_eq_iff mode "client").0 e))
  | inr e ↦ ground (arith, str_eq_iff mode "")
]

module _ (scaled : ℕ → Text → Option ℤ) where
  limit_back :
      (q : BandwidthQuantity)
      → Made scaled q
      → (if not (q.s == []) then (new_bandwidth_quantity scaled q.s).1 else no_limit) ≡ q
  unfolding text_beq
  limit_back q (inl e) =
      subst
        (λ (r : BandwidthQuantity).
          (if not (r.s == []) then (new_bandwidth_quantity scaled r.s).1 else no_limit) ≡ r)
        (sym e) refl
  limit_back q (inr (read, full)) =
      (ap (λ b. if not b then (new_bandwidth_quantity scaled q.s).1 else no_limit) full)
      ∙ ap (λ (r : Bool × BandwidthQuantity). r.1) read

  pub base_back :
      (type : String) (b : ProxyBaseConfig)
      → Made scaled b.transport.bandwidth_limit
      → b.transport.bandwidth_limit_mode ≢ ""
      → complete_base (unmarshal_base scaled (new_base type) (marshal_base b empty_message))
        ≡ transferred_base b
  unfolding complete_base unmarshal_base marshal_base transferred_base text_beq str_or
      complete_plugin
  base_back type b made mode =
      ap
        (λ (m : String). record b {
          enabled = none;
          transport = record b.transport {
            bandwidth_limit =
                if not (b.transport.bandwidth_limit.s == [])
                then (new_bandwidth_quantity scaled b.transport.bandwidth_limit.s).1
                else no_limit;
            bandwidth_limit_mode = m;
            proxy_protocol_version = "";
          };
          health_check = no_health_check;
          backend = record { local_ip = "127.0.0.1"; local_port = pos 0; plugin = no_plugin };
        })
        (mode_back b.transport.bandwidth_limit_mode mode)
      ∙ ap
          (λ (q : BandwidthQuantity). record b {
            enabled = none;
            transport = record b.transport { bandwidth_limit = q; proxy_protocol_version = "" };
            health_check = no_health_check;
            backend = record { local_ip = "127.0.0.1"; local_port = pos 0; plugin = no_plugin };
          })
          (limit_back b.transport.bandwidth_limit made)

  -- A proxy that is announced, read into an empty one of its kind and completed is what is transferred.
  pub announced_back :
      (c : ProxyConfigurer)
      → Made scaled (get_base_config c).transport.bandwidth_limit
      → (get_base_config c).transport.bandwidth_limit_mode ≢ ""
      → complete (unmarshal_from_msg scaled (empty_of c) (marshal_to_msg c empty_message))
        ≡ transferred c
  unfolding complete unmarshal_from_msg marshal_to_msg transferred get_base_config empty_of
  announced_back (tcp c) made mode =
      ap (λ (b : ProxyBaseConfig). tcp (record c { base = b })) (base_back "tcp" c.base made mode)
  announced_back (udp c) made mode =
      ap (λ (b : ProxyBaseConfig). udp (record c { base = b })) (base_back "udp" c.base made mode)
  announced_back (http c) made mode =
      ap (λ (b : ProxyBaseConfig). http (record c { base = b })) (base_back "http" c.base made mode)
  announced_back (https c) made mode =
      ap (λ (b : ProxyBaseConfig). https (record c { base = b }))
        (base_back "https" c.base made mode)
  announced_back (tcpmux c) made mode =
      ap (λ (b : ProxyBaseConfig). tcpmux (record c { base = b }))
        (base_back "tcpmux" c.base made mode)
  announced_back (stcp c) made mode =
      ap (λ (b : ProxyBaseConfig). stcp (record c { base = b })) (base_back "stcp" c.base made mode)
  announced_back (xtcp c) made mode =
      ap (λ (b : ProxyBaseConfig). xtcp (record c { base = b; nat_traversal = none }))
        (base_back "xtcp" c.base made mode)
  announced_back (sudp c) made mode =
      ap (λ (b : ProxyBaseConfig). sudp (record c { base = b })) (base_back "sudp" c.base made mode)
