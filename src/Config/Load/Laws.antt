-- ===== src/Config/Load/Laws.antt =====
-- pkg/config/load.go, `NewProxyConfigurerFromMsg`: the announcement of a proxy reaches the server
-- unchanged, and what the server takes is valid.
use cnfrp.Common.{ℕ, ◌≡◌, ◌≢◌, refl, sym, ap, ◌∙◌, Option, some, List, String}
use cnfrp.Common.Bytes.{Text, text_eq}
use cnfrp.Common.Integer.{ℤ}
use cnfrp.Message.{NewProxy, empty_message}
use cnfrp.Config.Values.{str_or}
use cnfrp.Config.Bandwidth.{Made}
use cnfrp.Config.Server.{ServerConfig}
use cnfrp.Config.Proxy.{
  ProxyConfigurer, tcp, udp, http, https, tcpmux, stcp, xtcp, sudp, complete, get_base_config,
  new_proxy_configurer_by_type,
}
use cnfrp.Config.Proxy.Announce.{marshal_to_msg, unmarshal_from_msg}
use cnfrp.Config.Proxy.RoundTrip.{
  transferred, kind, empty_of, announced_back, new_proxy_configurer_by_type-kind,
}
use cnfrp.Config.Load.{checked, from_typed, new_proxy_configurer_from_msg}

marshal-type :
    (c : ProxyConfigurer) (m : NewProxy)
    → (marshal_to_msg c m).proxy_type ≡ (get_base_config c).type
unfolding marshal_to_msg get_base_config
marshal-type (tcp c) m = refl
marshal-type (udp c) m = refl
marshal-type (http c) m = refl
marshal-type (https c) m = refl
marshal-type (tcpmux c) m = refl
marshal-type (stcp c) m = refl
marshal-type (xtcp c) m = refl
marshal-type (sudp c) m = refl

str_or-kind : (c : ProxyConfigurer) → str_or (kind c) "tcp" ≡ kind c
unfolding str_or kind
str_or-kind (tcp c) = refl
str_or-kind (udp c) = refl
str_or-kind (http c) = refl
str_or-kind (https c) = refl
str_or-kind (tcpmux c) = refl
str_or-kind (stcp c) = refl
str_or-kind (xtcp c) = refl
str_or-kind (sudp c) = refl

module _ (scaled : ℕ → Text → Option ℤ) (qualified_name : Text → List String)
    (s : ServerConfig) where
  read_by_type :
      (empty : ProxyConfigurer) (m : NewProxy)
      → new_proxy_configurer_by_type m.proxy_type ≡ some empty
      → from_typed scaled qualified_name s m
        ≡ checked scaled qualified_name s (complete (unmarshal_from_msg scaled empty m))
  unfolding from_typed checked
  read_by_type empty m h = rw (from_typed, h) refl

  -- a message that has the type of a kind
  read_typed :
      (type : String) (empty : ProxyConfigurer) (m : NewProxy)
      → m.proxy_type ≡ type
      → str_or type "tcp" ≡ type
      → new_proxy_configurer_by_type type ≡ some empty
      → new_proxy_configurer_from_msg scaled qualified_name s m
        ≡ checked scaled qualified_name s (complete (unmarshal_from_msg scaled empty m))
  unfolding new_proxy_configurer_from_msg
  read_typed type empty m e d k =
      ap (λ (t : String). from_typed scaled qualified_name s (record m { proxy_type = t }))
        (ap (λ t. str_or t "tcp") e ∙ d ∙ sym e)
      ∙ read_by_type empty m (ap new_proxy_configurer_by_type e ∙ k)

  -- A proxy whose type names its kind, whose bandwidth limit was read from a text or is empty and
  -- whose limit mode is not empty: the server that reads the announcement of this proxy gets, up to
  -- its own check of it, the configuration of the client with the fields that only the client uses
  -- (enabled, proxy protocol version, health check, local address and plugin, NAT traversal) at
  -- their defaults.
  pub read-announced :
      (c : ProxyConfigurer)
      → (get_base_config c).type ≡ kind c
      → Made scaled (get_base_config c).transport.bandwidth_limit
      → (get_base_config c).transport.bandwidth_limit_mode ≢ ""
      → new_proxy_configurer_from_msg scaled qualified_name s (marshal_to_msg c empty_message)
        ≡ checked scaled qualified_name s (transferred c)
  read-announced c typed made mode =
      read_typed (kind c) (empty_of c) (marshal_to_msg c empty_message)
        (marshal-type c empty_message ∙ typed) (str_or-kind c) (new_proxy_configurer_by_type-kind c)
      ∙ ap (checked scaled qualified_name s) (announced_back scaled c made mode)
