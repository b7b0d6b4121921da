-- ===== src/Config/Load.antt =====
-- pkg/config/load.go, `NewProxyConfigurerFromMsg`: how the server reads the announcement of a proxy.
-- `scaled` is as in Config/Bandwidth.antt, `qualified_name` as in Config/Validate/Proxy.antt. An
-- error is `inl`.
pub mod Laws
pub mod Domains
use cnfrp.Common.{ℕ, Option, none, some, List, String, ◌⊎◌, inl, inr}
use cnfrp.Common.Bytes.{Text}
use cnfrp.Common.Integer.{ℤ}
use cnfrp.Message.{NewProxy}
use cnfrp.Config.Values.{str_or}
use cnfrp.Config.Server.{ServerConfig}
use cnfrp.Config.Proxy.{ProxyConfigurer, complete, new_proxy_configurer_by_type}
use cnfrp.Config.Proxy.Announce.{unmarshal_from_msg}
use cnfrp.Config.Validate.Proxy.{ProxyError, unknown_proxy_type, validate_proxy_for_server}

module _ (scaled : ℕ → Text → Option ℤ) (qualified_name : Text → List String)
    (s : ServerConfig) where
  -- the configuration, if it is valid
  unfoldable pub checked : ProxyConfigurer → ProxyError ⊎ ProxyConfigurer
  unfolding validate_proxy_for_server
  checked c = elim (validate_proxy_for_server qualified_name c s) [
    | none ↦ inr c
    | some err ↦ inl err
  ]

  -- once the message has a type
  unfoldable pub from_typed : NewProxy → ProxyError ⊎ ProxyConfigurer
  unfolding checked
  from_typed m = elim (new_proxy_configurer_by_type m.proxy_type) [
    | none ↦ inl (unknown_proxy_type m.proxy_type)
    | some configurer ↦ checked (complete (unmarshal_from_msg scaled configurer m))
  ]

  unfoldable pub new_proxy_configurer_from_msg : NewProxy → ProxyError ⊎ ProxyConfigurer
  unfolding from_typed
  new_proxy_configurer_from_msg m = from_typed (record m { proxy_type = str_or m.proxy_type "tcp" })
