-- ===== src/Config/Validate/Proxy.antt =====
-- pkg/config/v1/validation/proxy.go: what the client and the server ask of the configuration of a
-- proxy. `qualified_name` is IsQualifiedName of k8s.io/apimachinery: what is wrong with a name.
use cnfrp.Common.{
  ℕ, ◌+◌, Bool, false, not, ◌&&◌, ◌||◌, Option, none, some, List, [], ◌∷◌, ◌++◌, map, String, ◌==◌,
  string_eq, if◌then◌else◌, eqb, ltb, any, length,
}
use cnfrp.Common.Bytes.{Text, text_eq, to_lower, split}
use cnfrp.Common.Dict.{Dict}
use cnfrp.Common.Integer.{ℤ, pos}
use cnfrp.Config.Server.{ServerConfig}
use cnfrp.Config.Proxy.{
  ProxyBaseConfig, DomainConfig, ProxyConfigurer, TcpMuxProxyConfig, HttpProxyConfig,
  HttpsProxyConfig, HealthCheckConfig, http, https, tcpmux, get_base_config,
}
use cnfrp.Config.Validate.{ConfigError, contains, append_error, validate_port}
use cnfrp.Config.Validate.Plugin.{PluginError, validate_plugin}

pub data AnnotationError : Type 0 where
  bad_key : Text → String → AnnotationError
  too_large : ℕ → AnnotationError

-- the texts of the errors
pub data ProxyError : Type 0 where
  no_name : ProxyError
  bad_annotations : List AnnotationError → ProxyError
  bad_protocol_version : String → ProxyError
  bad_limit_mode : ProxyError
  bad_local_port : ConfigError → ProxyError
  bad_health_check : String → ProxyError
  no_health_path : ProxyError
  bad_plugin : String → PluginError → ProxyError
  no_domain : ProxyError
  bad_multiplexer : String → ProxyError
  below_subdomain_host : Text → Text → ProxyError
  subdomain_disabled : ProxyError
  bad_subdomain : ProxyError
  multiplexer_disabled : ProxyError
  http_disabled : ProxyError
  https_disabled : ProxyError
  unknown_proxy_type : String → ProxyError

-- the second error where the first is nil
unfoldable pub or_else {ℓ} : {E : Type ℓ} → Option E → Option E → Option E
or_else (some e) later = some e
or_else none later = later

abbrev pub total_annotation_size_limit_b : ℕ
total_annotation_size_limit_b = 262144

unfoldable pub annotations_size : Dict Text Text → ℕ
annotations_size [] = 0
annotations_size ((k, v) ∷ rest) = length k + length v + annotations_size rest

unfoldable pub validate_annotations_size : Dict Text Text → Option AnnotationError
unfolding annotations_size
validate_annotations_size m =
    let total = annotations_size m in
    if ltb total_annotation_size_limit_b total then some (too_large total) else none

module _ (qualified_name : Text → List String) where
  -- the loop over the keys
  unfoldable pub key_errors : Dict Text Text → List AnnotationError
  key_errors [] = []
  key_errors ((k, v) ∷ rest) = map (bad_key k) (qualified_name (to_lower k)) ++ key_errors rest

  unfoldable pub validate_annotations : Dict Text Text → List AnnotationError
  unfolding key_errors validate_annotations_size append_error
  validate_annotations [] = []
  validate_annotations (a ∷ m) =
      append_error (key_errors (a ∷ m)) (validate_annotations_size (a ∷ m))

  -- the error of a list of errors; nil where there is none
  unfoldable pub annotations_error : Dict Text Text → Option ProxyError
  unfolding validate_annotations
  annotations_error m = elim (validate_annotations m) [
    | [] ↦ none
    | e ∷ es ↦ some (bad_annotations (e ∷ es))
  ]

  unfoldable pub health_check_error : HealthCheckConfig → Option ProxyError
  unfolding contains
  health_check_error c =
      if not (contains ("" ∷ "tcp" ∷ "http" ∷ []) c.type)
      then some (bad_health_check c.type)
      else if c.type == "http" && (c.path == "")
      then some no_health_path
      else none

  unfoldable pub local_port_error : ProxyBaseConfig → Option ProxyError
  unfolding validate_port
  local_port_error c =
      if c.backend.plugin.type == ""
      then elim (validate_port c.backend.local_port "localPort") [
        | none ↦ none
        | some err ↦ some (bad_local_port err)
      ]
      else none

  unfoldable pub plugin_error : ProxyBaseConfig → Option ProxyError
  plugin_error c =
      if not (c.backend.plugin.type == "")
      then elim (validate_plugin c.backend.plugin.client_plugin_options) [
        | none ↦ none
        | some err ↦ some (bad_plugin c.backend.plugin.type err)
      ]
      else none

  unfoldable pub validate_base_for_client : ProxyBaseConfig → Option ProxyError
  unfolding or_else contains health_check_error local_port_error plugin_error
  validate_base_for_client c =
      if c.name == ""
      then some no_name
      else or_else (annotations_error c.annotations) (
          if not (contains ("" ∷ "v1" ∷ "v2" ∷ []) c.transport.proxy_protocol_version)
          then some (bad_protocol_version c.transport.proxy_protocol_version)
          else if not (contains ("client" ∷ "server" ∷ []) c.transport.bandwidth_limit_mode)
          then some bad_limit_mode
          else or_else (local_port_error c)
              (or_else (health_check_error c.health_check) (plugin_error c)))

  abbrev pub validate_base_for_server : ProxyBaseConfig → Option ProxyError
  validate_base_for_server c = annotations_error c.annotations

  unfoldable pub validate_domain_for_client : DomainConfig → Option ProxyError
  validate_domain_for_client c =
      if (c.sub_domain == []) && eqb (length c.custom_domains) 0 then some no_domain else none

  unfoldable pub validate_tcpmux_for_client : TcpMuxProxyConfig → Option ProxyError
  unfolding or_else contains validate_domain_for_client
  validate_tcpmux_for_client c = or_else (validate_domain_for_client c.domains) (
      if not (contains ("httpconnect" ∷ []) c.multiplexer)
      then some (bad_multiplexer c.multiplexer)
      else none)

  unfoldable pub validate_proxy_for_client : ProxyConfigurer → Option ProxyError
  unfolding or_else validate_base_for_client validate_tcpmux_for_client
  validate_proxy_for_client c = or_else (validate_base_for_client (get_base_config c)) (elim c [
    | tcpmux c ↦ validate_tcpmux_for_client c
    | http c ↦ validate_domain_for_client c.domains
    | https c ↦ validate_domain_for_client c.domains
    | _ ↦ none
  ])

-- `strings.HasSuffix`
unfoldable pub has_suffix : Text → Text → Bool
has_suffix [] suffix = suffix == []
has_suffix (c ∷ s) suffix = ((c ∷ s) == suffix) || has_suffix s suffix

-- whether a custom domain stands below the server's subdomain host
unfoldable pub below_host : Text → Text → Bool
unfolding has_suffix
below_host host domain =
    not (host == [])
    && (ltb (length (split b'.' host)) (length (split b'.' domain))
        && has_suffix domain (b'.' ∷ host))

-- the loop over the custom domains
unfoldable pub validate_custom_domains : Text → List Text → Option ProxyError
unfolding below_host
validate_custom_domains host [] = none
validate_custom_domains host (domain ∷ rest) =
    let later = validate_custom_domains host rest in
    if below_host host domain then some (below_subdomain_host domain host) else later

unfoldable pub validate_subdomain : Text → Text → Option ProxyError
validate_subdomain host sub_domain =
    if not (sub_domain == [])
    then if host == []
      then some subdomain_disabled
      else if any (λ c. eqb c b'.') sub_domain || any (λ c. eqb c b'*') sub_domain
      then some bad_subdomain
      else none
    else none

unfoldable pub validate_domain_for_server : DomainConfig → ServerConfig → Option ProxyError
unfolding or_else validate_custom_domains validate_subdomain
validate_domain_for_server c s =
    or_else (validate_custom_domains s.sub_domain_host c.custom_domains)
      (validate_subdomain s.sub_domain_host c.sub_domain)

-- a port is not set
unfoldable pub unset : ℤ → Bool
unset (pos n) = eqb n 0
unset (ℤ.negsuc n) = false

unfoldable pub validate_tcpmux_for_server : TcpMuxProxyConfig → ServerConfig → Option ProxyError
unfolding unset validate_domain_for_server
validate_tcpmux_for_server c s =
    if (c.multiplexer == "httpconnect") && unset s.tcp_mux_http_connect_port
    then some multiplexer_disabled
    else validate_domain_for_server c.domains s

unfoldable pub validate_http_for_server : HttpProxyConfig → ServerConfig → Option ProxyError
unfolding unset validate_domain_for_server
validate_http_for_server c s =
    if unset s.vhost_http_port then some http_disabled else validate_domain_for_server c.domains s

unfoldable pub validate_https_for_server : HttpsProxyConfig → ServerConfig → Option ProxyError
unfolding unset validate_domain_for_server
validate_https_for_server c s =
    if unset s.vhost_https_port then some https_disabled else validate_domain_for_server c.domains s

unfoldable pub validate_proxy_for_server :
    (Text → List String) → ProxyConfigurer → ServerConfig → Option ProxyError
unfolding or_else validate_tcpmux_for_server validate_http_for_server validate_https_for_server
validate_proxy_for_server qualified_name c s =
    or_else (validate_base_for_server qualified_name (get_base_config c)) (elim c [
      | tcpmux c ↦ validate_tcpmux_for_server c s
      | http c ↦ validate_http_for_server c s
      | https c ↦ validate_https_for_server c s
      | _ ↦ none
    ])
