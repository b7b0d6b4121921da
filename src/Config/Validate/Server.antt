-- ===== src/Config/Validate/Server.antt =====
-- pkg/config/v1/validation/server.go, `ValidateServerConfig`. It returns no warnings.
use cnfrp.Common.{
  Bool, not, ◌&&◌, Option, none, some, List, [], ◌∷◌, ◌==◌, string_eq, if◌then◌else◌, is_some,
}
use cnfrp.Config.Options.{HttpPluginOptions}
use cnfrp.Config.ValueSource.{ValueSource, UnsafeFeatures, validate_source}
use cnfrp.Config.Server.{ServerConfig, AuthServerConfig}
use cnfrp.Config.Validate.{
  ConfigError, bad_auth_method, bad_auth_scopes, token_and_source, bad_token_source, bad_plugin_ops,
  contains, every, append_error, validate_port, validate_web_server, validate_log,
  validate_unsafe_feature, supported_auth_methods, supported_auth_additional_scopes,
  supported_http_plugin_ops,
}

-- the error if the condition holds
unfoldable pub error_if : Bool → ConfigError → Option ConfigError
error_if b e = if b then some e else none

unfoldable pub invalid_source : ValueSource → Option ConfigError
unfolding validate_source
invalid_source v = elim (validate_source (some v)) [
  | none ↦ none
  | some err ↦ some (bad_token_source err)
]

unfoldable pub check_token_source :
    UnsafeFeatures → Option ValueSource → List ConfigError → List ConfigError
unfolding append_error invalid_source
check_token_source features none errs = errs
check_token_source features (some v) errs =
    append_error
      (if v.type == "exec"
        then append_error errs (validate_unsafe_feature features "TokenSourceExec")
        else errs)
      (invalid_source v)

unfoldable pub check_auth : UnsafeFeatures → AuthServerConfig → List ConfigError
unfolding error_if append_error
check_auth features c = check_token_source features c.token_source (
    append_error
      (append_error
        (append_error []
          (error_if (not (contains supported_auth_methods c.method)) bad_auth_method))
        (error_if (not (every supported_auth_additional_scopes c.additional_scopes))
          bad_auth_scopes))
      (error_if (not (c.token == "") && is_some c.token_source) token_and_source))

-- the six ports that clients and users connect to
unfoldable pub check_ports : ServerConfig → List ConfigError → List ConfigError
unfolding append_error
check_ports c errs =
    append_error
      (append_error
        (append_error
          (append_error
            (append_error (append_error errs (validate_port c.bind_port "bindPort"))
              (validate_port c.kcp_bind_port "kcpBindPort"))
            (validate_port c.quic_bind_port "quicBindPort"))
          (validate_port c.vhost_http_port "vhostHTTPPort"))
        (validate_port c.vhost_https_port "vhostHTTPSPort"))
      (validate_port c.tcp_mux_http_connect_port "tcpMuxHTTPConnectPort")

-- the loop over the plugins
unfoldable pub check_plugins : List HttpPluginOptions → List ConfigError → List ConfigError
unfolding append_error error_if
check_plugins [] errs = errs
check_plugins (p ∷ rest) errs =
    check_plugins rest
      (append_error errs (error_if (not (every supported_http_plugin_ops p.ops)) bad_plugin_ops))

unfoldable pub validate_server_config : UnsafeFeatures → ServerConfig → List ConfigError
unfolding check_auth check_ports check_plugins
validate_server_config features c = check_plugins c.http_plugins (
    check_ports c (
      append_error (append_error (check_auth features c.auth) (validate_log c.log))
        (validate_web_server c.web_server)))
