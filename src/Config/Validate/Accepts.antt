-- ===== src/Config/Validate/Accepts.antt =====
-- pkg/config/v1/validation/server.go: a server's configuration has no errors exactly if it is valid.
use cnfrp.Common.{
  str_eq_iff, ◌≡◌, refl, sym, subst, ◌↔◌, Bool, true, false, not, Option, none, some, List, [], ◌∷◌,
  String, ◌==◌, string_eq, if◌then◌else◌, All, arith,
}
use cnfrp.Common.Integer.{ℤ}
use cnfrp.Config.Options.{HttpPluginOptions}
use cnfrp.Config.ValueSource.{ValueSource, UnsafeFeatures, is_allowed}
use cnfrp.Config.Server.{ServerConfig}
use cnfrp.Config.Validate.{
  ConfigError, bad_auth_method, bad_auth_scopes, token_and_source, append_error, validate_port,
  validate_web_server, validate_unsafe_feature, supported_http_plugin_ops, supported_auth_methods,
  supported_auth_additional_scopes,
}
use cnfrp.Config.Validate.Allowed.{
  contains_iff, every_iff, validate_tls_files-TlsFiles, log_iff, source_iff, is_allowed-Allowed,
}
use cnfrp.Config.Validate.Server.{
  error_if, invalid_source, check_token_source, check_auth, check_ports, check_plugins,
  validate_server_config,
}
use cnfrp.Config.Validate.Laws.{
  InRange, SourceAllowed, PluginOp, one_token_iff, ValidServer, accepted-ValidServer,
}

append_error-none {ℓ} :
    {E : Type ℓ} (errs : List E) (o : Option E) → errs ≡ [] → o ≡ none → append_error errs o ≡ []
unfolding append_error
append_error-none errs o h k = rw (h, k) refl

error_if-false : (b : Bool) (e : ConfigError) → b ≡ false → error_if b e ≡ none
unfolding error_if
error_if-false b e h = rw h refl

error_if-true : (b : Bool) (e : ConfigError) → b ≡ true → error_if (not b) e ≡ none
unfolding error_if
error_if-true b e h = rw h refl

InRange-validate_port : (p : ℤ) (path : String) → InRange p → validate_port p path ≡ none
unfolding validate_port
InRange-validate_port p path (n, e, low) =
    subst (λ q. validate_port q path ≡ none) (sym e) (ground arith)

check_plugins-valid :
    (ps : List HttpPluginOptions) (errs : List ConfigError)
    → errs ≡ []
    → All (λ (p : HttpPluginOptions). All PluginOp p.ops) ps
    → check_plugins ps errs ≡ []
unfolding check_plugins
check_plugins-valid [] errs h ok = h
check_plugins-valid (p ∷ ps) errs h ok =
    check_plugins-valid ps _
      (append_error-none errs _ h
        (error_if-true _ _ ((every_iff supported_http_plugin_ops p.ops).1 ok.0)))
      ok.1

exec_errors-valid :
    (features : UnsafeFeatures) (exec : Bool) (errs : List ConfigError)
    → errs ≡ []
    → (exec ≡ true → is_allowed features "TokenSourceExec" ≡ true)
    → (if exec
        then append_error errs (validate_unsafe_feature features "TokenSourceExec")
        else errs)
      ≡ []
unfolding validate_unsafe_feature
exec_errors-valid features true errs h ok = append_error-none errs _ h (rw (ok refl) refl)
exec_errors-valid features false errs h ok = h

check_token_source-valid :
    (features : UnsafeFeatures) (source : Option ValueSource) (errs : List ConfigError)
    → errs ≡ []
    → SourceAllowed features source
    → check_token_source features source errs ≡ []
unfolding check_token_source invalid_source
check_token_source-valid features none errs h ok = h
check_token_source-valid features (some v) errs h ok =
    let exec_allowed : (v.type == "exec") ≡ true → is_allowed features "TokenSourceExec" ≡ true =
      λ e.
        (is_allowed-Allowed features "TokenSourceExec").1 (ok.1 ((str_eq_iff v.type "exec").0 e)) in
    append_error-none _ _ (exec_errors-valid features (v.type == "exec") errs h exec_allowed)
      (rw (invalid_source, (source_iff v).1 ok.0) refl)

ValidServer-accepted :
    (features : UnsafeFeatures) (c : ServerConfig)
    → ValidServer features c
    → validate_server_config features c ≡ []
unfolding validate_server_config check_auth check_ports validate_web_server
ValidServer-accepted features c v =
    let auth =
      check_token_source-valid features c.auth.token_source _
        (append_error-none _ _
          (append_error-none _ _
            (append_error-none [] _ refl (
              error_if-true _ bad_auth_method
                ((contains_iff supported_auth_methods c.auth.method).1 v.method)))
            (error_if-true _ bad_auth_scopes
              ((every_iff supported_auth_additional_scopes c.auth.additional_scopes).1 v.scopes)))
          (error_if-false _ token_and_source
            ((one_token_iff c.auth.token c.auth.token_source).1 v.one_token)))
        v.source in
    let web : validate_web_server c.web_server ≡ none =
      rw (validate_web_server, (validate_tls_files-TlsFiles c.web_server.tls).1 v.tls_files)
        (InRange-validate_port c.web_server.port "webServer.port" v.web_port) in
    let before =
      append_error-none _ _ (append_error-none _ _ auth ((log_iff c.log).1 v.level)) web in
    let ports =
      append_error-none _ _
        (append_error-none _ _
          (append_error-none _ _
            (append_error-none _ _
              (append_error-none _ _
                (append_error-none _ _ before
                  (InRange-validate_port c.bind_port "bindPort" v.bind_port))
                (InRange-validate_port c.kcp_bind_port "kcpBindPort" v.kcp_port))
              (InRange-validate_port c.quic_bind_port "quicBindPort" v.quic_port))
            (InRange-validate_port c.vhost_http_port "vhostHTTPPort" v.http_port))
          (InRange-validate_port c.vhost_https_port "vhostHTTPSPort" v.https_port))
        (InRange-validate_port c.tcp_mux_http_connect_port "tcpMuxHTTPConnectPort"
          v.connect_port) in
    check_plugins-valid c.http_plugins _ ports v.plugins

-- A configuration of the server is validated without an error exactly if it has its seven ports
-- (bind, KCP, QUIC, HTTP, HTTPS, TCPMUX and dashboard) between 0 and 65535, token or oidc as its
-- method and only HeartBeats and NewWorkConns as scopes of authentication, not both a token and a
-- token source, as a token source if any either a file with a path or, if that feature is allowed,
-- a command whose variables have names without an equals sign, one of the five log levels, both
-- files of the dashboard's TLS if it uses TLS, and only the six operations in its plugins.
pub accepted_server :
    (features : UnsafeFeatures) (c : ServerConfig)
    → (validate_server_config features c ≡ []) ↔ ValidServer features c
accepted_server features c = (accepted-ValidServer features c, ValidServer-accepted features c)
