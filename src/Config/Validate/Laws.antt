-- ===== src/Config/Validate/Laws.antt =====
-- pkg/config/v1/validation/server.go: what a server's configuration without errors satisfies.
use cnfrp.Common.{
  OneOf, ◌⊎◌, ◌↔◌, str_eq_iff, ℕ, ◌≤◌, ◌≡◌, refl, Bool, true, false, not, ◌&&◌, Option, none, some,
  List, [], ◌∷◌, String, ◌==◌, string_eq, if◌then◌else◌, is_some, All, arith, Bool-cases,
  Option-cases, inl, inr, leb→le, leb,
}
use cnfrp.Common.Integer.{ℤ, pos, negsuc}
use cnfrp.Config.Options.{HttpPluginOptions}
use cnfrp.Config.ValueSource.{ValueSource, UnsafeFeatures, is_allowed, validate_source}
use cnfrp.Config.Server.{ServerConfig}
use cnfrp.Config.Validate.{
  ConfigError, append_error, validate_port, validate_web_server, validate_tls_files,
  validate_unsafe_feature, supported_auth_methods, supported_auth_additional_scopes,
  supported_http_plugin_ops,
}
use cnfrp.Config.Validate.Allowed.{
  contains_iff, every_iff, TlsFiles, validate_tls_files-TlsFiles, log_iff, NamedSource, source_iff,
  Allowed, is_allowed-Allowed,
}
use cnfrp.Config.Validate.Server.{
  error_if, invalid_source, check_token_source, check_auth, check_ports, check_plugins,
  validate_server_config,
}

-- The number of a port.
abbrev pub InRange : ℤ → Type 0
InRange p = (n : ℕ) × (p ≡ pos n) × (n ≤ 65535)

append_error-empty {ℓ} :
    {E : Type ℓ} (errs : List E) (o : Option E)
    → append_error errs o ≡ []
    → (errs ≡ []) × (o ≡ none)
unfolding append_error
append_error-empty errs none h = (h, refl)
append_error-empty [] (some e) h = cc
append_error-empty (x ∷ errs) (some e) h = cc

error_if-none : (b : Bool) (e : ConfigError) → error_if b e ≡ none → b ≡ false
unfolding error_if
error_if-none true e h = cc
error_if-none false e h = refl

true_of_not : (b : Bool) → not b ≡ false → b ≡ true
true_of_not true h = refl
true_of_not false h = cc

pub validate_port-InRange : (p : ℤ) (path : String) → validate_port p path ≡ none → InRange p
unfolding validate_port
validate_port-InRange (pos n) path h = elim (Bool-cases (leb n 65535)) [
  | inl e ↦ (n, refl, leb→le n 65535 e)
  | inr e ↦ ground arith
]
validate_port-InRange (negsuc n) path h = cc

-- The source of a token, if there is one: it names a file or a command, and a command only runs
-- where that is allowed.
abbrev pub SourceAllowed : UnsafeFeatures → Option ValueSource → Type 0
SourceAllowed features none = Unit
SourceAllowed features (some v) =
    NamedSource v × (v.type ≡ "exec" → Allowed features "TokenSourceExec")

-- An operation that a plugin is called for.
abbrev pub PluginOp : String → Type 0
PluginOp s =
    OneOf ("Login" ∷ "NewProxy" ∷ "CloseProxy" ∷ "Ping" ∷ "NewWorkConn" ∷ "NewUserConn" ∷ []) s

-- What the checks of a server's configuration stand for.
pub record ValidServer (features : UnsafeFeatures) (c : ServerConfig) : Type 0 where
  pub method : OneOf ("token" ∷ "oidc" ∷ []) c.auth.method
  pub scopes : All (λ s. OneOf ("HeartBeats" ∷ "NewWorkConns" ∷ []) s) c.auth.additional_scopes
  pub one_token : (c.auth.token ≡ "") ⊎ (c.auth.token_source ≡ none)
  pub source : SourceAllowed features c.auth.token_source
  pub level : OneOf ("trace" ∷ "debug" ∷ "info" ∷ "warn" ∷ "error" ∷ []) c.log.level
  pub tls_files : TlsFiles c.web_server.tls
  pub web_port : InRange c.web_server.port
  pub bind_port : InRange c.bind_port
  pub kcp_port : InRange c.kcp_bind_port
  pub quic_port : InRange c.quic_bind_port
  pub http_port : InRange c.vhost_http_port
  pub https_port : InRange c.vhost_https_port
  pub connect_port : InRange c.tcp_mux_http_connect_port
  pub plugins : All (λ (p : HttpPluginOptions). All PluginOp p.ops) c.http_plugins

pub one_token_iff :
    (token : String) (source : Option ValueSource)
    → ((not (token == "") && is_some source) ≡ false) ↔ ((token ≡ "") ⊎ (source ≡ none))
one_token_iff token none = ground (arith, str_eq_iff token "")
one_token_iff token (some v) = ground (arith, str_eq_iff token "")

check_plugins-empty :
    (ps : List HttpPluginOptions) (errs : List ConfigError)
    → check_plugins ps errs ≡ []
    → (errs ≡ []) × All (λ (p : HttpPluginOptions). All PluginOp p.ops) ps
unfolding check_plugins
check_plugins-empty [] errs h = (h, tt)
check_plugins-empty (p ∷ ps) errs h =
    let (front, later) = check_plugins-empty ps _ h in
    let (before, ok) = append_error-empty errs _ front in
    (
      before,
      ((every_iff supported_http_plugin_ops p.ops).0 (true_of_not _ (error_if-none _ _ ok)), later),
    )

check_ports-empty :
    (c : ServerConfig) (errs : List ConfigError)
    → check_ports c errs ≡ []
    → (errs ≡ [])
      × InRange c.bind_port
      × InRange c.kcp_bind_port
      × InRange c.quic_bind_port
      × InRange c.vhost_http_port
      × InRange c.vhost_https_port
      × InRange c.tcp_mux_http_connect_port
unfolding check_ports
check_ports-empty c errs h =
    let (h5, o6) = append_error-empty _ _ h in
    let (h4, o5) = append_error-empty _ _ h5 in
    let (h3, o4) = append_error-empty _ _ h4 in
    let (h2, o3) = append_error-empty _ _ h3 in
    let (h1, o2) = append_error-empty _ _ h2 in
    let (h0, o1) = append_error-empty _ _ h1 in
    (
      h0,
      validate_port-InRange _ _ o1,
      validate_port-InRange _ _ o2,
      validate_port-InRange _ _ o3,
      validate_port-InRange _ _ o4,
      validate_port-InRange _ _ o5,
      validate_port-InRange _ _ o6,
    )

invalid_source-none : (v : ValueSource) → invalid_source v ≡ none → validate_source (some v) ≡ none
unfolding invalid_source
invalid_source-none v h = elim (Option-cases (validate_source (some v))) [
  | inl e ↦ e
  | inr (err, e) ↦ cc
]

exec_errors-empty :
    (features : UnsafeFeatures) (exec : Bool) (errs : List ConfigError)
    → (if exec
        then append_error errs (validate_unsafe_feature features "TokenSourceExec")
        else errs)
      ≡ []
    → (errs ≡ []) × (exec ≡ true → is_allowed features "TokenSourceExec" ≡ true)
unfolding validate_unsafe_feature
exec_errors-empty features true errs h =
    let (before, ok) = append_error-empty errs _ h in (before, λ e. ground arith)
exec_errors-empty features false errs h = (h, λ e. cc)

check_token_source-empty :
    (features : UnsafeFeatures) (source : Option ValueSource) (errs : List ConfigError)
    → check_token_source features source errs ≡ []
    → (errs ≡ []) × SourceAllowed features source
unfolding check_token_source
check_token_source-empty features none errs h = (h, tt)
check_token_source-empty features (some v) errs h =
    let (h1, valid) = append_error-empty _ _ h in
    let (h0, allowed) = exec_errors-empty features (v.type == "exec") errs h1 in
    (
      h0,
      (
        (source_iff v).0 (invalid_source-none v valid),
        (λ e.
            (is_allowed-Allowed features "TokenSourceExec").0
              (allowed ((str_eq_iff v.type "exec").1 e))),
      ),
    )

validate_web_server-none :
    (c : ServerConfig)
    → validate_web_server c.web_server ≡ none
    → (validate_tls_files c.web_server.tls ≡ none) × InRange c.web_server.port
unfolding validate_web_server
validate_web_server-none c h = elim (Option-cases (validate_tls_files c.web_server.tls)) [
  | inl e ↦ (e, validate_port-InRange c.web_server.port "webServer.port" cc)
  | inr (err, e) ↦ cc
]

pub accepted-ValidServer :
    (features : UnsafeFeatures) (c : ServerConfig)
    → validate_server_config features c ≡ []
    → ValidServer features c
unfolding validate_server_config check_auth
accepted-ValidServer features c h =
    let (h1, plugins) = check_plugins-empty c.http_plugins _ h in
    let (h2, p1, p2, p3, p4, p5, p6) = check_ports-empty c _ h1 in
    let (h3, web) = append_error-empty _ _ h2 in
    let (h4, level) = append_error-empty _ _ h3 in
    let (h5, source) = check_token_source-empty features c.auth.token_source _ h4 in
    let (h6, one) = append_error-empty _ _ h5 in
    let (h7, scopes) = append_error-empty _ _ h6 in
    let (h8, method) = append_error-empty _ _ h7 in
    let (files, port) = validate_web_server-none c web in
    record {
      method =
          (contains_iff supported_auth_methods c.auth.method).0
            (true_of_not _ (error_if-none _ _ method));
      scopes =
          (every_iff supported_auth_additional_scopes c.auth.additional_scopes).0
            (true_of_not _ (error_if-none _ _ scopes));
      one_token = (one_token_iff c.auth.token c.auth.token_source).0 (error_if-none _ _ one);
      source = source;
      level = (log_iff c.log).0 level;
      tls_files = (validate_tls_files-TlsFiles c.web_server.tls).0 files;
      web_port = port;
      bind_port = p1;
      kcp_port = p2;
      quic_port = p3;
      http_port = p4;
      https_port = p5;
      connect_port = p6;
      plugins = plugins;
    }
