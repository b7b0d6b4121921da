-- ===== src/Config/Validate.antt =====
-- pkg/config/v1/validation/validation.go, common.go and validator.go: what the checks of all
-- configurations share. A list of errors is the joined error; no error is the empty list.
pub mod Server
pub mod Plugin
pub mod Proxy
pub mod Allowed
pub mod Laws
pub mod Accepts
use cnfrp.Common.{
  ◌≡◌, refl, Bool, true, not, ◌&&◌, ◌≤◌, ℕ, Option, none, some, List, [], ◌∷◌, ◌++◌, String, ◌==◌,
  string_eq, any, leb, if◌then◌else◌,
}
use cnfrp.Common.Integer.{ℤ, pos, negsuc}
use cnfrp.Config.Options.{TlsConfig, WebServerConfig, LogConfig}
use cnfrp.Config.ValueSource.{ValueError, UnsafeFeatures, is_allowed}

abbrev pub supported_auth_methods : List String
supported_auth_methods = "token" ∷ "oidc" ∷ []

abbrev pub supported_auth_additional_scopes : List String
supported_auth_additional_scopes = "HeartBeats" ∷ "NewWorkConns" ∷ []

abbrev pub supported_log_levels : List String
supported_log_levels = "trace" ∷ "debug" ∷ "info" ∷ "warn" ∷ "error" ∷ []

abbrev pub supported_http_plugin_ops : List String
supported_http_plugin_ops =
    "Login" ∷ "NewProxy" ∷ "CloseProxy" ∷ "Ping" ∷ "NewWorkConn" ∷ "NewUserConn" ∷ []

-- the texts of the errors
pub data ConfigError : Type 0 where
  bad_auth_method : ConfigError
  bad_auth_scopes : ConfigError
  token_and_source : ConfigError
  unsafe_feature : String → ConfigError
  bad_token_source : ValueError → ConfigError
  bad_log_level : ConfigError
  no_cert_file : ConfigError
  no_key_file : ConfigError
  bad_port : String → ℤ → ConfigError
  bad_plugin_ops : ConfigError

-- `slices.Contains`
unfoldable pub contains : List String → String → Bool
contains xs s = any (λ x. x == s) xs

-- `lo.Every list subset`
unfoldable pub every : List String → List String → Bool
unfolding contains
every list [] = true
every list (s ∷ rest) = contains list s && every list rest

-- `errors.Join` leaves nil out
unfoldable pub append_error {ℓ} : {E : Type ℓ} → List E → Option E → List E
append_error errs none = errs
append_error errs (some e) = errs ++ (e ∷ [])

unfoldable pub validate_port : ℤ → String → Option ConfigError
validate_port (pos n) field_path = if leb n 65535 then none else some (bad_port field_path (pos n))
validate_port (negsuc n) field_path = some (bad_port field_path (negsuc n))

unfoldable pub validate_tls_files : Option TlsConfig → Option ConfigError
validate_tls_files none = none
validate_tls_files (some tls) =
    if tls.cert_file == ""
    then some no_cert_file
    else if tls.key_file == ""
    then some no_key_file
    else none

unfoldable pub validate_web_server : WebServerConfig → Option ConfigError
unfolding validate_tls_files validate_port
validate_web_server c = elim (validate_tls_files c.tls) [
  | some err ↦ some err
  | none ↦ validate_port c.port "webServer.port"
]

unfoldable pub validate_log : LogConfig → Option ConfigError
unfolding contains
validate_log c = if not (contains supported_log_levels c.level) then some bad_log_level else none

unfoldable pub validate_unsafe_feature : UnsafeFeatures → String → Option ConfigError
unfolding is_allowed
validate_unsafe_feature features feature =
    if not (is_allowed features feature) then some (unsafe_feature feature) else none
