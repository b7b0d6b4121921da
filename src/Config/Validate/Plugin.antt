-- ===== src/Config/Validate/Plugin.antt =====
-- pkg/config/v1/validation/plugin.go: what the options of a client's plugin must have.
use cnfrp.Common.{Option, none, some, ◌==◌, string_eq, if◌then◌else◌}
use cnfrp.Config.Plugin.{
  ClientPluginOptions, Http2HttpsPluginOptions, Https2HttpPluginOptions, Https2HttpsPluginOptions,
  StaticFilePluginOptions, UnixDomainSocketPluginOptions, Tls2RawPluginOptions, http2https,
  https2http, https2https, static_file, unix_domain_socket, tls2raw, http_proxy, http2http, socks5,
  virtual_net,
}

pub data PluginError : Type 0 where
  no_local_addr : PluginError
  no_local_path : PluginError
  no_unix_path : PluginError

unfoldable pub validate_http2https : Http2HttpsPluginOptions → Option PluginError
validate_http2https o = if o.local_addr == "" then some no_local_addr else none

unfoldable pub validate_https2http : Https2HttpPluginOptions → Option PluginError
validate_https2http o = if o.local_addr == "" then some no_local_addr else none

unfoldable pub validate_https2https : Https2HttpsPluginOptions → Option PluginError
validate_https2https o = if o.local_addr == "" then some no_local_addr else none

unfoldable pub validate_static_file : StaticFilePluginOptions → Option PluginError
validate_static_file o = if o.local_path == "" then some no_local_path else none

unfoldable pub validate_unix_domain_socket : UnixDomainSocketPluginOptions → Option PluginError
validate_unix_domain_socket o = if o.unix_path == "" then some no_unix_path else none

unfoldable pub validate_tls2raw : Tls2RawPluginOptions → Option PluginError
validate_tls2raw o = if o.local_addr == "" then some no_local_addr else none

unfoldable pub validate_plugin : Option ClientPluginOptions → Option PluginError
unfolding validate_http2https validate_https2http validate_https2https validate_static_file
    validate_unix_domain_socket validate_tls2raw
validate_plugin none = none
validate_plugin (some (http2https o)) = validate_http2https o
validate_plugin (some (https2http o)) = validate_https2http o
validate_plugin (some (https2https o)) = validate_https2https o
validate_plugin (some (static_file o)) = validate_static_file o
validate_plugin (some (unix_domain_socket o)) = validate_unix_domain_socket o
validate_plugin (some (tls2raw o)) = validate_tls2raw o
validate_plugin (some (http_proxy o)) = none
validate_plugin (some (http2http o)) = none
validate_plugin (some (socks5 o)) = none
validate_plugin (some (virtual_net o)) = none
