-- ===== src/Config/Plugin.antt =====
-- pkg/config/v1/proxy_plugin.go and the types of pkg/config/v1/common.go that it uses: the options
-- of the client's plugins. The methods `Clone` are not here: a value of the model is never shared.
use cnfrp.Common.{◌≡◌, refl, ap, Bool, true, Option, none, some, String, Option-cases, inl, inr}
use cnfrp.Common.Dict.{Dict}
use cnfrp.Config.Values.{ptr_or, ptr_or_idem}

pub record HeaderOperations : Type 0 where
  pub set : Dict String String

pub record HttpHeader : Type 0 where
  pub name : String
  pub value : String

-- HTTP2HTTPSPluginOptions
pub record Http2HttpsPluginOptions : Type 0 where
  pub type : String
  pub local_addr : String
  pub host_header_rewrite : String
  pub request_headers : HeaderOperations

-- HTTPProxyPluginOptions
pub record HttpProxyPluginOptions : Type 0 where
  pub type : String
  pub http_user : String
  pub http_password : String

-- HTTPS2HTTPPluginOptions
pub record Https2HttpPluginOptions : Type 0 where
  pub type : String
  pub local_addr : String
  pub host_header_rewrite : String
  pub request_headers : HeaderOperations
  pub enable_http2 : Option Bool
  pub crt_path : String
  pub key_path : String

-- HTTPS2HTTPSPluginOptions
pub record Https2HttpsPluginOptions : Type 0 where
  pub type : String
  pub local_addr : String
  pub host_header_rewrite : String
  pub request_headers : HeaderOperations
  pub enable_http2 : Option Bool
  pub crt_path : String
  pub key_path : String

-- HTTP2HTTPPluginOptions
pub record Http2HttpPluginOptions : Type 0 where
  pub type : String
  pub local_addr : String
  pub host_header_rewrite : String
  pub request_headers : HeaderOperations

pub record Socks5PluginOptions : Type 0 where
  pub type : String
  pub username : String
  pub password : String

pub record StaticFilePluginOptions : Type 0 where
  pub type : String
  pub local_path : String
  pub strip_prefix : String
  pub http_user : String
  pub http_password : String

pub record UnixDomainSocketPluginOptions : Type 0 where
  pub type : String
  pub unix_path : String

-- TLS2RawPluginOptions
pub record Tls2RawPluginOptions : Type 0 where
  pub type : String
  pub local_addr : String
  pub crt_path : String
  pub key_path : String

pub record VirtualNetPluginOptions : Type 0 where
  pub type : String

pub data ClientPluginOptions : Type 0 where
  http2https : Http2HttpsPluginOptions → ClientPluginOptions
  http_proxy : HttpProxyPluginOptions → ClientPluginOptions
  https2http : Https2HttpPluginOptions → ClientPluginOptions
  https2https : Https2HttpsPluginOptions → ClientPluginOptions
  http2http : Http2HttpPluginOptions → ClientPluginOptions
  socks5 : Socks5PluginOptions → ClientPluginOptions
  static_file : StaticFilePluginOptions → ClientPluginOptions
  unix_domain_socket : UnixDomainSocketPluginOptions → ClientPluginOptions
  tls2raw : Tls2RawPluginOptions → ClientPluginOptions
  virtual_net : VirtualNetPluginOptions → ClientPluginOptions

-- `none` is the nil interface: no plugin
pub record TypedClientPluginOptions : Type 0 where
  pub type : String
  pub client_plugin_options : Option ClientPluginOptions

abbrev pub no_plugin : TypedClientPluginOptions
no_plugin = record { type = ""; client_plugin_options = none }

unfoldable pub complete_options : ClientPluginOptions → ClientPluginOptions
complete_options (https2http o) =
    https2http (record o { enable_http2 = ptr_or o.enable_http2 (some true) })
complete_options (https2https o) =
    https2https (record o { enable_http2 = ptr_or o.enable_http2 (some true) })
complete_options (http2https o) = http2https o
complete_options (http_proxy o) = http_proxy o
complete_options (http2http o) = http2http o
complete_options (socks5 o) = socks5 o
complete_options (static_file o) = static_file o
complete_options (unix_domain_socket o) = unix_domain_socket o
complete_options (tls2raw o) = tls2raw o
complete_options (virtual_net o) = virtual_net o

unfoldable pub complete_plugin : TypedClientPluginOptions → TypedClientPluginOptions
unfolding complete_options
complete_plugin p = elim p.client_plugin_options [
  | none ↦ p
  | some o ↦ record p { client_plugin_options = some (complete_options o) }
]

pub complete_options_idem :
    (o : ClientPluginOptions) → complete_options (complete_options o) ≡ complete_options o
unfolding complete_options
complete_options_idem (https2http o) =
    ap (λ (b : Option Bool). https2http (record o { enable_http2 = b }))
      (ptr_or_idem o.enable_http2 (some true))
complete_options_idem (https2https o) =
    ap (λ (b : Option Bool). https2https (record o { enable_http2 = b }))
      (ptr_or_idem o.enable_http2 (some true))
complete_options_idem (http2https o) = refl
complete_options_idem (http_proxy o) = refl
complete_options_idem (http2http o) = refl
complete_options_idem (socks5 o) = refl
complete_options_idem (static_file o) = refl
complete_options_idem (unix_domain_socket o) = refl
complete_options_idem (tls2raw o) = refl
complete_options_idem (virtual_net o) = refl

pub complete_plugin_idem :
    (p : TypedClientPluginOptions) → complete_plugin (complete_plugin p) ≡ complete_plugin p
unfolding complete_plugin
complete_plugin_idem p = elim (Option-cases p.client_plugin_options) [
  | inl e ↦ rw e refl
  | inr (o, e) ↦ rw e (
      ap (λ (q : ClientPluginOptions). record p { client_plugin_options = some q })
        (complete_options_idem o))
]
