-- ===== src/Config/Proxy.antt =====
-- pkg/config/v1/proxy.go: the configuration of a proxy, one type for each kind. A map is an
-- association list and a pointer that may be nil is an `Option`; the methods `Clone` are not here.
pub mod Announce
pub mod RoundTrip
use cnfrp.Common.{Bool, false, Option, none, List, [], String, ◌==◌, string_eq, if◌then◌else◌, some}
use cnfrp.Common.Bytes.{Text}
use cnfrp.Common.Dict.{Dict}
use cnfrp.Common.Integer.{ℤ, pos}
use cnfrp.Config.Values.{str_or}
use cnfrp.Config.Bandwidth.{BandwidthQuantity, no_limit}
use cnfrp.Config.Plugin.{
  HeaderOperations, HttpHeader, TypedClientPluginOptions, no_plugin, complete_plugin,
}

pub record ProxyTransport : Type 0 where
  pub use_encryption : Bool
  pub use_compression : Bool
  pub bandwidth_limit : BandwidthQuantity
  pub bandwidth_limit_mode : String
  pub proxy_protocol_version : String

pub record LoadBalancerConfig : Type 0 where
  pub group : String
  pub group_key : String

-- the embedded ProxyBackend
pub record ProxyBackend : Type 0 where
  pub local_ip : String
  pub local_port : ℤ
  pub plugin : TypedClientPluginOptions

pub record HealthCheckConfig : Type 0 where
  pub type : String
  pub timeout_seconds : ℤ
  pub max_failed : ℤ
  pub interval_seconds : ℤ
  pub path : String
  pub http_headers : List HttpHeader

pub record DomainConfig : Type 0 where
  pub custom_domains : List Text
  pub sub_domain : Text

pub record NatTraversalConfig : Type 0 where
  pub disable_assisted_addrs : Bool

pub record ProxyBaseConfig : Type 0 where
  pub name : String
  pub type : String
  pub enabled : Option Bool
  pub annotations : Dict Text Text
  pub transport : ProxyTransport
  pub metadatas : Dict String String
  pub load_balancer : LoadBalancerConfig
  pub health_check : HealthCheckConfig
  pub backend : ProxyBackend

pub record TcpProxyConfig : Type 0 where
  pub base : ProxyBaseConfig
  pub remote_port : ℤ

pub record UdpProxyConfig : Type 0 where
  pub base : ProxyBaseConfig
  pub remote_port : ℤ

pub record HttpProxyConfig : Type 0 where
  pub base : ProxyBaseConfig
  pub domains : DomainConfig
  pub locations : List Text
  pub http_user : String
  pub http_password : String
  pub host_header_rewrite : String
  pub request_headers : HeaderOperations
  pub response_headers : HeaderOperations
  pub route_by_http_user : String

pub record HttpsProxyConfig : Type 0 where
  pub base : ProxyBaseConfig
  pub domains : DomainConfig

pub record TcpMuxProxyConfig : Type 0 where
  pub base : ProxyBaseConfig
  pub domains : DomainConfig
  pub http_user : String
  pub http_password : String
  pub route_by_http_user : String
  pub multiplexer : String

pub record StcpProxyConfig : Type 0 where
  pub base : ProxyBaseConfig
  pub secret_key : String
  pub allow_users : List String

pub record XtcpProxyConfig : Type 0 where
  pub base : ProxyBaseConfig
  pub secret_key : String
  pub allow_users : List String
  pub nat_traversal : Option NatTraversalConfig

pub record SudpProxyConfig : Type 0 where
  pub base : ProxyBaseConfig
  pub secret_key : String
  pub allow_users : List String

pub data ProxyConfigurer : Type 0 where
  tcp : TcpProxyConfig → ProxyConfigurer
  udp : UdpProxyConfig → ProxyConfigurer
  http : HttpProxyConfig → ProxyConfigurer
  https : HttpsProxyConfig → ProxyConfigurer
  tcpmux : TcpMuxProxyConfig → ProxyConfigurer
  stcp : StcpProxyConfig → ProxyConfigurer
  xtcp : XtcpProxyConfig → ProxyConfigurer
  sudp : SudpProxyConfig → ProxyConfigurer

unfoldable pub get_base_config : ProxyConfigurer → ProxyBaseConfig
get_base_config (tcp c) = c.base
get_base_config (udp c) = c.base
get_base_config (http c) = c.base
get_base_config (https c) = c.base
get_base_config (tcpmux c) = c.base
get_base_config (stcp c) = c.base
get_base_config (xtcp c) = c.base
get_base_config (sudp c) = c.base

abbrev pub no_transport : ProxyTransport
no_transport = record {
  use_encryption = false;
  use_compression = false;
  bandwidth_limit = no_limit;
  bandwidth_limit_mode = "";
  proxy_protocol_version = "";
}

abbrev pub no_health_check : HealthCheckConfig
no_health_check = record {
  type = "";
  timeout_seconds = pos 0;
  max_failed = pos 0;
  interval_seconds = pos 0;
  path = "";
  http_headers = [];
}

abbrev pub no_backend : ProxyBackend
no_backend = record { local_ip = ""; local_port = pos 0; plugin = no_plugin }

abbrev pub no_domains : DomainConfig
no_domains = record { custom_domains = []; sub_domain = [] }

abbrev pub no_headers : HeaderOperations
no_headers = record { set = [] }

-- the zero value, with its type set
abbrev pub new_base : String → ProxyBaseConfig
new_base type = record {
  name = "";
  type = type;
  enabled = none;
  annotations = [];
  transport = no_transport;
  metadatas = [];
  load_balancer = record { group = ""; group_key = "" };
  health_check = no_health_check;
  backend = no_backend;
}

-- the zero value of each kind: the pairs of `proxyConfigTypeMap`
abbrev pub new_tcp : ProxyConfigurer
new_tcp = tcp (record { base = new_base "tcp"; remote_port = pos 0 })

abbrev pub new_udp : ProxyConfigurer
new_udp = udp (record { base = new_base "udp"; remote_port = pos 0 })

abbrev pub new_http : ProxyConfigurer
new_http = http (record {
  base = new_base "http";
  domains = no_domains;
  locations = [];
  http_user = "";
  http_password = "";
  host_header_rewrite = "";
  request_headers = no_headers;
  response_headers = no_headers;
  route_by_http_user = "";
})

abbrev pub new_https : ProxyConfigurer
new_https = https (record { base = new_base "https"; domains = no_domains })

abbrev pub new_tcpmux : ProxyConfigurer
new_tcpmux = tcpmux (record {
  base = new_base "tcpmux";
  domains = no_domains;
  http_user = "";
  http_password = "";
  route_by_http_user = "";
  multiplexer = "";
})

abbrev pub new_stcp : ProxyConfigurer
new_stcp = stcp (record { base = new_base "stcp"; secret_key = ""; allow_users = [] })

abbrev pub new_xtcp : ProxyConfigurer
new_xtcp =
    xtcp
      (record { base = new_base "xtcp"; secret_key = ""; allow_users = []; nat_traversal = none })

abbrev pub new_sudp : ProxyConfigurer
new_sudp = sudp (record { base = new_base "sudp"; secret_key = ""; allow_users = [] })

unfoldable pub new_proxy_configurer_by_type : String → Option ProxyConfigurer
new_proxy_configurer_by_type type =
    if type == "tcp"
    then some new_tcp
    else if type == "udp"
    then some new_udp
    else if type == "http"
    then some new_http
    else if type == "https"
    then some new_https
    else if type == "tcpmux"
    then some new_tcpmux
    else if type == "stcp"
    then some new_stcp
    else if type == "xtcp"
    then some new_xtcp
    else if type == "sudp"
    then some new_sudp
    else none

unfoldable pub complete_base : ProxyBaseConfig → ProxyBaseConfig
complete_base c = record c {
  transport = record c.transport {
    bandwidth_limit_mode = str_or c.transport.bandwidth_limit_mode "client";
  };
  backend = record c.backend {
    local_ip = str_or c.backend.local_ip "127.0.0.1";
    plugin = complete_plugin c.backend.plugin;
  };
}

-- every kind has the `Complete` of the base that it embeds
unfoldable pub complete : ProxyConfigurer → ProxyConfigurer
unfolding complete_base
complete (tcp c) = tcp (record c { base = complete_base c.base })
complete (udp c) = udp (record c { base = complete_base c.base })
complete (http c) = http (record c { base = complete_base c.base })
complete (https c) = https (record c { base = complete_base c.base })
complete (tcpmux c) = tcpmux (record c { base = complete_base c.base })
complete (stcp c) = stcp (record c { base = complete_base c.base })
complete (xtcp c) = xtcp (record c { base = complete_base c.base })
complete (sudp c) = sudp (record c { base = complete_base c.base })
