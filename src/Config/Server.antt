-- ===== src/Config/Server.antt =====
-- pkg/config/v1/server.go: the server's configuration and its defaults. A number of any width is an
-- integer. `Version` is the embedded APIMetadata.
pub mod Defaults
pub mod Completed
use cnfrp.Common.{
  ◌≡◌, refl, sym, ap, ◌∙◌, Bool, true, false, not, Option, none, some, List, [], String, ◌==◌,
  string_eq, if◌then◌else◌,
}
use cnfrp.Common.Bytes.{Text}
use cnfrp.Common.Integer.{ℤ, pos, negsuc, lt_int}
use cnfrp.Config.Values.{str_or, int_or, ptr_or, str_or_idem, int_or_idem, ptr_or_idem}
use cnfrp.Config.Options.{
  QuicOptions, complete_quic, TlsConfig, WebServerConfig, complete_web_server, LogConfig,
  complete_log, HttpPluginOptions,
}
use cnfrp.Config.ValueSource.{ValueSource}
use cnfrp.Ports.{PortsRange}

pub record AuthOidcServerConfig : Type 0 where
  pub issuer : String
  pub audience : String
  pub skip_expiry_check : Bool
  pub skip_issuer_check : Bool

pub record AuthServerConfig : Type 0 where
  pub method : String
  pub additional_scopes : List String
  pub token : String
  pub token_source : Option ValueSource
  pub oidc : AuthOidcServerConfig

unfoldable pub complete_auth : AuthServerConfig → AuthServerConfig
complete_auth c = record c { method = str_or c.method "token" }

-- the embedded TLSConfig is `tls`
pub record TlsServerConfig : Type 0 where
  pub force : Bool
  pub tls : TlsConfig

pub record ServerTransportConfig : Type 0 where
  pub tcp_mux : Option Bool
  pub tcp_mux_keepalive_interval : ℤ
  pub tcp_keep_alive : ℤ
  pub max_pool_count : ℤ
  pub heartbeat_timeout : ℤ
  pub quic : QuicOptions
  pub tls : TlsServerConfig

-- `lo.FromPtr` at a Boolean
unfoldable pub from_ptr : Option Bool → Bool
from_ptr none = false
from_ptr (some b) = b

unfoldable pub heartbeat_default : Option Bool → ℤ
unfolding from_ptr
heartbeat_default tcp_mux = if from_ptr tcp_mux then negsuc 0 else pos 90

unfoldable pub complete_transport : ServerTransportConfig → ServerTransportConfig
unfolding heartbeat_default
complete_transport c =
    let tcp_mux = ptr_or c.tcp_mux (some true) in
    record c {
      tcp_mux = tcp_mux;
      tcp_mux_keepalive_interval = int_or c.tcp_mux_keepalive_interval (pos 30);
      tcp_keep_alive = int_or c.tcp_keep_alive (pos 7200);
      max_pool_count = int_or c.max_pool_count (pos 5);
      heartbeat_timeout = int_or c.heartbeat_timeout (heartbeat_default tcp_mux);
      quic = complete_quic c.quic;
      tls = record c.tls {
        force = if not (c.tls.tls.trusted_ca_file == "") then true else c.tls.force;
      };
    }

-- SSHTunnelGateway
pub record SshTunnelGateway : Type 0 where
  pub bind_port : ℤ
  pub private_key_file : String
  pub auto_gen_private_key_path : String
  pub authorized_keys_file : String

unfoldable pub complete_gateway : SshTunnelGateway → SshTunnelGateway
complete_gateway c = record c {
  auto_gen_private_key_path = str_or c.auto_gen_private_key_path "./.autogen_ssh_key";
}

pub record ServerConfig : Type 0 where
  pub version : String
  pub auth : AuthServerConfig
  pub bind_addr : String
  pub bind_port : ℤ
  pub kcp_bind_port : ℤ
  pub quic_bind_port : ℤ
  pub proxy_bind_addr : String
  pub vhost_http_port : ℤ
  pub vhost_http_timeout : ℤ
  pub vhost_https_port : ℤ
  pub tcp_mux_http_connect_port : ℤ
  pub tcp_mux_passthrough : Bool
  pub sub_domain_host : Text
  pub custom404_page : String
  pub ssh_tunnel_gateway : SshTunnelGateway
  pub web_server : WebServerConfig
  pub enable_prometheus : Bool
  pub log : LogConfig
  pub transport : ServerTransportConfig
  pub detailed_errors_to_client : Option Bool
  pub max_ports_per_client : ℤ
  pub user_conn_timeout : ℤ
  pub udp_packet_size : ℤ
  pub nat_hole_analysis_data_reserve_hours : ℤ
  pub allow_ports : List PortsRange
  pub http_plugins : List HttpPluginOptions

-- `if c.WebServer.Port > 0`, after `c.WebServer.Complete()`
unfoldable pub complete_address : WebServerConfig → WebServerConfig
complete_address c =
    if lt_int (pos 0) c.port then record c { addr = str_or c.addr "0.0.0.0" } else c

-- `c.Auth.Complete` never returns an error
unfoldable pub complete_server : ServerConfig → ServerConfig
unfolding complete_auth complete_transport complete_gateway complete_address
complete_server c =
    let bind_addr = str_or c.bind_addr "0.0.0.0" in
    record c {
      auth = complete_auth c.auth;
      log = complete_log c.log;
      transport = complete_transport c.transport;
      web_server = complete_address (complete_web_server c.web_server);
      ssh_tunnel_gateway = complete_gateway c.ssh_tunnel_gateway;
      bind_addr = bind_addr;
      bind_port = int_or c.bind_port (pos 7000);
      proxy_bind_addr = if c.proxy_bind_addr == "" then bind_addr else c.proxy_bind_addr;
      vhost_http_timeout = int_or c.vhost_http_timeout (pos 60);
      detailed_errors_to_client = ptr_or c.detailed_errors_to_client (some true);
      user_conn_timeout = int_or c.user_conn_timeout (pos 10);
      udp_packet_size = int_or c.udp_packet_size (pos 1500);
      nat_hole_analysis_data_reserve_hours =
          int_or c.nat_hole_analysis_data_reserve_hours (pos 168);
    }
