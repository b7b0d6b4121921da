-- ===== src/Config/Server/Completed.antt =====
-- pkg/config/v1/server.go and common.go: what the defaults of the server's configuration are, written
-- out setting by setting.
use cnfrp.Common.{false, ◌≢◌, none, some, ◌≡◌, true, string_eq}
use cnfrp.Common.Integer.{pos, negsuc}
use cnfrp.Config.Server.{ServerConfig, ServerTransportConfig}

-- A setting that was `v` is now `after`: a default if it was empty, and else what it was.
abbrev pub Filled {ℓ} : {A : Type ℓ} → A → A → A → A → Type ℓ
Filled empty default v after = (v ≡ empty → after ≡ default) × (v ≢ empty → after ≡ v)

-- The defaults of the transport settings.
pub record CompletedTransport (c after : ServerTransportConfig) : Type 0 where
  pub tcp_mux : Filled none (some true) c.tcp_mux after.tcp_mux
  pub keepalive_interval :
      Filled (pos 0) (pos 30) c.tcp_mux_keepalive_interval after.tcp_mux_keepalive_interval
  pub tcp_keep_alive : Filled (pos 0) (pos 7200) c.tcp_keep_alive after.tcp_keep_alive
  pub max_pool_count : Filled (pos 0) (pos 5) c.max_pool_count after.max_pool_count
  -- without multiplexing the heartbeat ends a session after 90 seconds, with it never
  pub heartbeat_off :
      c.tcp_mux ≢ some false → Filled (pos 0) (negsuc 0) c.heartbeat_timeout after.heartbeat_timeout
  pub heartbeat_on :
      c.tcp_mux ≡ some false → Filled (pos 0) (pos 90) c.heartbeat_timeout after.heartbeat_timeout
  pub keepalive_period : Filled (pos 0) (pos 10) c.quic.keepalive_period after.quic.keepalive_period
  pub max_idle_timeout : Filled (pos 0) (pos 30) c.quic.max_idle_timeout after.quic.max_idle_timeout
  pub max_incoming_streams :
      Filled (pos 0) (pos 100000) c.quic.max_incoming_streams after.quic.max_incoming_streams
  pub forced : c.tls.tls.trusted_ca_file ≢ "" → after.tls.force ≡ true
  pub not_forced : c.tls.tls.trusted_ca_file ≡ "" → after.tls.force ≡ c.tls.force
  pub tls : after.tls.tls ≡ c.tls.tls

-- The defaults of the server's configuration.
pub record Completed (c after : ServerConfig) : Type 0 where
  pub method : Filled "" "token" c.auth.method after.auth.method
  pub log_to : Filled "" "console" c.log.to after.log.to
  pub log_level : Filled "" "info" c.log.level after.log.level
  pub log_max_days : Filled (pos 0) (pos 3) c.log.max_days after.log.max_days
  pub transport : CompletedTransport c.transport after.transport
  pub web_addr : Filled "" "127.0.0.1" c.web_server.addr after.web_server.addr
  pub gateway_key :
      Filled "" "./.autogen_ssh_key" c.ssh_tunnel_gateway.auto_gen_private_key_path
        after.ssh_tunnel_gateway.auto_gen_private_key_path
  pub bind_addr : Filled "" "0.0.0.0" c.bind_addr after.bind_addr
  pub bind_port : Filled (pos 0) (pos 7000) c.bind_port after.bind_port
  pub proxy_bind_addr : Filled "" after.bind_addr c.proxy_bind_addr after.proxy_bind_addr
  pub vhost_http_timeout : Filled (pos 0) (pos 60) c.vhost_http_timeout after.vhost_http_timeout
  pub detailed_errors :
      Filled none (some true) c.detailed_errors_to_client after.detailed_errors_to_client
  pub user_conn_timeout : Filled (pos 0) (pos 10) c.user_conn_timeout after.user_conn_timeout
  pub udp_packet_size : Filled (pos 0) (pos 1500) c.udp_packet_size after.udp_packet_size
  pub reserve_hours :
      Filled
        (pos 0)
        (pos 168)
        c.nat_hole_analysis_data_reserve_hours
        after.nat_hole_analysis_data_reserve_hours
  -- all else is as it was
  pub auth_kept : record after.auth { method = c.auth.method } ≡ c.auth
  pub log_kept :
      record after.log { to = c.log.to; level = c.log.level; max_days = c.log.max_days } ≡ c.log
  pub gateway_kept :
      record after.ssh_tunnel_gateway {
        auto_gen_private_key_path = c.ssh_tunnel_gateway.auto_gen_private_key_path;
      }
      ≡ c.ssh_tunnel_gateway
  pub web_kept : record after.web_server { addr = c.web_server.addr } ≡ c.web_server
  pub kept :
      record after {
        auth = c.auth;
        log = c.log;
        transport = c.transport;
        web_server = c.web_server;
        ssh_tunnel_gateway = c.ssh_tunnel_gateway;
        bind_addr = c.bind_addr;
        bind_port = c.bind_port;
        proxy_bind_addr = c.proxy_bind_addr;
        vhost_http_timeout = c.vhost_http_timeout;
        detailed_errors_to_client = c.detailed_errors_to_client;
        user_conn_timeout = c.user_conn_timeout;
        udp_packet_size = c.udp_packet_size;
        nat_hole_analysis_data_reserve_hours = c.nat_hole_analysis_data_reserve_hours;
      }
      ≡ c
