-- ===== src/Config/Options.antt =====
-- pkg/config/v1/common.go: the parts that the configurations share, and their defaults.
use cnfrp.Common.{◌≡◌, Bool, Option, List, String}
use cnfrp.Common.Integer.{ℤ, pos}
use cnfrp.Config.Values.{str_or, int_or, str_or_idem, int_or_idem}

-- QUICOptions
pub record QuicOptions : Type 0 where
  pub keepalive_period : ℤ
  pub max_idle_timeout : ℤ
  pub max_incoming_streams : ℤ

unfoldable pub complete_quic : QuicOptions → QuicOptions
complete_quic c = record c {
  keepalive_period = int_or c.keepalive_period (pos 10);
  max_idle_timeout = int_or c.max_idle_timeout (pos 30);
  max_incoming_streams = int_or c.max_incoming_streams (pos 100000);
}

-- TLSConfig
pub record TlsConfig : Type 0 where
  pub cert_file : String
  pub key_file : String
  pub trusted_ca_file : String
  pub server_name : String

pub record WebServerConfig : Type 0 where
  pub addr : String
  pub port : ℤ
  pub user : String
  pub password : String
  pub assets_dir : String
  pub pprof_enable : Bool
  pub tls : Option TlsConfig

unfoldable pub complete_web_server : WebServerConfig → WebServerConfig
complete_web_server c = record c { addr = str_or c.addr "127.0.0.1" }

pub record LogConfig : Type 0 where
  pub to : String
  pub level : String
  pub max_days : ℤ
  pub disable_print_color : Bool

unfoldable pub complete_log : LogConfig → LogConfig
complete_log c = record c {
  to = str_or c.to "console";
  level = str_or c.level "info";
  max_days = int_or c.max_days (pos 3);
}

-- HTTPPluginOptions
pub record HttpPluginOptions : Type 0 where
  pub name : String
  pub addr : String
  pub path : String
  pub ops : List String
  pub tls_verify : Bool

pub complete_quic_idem : (c : QuicOptions) → complete_quic (complete_quic c) ≡ complete_quic c
unfolding complete_quic
complete_quic_idem c = simp int_or_idem

pub complete_web_server_idem :
    (c : WebServerConfig) → complete_web_server (complete_web_server c) ≡ complete_web_server c
unfolding complete_web_server
complete_web_server_idem c = simp str_or_idem

pub complete_log_idem : (c : LogConfig) → complete_log (complete_log c) ≡ complete_log c
unfolding complete_log
complete_log_idem c = simp (str_or_idem, int_or_idem)
