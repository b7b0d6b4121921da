-- ===== src/Config/Tests.antt =====
-- pkg/config: a proxy for a web site and one for a shell, on a server that serves web sites.
use cnfrp.Common.{
  ◌↔◌, ℕ, ◌*◌, ◌≡◌, refl, ◌≢◌, true, false, Option, none, some, List, [], ◌∷◌, String, ◌==◌, inr,
  if◌then◌else◌,
}
use cnfrp.Common.Bytes.{Text, text_eq, text_beq, split, split_at}
use cnfrp.Common.Integer.{ℤ, pos}
use cnfrp.Message.{NewProxy, empty_message}
use cnfrp.Config.Values.{str_or, int_or}
use cnfrp.Config.Bandwidth.{
  BandwidthQuantity, new_bandwidth_quantity, Made, trim_space, quantity, cut_suffix, is_space,
}
use cnfrp.Config.Options.{complete_web_server, complete_log}
use cnfrp.Config.Server.{
  ServerConfig, complete_server, complete_auth, complete_transport, complete_address,
  complete_gateway,
}
use cnfrp.Config.Server.Completed.{Completed}
use cnfrp.Config.Proxy.{
  ProxyConfigurer, new_base, no_transport, no_headers, tcp, http, complete, complete_base,
  get_base_config, new_proxy_configurer_by_type,
}
use cnfrp.Config.Plugin.{complete_plugin}
use cnfrp.Config.Validate.{
  append_error, validate_log, validate_web_server, validate_tls_files, validate_port, contains,
  every,
}
use cnfrp.Config.Validate.Proxy.{
  validate_proxy_for_server, or_else, annotations_error, validate_annotations,
  validate_http_for_server, unset, validate_domain_for_server, validate_custom_domains,
  validate_subdomain, below_host, has_suffix,
}
use cnfrp.Config.Proxy.Announce.{marshal_to_msg, unmarshal_from_msg, unmarshal_base}
use cnfrp.Config.Proxy.RoundTrip.{transferred, kind}
use cnfrp.Config.Validate.Server.{
  validate_server_config, check_plugins, check_ports, check_auth, check_token_source, error_if,
}
use cnfrp.Config.Validate.Laws.{ValidServer}
use cnfrp.Config.Validate.Accepts.{accepted_server}
use cnfrp.Config.Load.{checked, from_typed, new_proxy_configurer_from_msg}
use cnfrp.Config.Load.Laws.{read-announced}
use cnfrp.Config.Load.Domains.{Servable, taken-Servable}

-- reads the number 2 only
abbrev scaled : ℕ → Text → Option ℤ
scaled unit number = if number == (b'2' ∷ []) then some (pos (2 * unit)) else none

abbrev any_name : Text → List String
any_name key = []

abbrev limit_mode : String
limit_mode = "server"

-- 2MB
abbrev limit : BandwidthQuantity
limit = record { s = b'2' ∷ b'M' ∷ b'B' ∷ []; i = pos 2097152 }

abbrev host : Text
host = b'f' ∷ b'.' ∷ b'i' ∷ b'o' ∷ []

abbrev blank : ServerConfig
blank = record {
  version = "";
  auth = record {
    method = "";
    additional_scopes = [];
    token = "secret";
    token_source = none;
    oidc = record {
      issuer = "";
      audience = "";
      skip_expiry_check = false;
      skip_issuer_check = false;
    };
  };
  bind_addr = "";
  bind_port = pos 0;
  kcp_bind_port = pos 0;
  quic_bind_port = pos 0;
  proxy_bind_addr = "";
  vhost_http_port = pos 80;
  vhost_http_timeout = pos 0;
  vhost_https_port = pos 443;
  tcp_mux_http_connect_port = pos 0;
  tcp_mux_passthrough = false;
  sub_domain_host = host;
  custom404_page = "";
  ssh_tunnel_gateway = record {
    bind_port = pos 0;
    private_key_file = "";
    auto_gen_private_key_path = "";
    authorized_keys_file = "";
  };
  web_server = record {
    addr = "";
    port = pos 7500;
    user = "";
    password = "";
    assets_dir = "";
    pprof_enable = false;
    tls = none;
  };
  enable_prometheus = false;
  log = record { to = ""; level = ""; max_days = pos 0; disable_print_color = false };
  transport = record {
    tcp_mux = none;
    tcp_mux_keepalive_interval = pos 0;
    tcp_keep_alive = pos 0;
    max_pool_count = pos 0;
    heartbeat_timeout = pos 0;
    quic = record {
      keepalive_period = pos 0;
      max_idle_timeout = pos 0;
      max_incoming_streams = pos 0;
    };
    tls = record {
      force = false;
      tls = record { cert_file = ""; key_file = ""; trusted_ca_file = ""; server_name = "" };
    };
  };
  detailed_errors_to_client = none;
  max_ports_per_client = pos 0;
  user_conn_timeout = pos 0;
  udp_packet_size = pos 0;
  nat_hole_analysis_data_reserve_hours = pos 0;
  allow_ports = record { start = 2000; last = 3000; single = 0 } ∷ [];
  http_plugins = [];
}

abbrev shell : ProxyConfigurer
shell = tcp (record {
  base = record (new_base "tcp") {
    name = "ssh";
    enabled = some true;
    transport = record no_transport {
      bandwidth_limit = limit;
      bandwidth_limit_mode = limit_mode;
      proxy_protocol_version = "v2";
    };
  };
  remote_port = pos 2022;
})

abbrev site_message : NewProxy
site_message = record empty_message {
  proxy_name = "web";
  proxy_type = "http";
  custom_domains = (b'a' ∷ b'.' ∷ b'i' ∷ b'o' ∷ []) ∷ [];
  sub_domain = b'w' ∷ [];
}

abbrev site : ProxyConfigurer
site = http (record {
  base = complete_base (record (new_base "http") { name = "web" });
  domains = record {
    custom_domains = (b'a' ∷ b'.' ∷ b'i' ∷ b'o' ∷ []) ∷ [];
    sub_domain = b'w' ∷ [];
  };
  locations = [];
  http_user = "";
  http_password = "";
  host_header_rewrite = "";
  request_headers = no_headers;
  response_headers = no_headers;
  route_by_http_user = "";
})

limit-Made : Made scaled limit
unfolding new_bandwidth_quantity trim_space quantity cut_suffix is_space text_beq
limit-Made = inr (refl, refl)

server_is_a_mode : limit_mode ≢ ""
server_is_a_mode e = cc

read-announced_example :
    new_proxy_configurer_from_msg scaled any_name blank (marshal_to_msg shell empty_message)
    ≡ checked scaled any_name blank (transferred shell)
unfolding kind get_base_config
read-announced_example = read-announced scaled any_name blank shell refl limit-Made server_is_a_mode

site_taken : new_proxy_configurer_from_msg scaled any_name blank site_message ≡ inr site
unfolding new_proxy_configurer_from_msg from_typed checked new_proxy_configurer_by_type str_or
    complete complete_base complete_plugin unmarshal_from_msg unmarshal_base
    validate_proxy_for_server or_else annotations_error validate_annotations get_base_config
    validate_http_for_server unset validate_domain_for_server validate_custom_domains
    validate_subdomain below_host has_suffix split split_at text_beq
site_taken = refl

blank_valid : validate_server_config (some []) (complete_server blank) ≡ []
unfolding validate_server_config complete_server complete_auth complete_log complete_transport
    complete_address complete_web_server complete_gateway check_plugins check_ports check_auth
    check_token_source append_error error_if validate_log validate_web_server validate_tls_files
    validate_port contains every str_or int_or
blank_valid = refl

taken-Servable_example : Servable blank site
taken-Servable_example = taken-Servable any_name blank scaled site_message site site_taken

accepted_server_example :
    (validate_server_config (some []) (complete_server blank) ≡ [])
    ↔ ValidServer (some []) (complete_server blank)
accepted_server_example = accepted_server (some []) (complete_server blank)
