-- ===== src/Config/Proxy/Announce.antt =====
-- pkg/config/v1/proxy.go, `MarshalToMsg` and `UnmarshalFromMsg`: the message that announces a proxy.
-- `scaled` is as in Config/Bandwidth.antt.
use cnfrp.Common.{ℕ, Option, [], ◌==◌, string_eq, not, if◌then◌else◌}
use cnfrp.Common.Bytes.{Text, text_eq}
use cnfrp.Common.Integer.{ℤ}
use cnfrp.Message.{NewProxy}
use cnfrp.Config.Bandwidth.{new_bandwidth_quantity}
use cnfrp.Config.Proxy.{
  ProxyBaseConfig, ProxyConfigurer, tcp, udp, http, https, tcpmux, stcp, xtcp, sudp,
}

unfoldable pub marshal_base : ProxyBaseConfig → NewProxy → NewProxy
marshal_base c m = record m {
  proxy_name = c.name;
  proxy_type = c.type;
  use_encryption = c.transport.use_encryption;
  use_compression = c.transport.use_compression;
  bandwidth_limit = c.transport.bandwidth_limit.s;
  bandwidth_limit_mode =
      if not (c.transport.bandwidth_limit_mode == "client")
      then c.transport.bandwidth_limit_mode
      else m.bandwidth_limit_mode;
  group = c.load_balancer.group;
  group_key = c.load_balancer.group_key;
  metas = c.metadatas;
  annotations = c.annotations;
}

unfoldable pub marshal_to_msg : ProxyConfigurer → NewProxy → NewProxy
unfolding marshal_base
marshal_to_msg (tcp c) m = record (marshal_base c.base m) { remote_port = c.remote_port }
marshal_to_msg (udp c) m = record (marshal_base c.base m) { remote_port = c.remote_port }
marshal_to_msg (http c) m = record (marshal_base c.base m) {
  custom_domains = c.domains.custom_domains;
  sub_domain = c.domains.sub_domain;
  locations = c.locations;
  host_header_rewrite = c.host_header_rewrite;
  http_user = c.http_user;
  http_pwd = c.http_password;
  headers = c.request_headers.set;
  response_headers = c.response_headers.set;
  route_by_http_user = c.route_by_http_user;
}
marshal_to_msg (https c) m = record (marshal_base c.base m) {
  custom_domains = c.domains.custom_domains;
  sub_domain = c.domains.sub_domain;
}
marshal_to_msg (tcpmux c) m = record (marshal_base c.base m) {
  custom_domains = c.domains.custom_domains;
  sub_domain = c.domains.sub_domain;
  multiplexer = c.multiplexer;
  http_user = c.http_user;
  http_pwd = c.http_password;
  route_by_http_user = c.route_by_http_user;
}
marshal_to_msg (stcp c) m = record (marshal_base c.base m) {
  sk = c.secret_key;
  allow_users = c.allow_users;
}
marshal_to_msg (xtcp c) m = record (marshal_base c.base m) {
  sk = c.secret_key;
  allow_users = c.allow_users;
}
marshal_to_msg (sudp c) m = record (marshal_base c.base m) {
  sk = c.secret_key;
  allow_users = c.allow_users;
}

module _ (scaled : ℕ → Text → Option ℤ) where
  unfoldable pub unmarshal_base : ProxyBaseConfig → NewProxy → ProxyBaseConfig
  unmarshal_base c m = record c {
    name = m.proxy_name;
    type = m.proxy_type;
    transport = record c.transport {
      use_encryption = m.use_encryption;
      use_compression = m.use_compression;
      bandwidth_limit =
          if not (m.bandwidth_limit == [])
          then (new_bandwidth_quantity scaled m.bandwidth_limit).1
          else c.transport.bandwidth_limit;
      bandwidth_limit_mode =
          if not (m.bandwidth_limit_mode == "")
          then m.bandwidth_limit_mode
          else c.transport.bandwidth_limit_mode;
    };
    load_balancer = record c.load_balancer { group = m.group; group_key = m.group_key };
    metadatas = m.metas;
    annotations = m.annotations;
  }

  unfoldable pub unmarshal_from_msg : ProxyConfigurer → NewProxy → ProxyConfigurer
  unfolding unmarshal_base
  unmarshal_from_msg (tcp c) m =
      tcp (record c { base = unmarshal_base c.base m; remote_port = m.remote_port })
  unmarshal_from_msg (udp c) m =
      udp (record c { base = unmarshal_base c.base m; remote_port = m.remote_port })
  unmarshal_from_msg (http c) m = http (record c {
    base = unmarshal_base c.base m;
    domains = record c.domains { custom_domains = m.custom_domains; sub_domain = m.sub_domain };
    locations = m.locations;
    host_header_rewrite = m.host_header_rewrite;
    http_user = m.http_user;
    http_password = m.http_pwd;
    request_headers = record c.request_headers { set = m.headers };
    response_headers = record c.response_headers { set = m.response_headers };
    route_by_http_user = m.route_by_http_user;
  })
  unmarshal_from_msg (https c) m = https (record c {
    base = unmarshal_base c.base m;
    domains = record c.domains { custom_domains = m.custom_domains; sub_domain = m.sub_domain };
  })
  unmarshal_from_msg (tcpmux c) m = tcpmux (record c {
    base = unmarshal_base c.base m;
    domains = record c.domains { custom_domains = m.custom_domains; sub_domain = m.sub_domain };
    multiplexer = m.multiplexer;
    http_user = m.http_user;
    http_password = m.http_pwd;
    route_by_http_user = m.route_by_http_user;
  })
  unmarshal_from_msg (stcp c) m =
      stcp (record c {
        base = unmarshal_base c.base m;
        secret_key = m.sk;
        allow_users = m.allow_users;
      })
  unmarshal_from_msg (xtcp c) m =
      xtcp (record c {
        base = unmarshal_base c.base m;
        secret_key = m.sk;
        allow_users = m.allow_users;
      })
  unmarshal_from_msg (sudp c) m =
      sudp (record c {
        base = unmarshal_base c.base m;
        secret_key = m.sk;
        allow_users = m.allow_users;
      })
