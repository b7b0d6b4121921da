-- ===== src/Message.antt =====
-- pkg/msg/msg.go: the message by which a client announces a proxy. A text that the model walks is a
-- list of bytes.
use cnfrp.Common.{Bool, false, List, [], String}
use cnfrp.Common.Bytes.{Text}
use cnfrp.Common.Dict.{Dict}
use cnfrp.Common.Integer.{ℤ, pos}

pub record NewProxy : Type 0 where
  pub proxy_name : String
  pub proxy_type : String
  pub use_encryption : Bool
  pub use_compression : Bool
  pub bandwidth_limit : Text
  pub bandwidth_limit_mode : String
  pub group : String
  pub group_key : String
  pub metas : Dict String String
  pub annotations : Dict Text Text
  pub remote_port : ℤ
  pub custom_domains : List Text
  pub sub_domain : Text
  pub locations : List Text
  pub http_user : String
  pub http_pwd : String
  pub host_header_rewrite : String
  pub headers : Dict String String
  pub response_headers : Dict String String
  pub route_by_http_user : String
  pub sk : String
  pub allow_users : List String
  pub multiplexer : String

-- `msg.NewProxy{}`
abbrev pub empty_message : NewProxy
empty_message = record {
  proxy_name = "";
  proxy_type = "";
  use_encryption = false;
  use_compression = false;
  bandwidth_limit = [];
  bandwidth_limit_mode = "";
  group = "";
  group_key = "";
  metas = [];
  annotations = [];
  remote_port = pos 0;
  custom_domains = [];
  sub_domain = [];
  locations = [];
  http_user = "";
  http_pwd = "";
  host_header_rewrite = "";
  headers = [];
  response_headers = [];
  route_by_http_user = "";
  sk = "";
  allow_users = [];
  multiplexer = "";
}
