-- ===== src/Config/Server/Defaults.antt =====
-- pkg/config/v1/server.go: the defaults of the server's configuration.
use cnfrp.Common.{
  ◌≡◌, refl, ap, Bool, true, not, String, ◌==◌, string_eq, if◌then◌else◌, arith, str_eq_iff,
  Bool-cases, inl, inr,
}
use cnfrp.Common.Integer.{pos, lt_int}
use cnfrp.Config.Values.{str_or, str_or_idem, int_or_idem, ptr_or_idem}
use cnfrp.Config.Options.{
  WebServerConfig, complete_web_server, complete_web_server_idem, complete_log_idem,
  complete_quic_idem,
}
use cnfrp.Config.Server.{
  ServerConfig, complete_server, complete_address, complete_transport, complete_auth,
  complete_gateway,
}

loopback_stays : (a : String) → str_or (str_or a "127.0.0.1") "0.0.0.0" ≡ str_or a "127.0.0.1"
unfolding str_or
loopback_stays a = elim (Bool-cases (a == "")) [ inl e ↦ rw e refl | inr e ↦ rw (e, e) refl ]

pub complete_address_id :
    (c : WebServerConfig) → complete_address (complete_web_server c) ≡ complete_web_server c
unfolding complete_address complete_web_server
complete_address_id c = elim (Bool-cases (lt_int (pos 0) c.port)) [
  | inl e ↦ rw e (ap (λ (a : String). record c { addr = a }) (loopback_stays c.addr))
  | inr e ↦ rw e refl
]

address_idem :
    (c : WebServerConfig)
    → complete_address (complete_web_server (complete_address (complete_web_server c)))
      ≡ complete_address (complete_web_server c)
address_idem c =
    rw (complete_address_id c, complete_address_id (complete_web_server c))
      (complete_web_server_idem c)

force_idem :
    (ca : String) (force : Bool)
    → (if not (ca == "") then true else if not (ca == "") then true else force)
      ≡ (if not (ca == "") then true else force)
force_idem ca force = ground arith

proxy_addr_idem :
    (p b : String)
    → (let first = if p == "" then b else p in if first == "" then b else first)
      ≡ (if p == "" then b else p)
proxy_addr_idem p b = ground (arith, str_eq_iff p "", str_eq_iff b "")

pub complete_server_idem :
    (c : ServerConfig) → complete_server (complete_server c) ≡ complete_server c
unfolding complete_server complete_auth complete_gateway complete_transport
complete_server_idem c = simp (
  str_or_idem, int_or_idem, ptr_or_idem, complete_log_idem, address_idem, complete_quic_idem,
  force_idem, proxy_addr_idem,
)
