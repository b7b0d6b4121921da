-- ===== src/Vhost.antt =====
-- pkg/util/vhost: the routing tables that choose the proxy for a host, a path and a user.
pub mod Router
pub mod Muxer
pub mod Tests
