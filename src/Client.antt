-- ===== src/Client.antt =====
-- client/proxy and client/health: the proxies that a client keeps running at the server.
pub mod Naming
pub mod Health
pub mod Wrapper
pub mod Manager
pub mod Tests
