-- ===== src/Config.antt =====
-- pkg/config: the values of a configuration, their defaults, the message that a proxy is announced
-- by, and the validation.
pub mod Values
pub mod Bandwidth
pub mod Plugin
pub mod Options
pub mod ValueSource
pub mod Server
pub mod Validate
pub mod Load
pub mod Proxy
pub mod Tests
