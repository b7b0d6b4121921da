-- ===== src/NatHole.antt =====
-- pkg/nathole: how the server classifies the NAT of two peers and tells each what to do to open a
-- direct connection.
pub mod Classify
pub mod Analysis
pub mod Tests
