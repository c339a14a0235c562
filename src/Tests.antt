-- ===== src/Tests.antt =====
-- Runs on concrete inputs, and the uses of the theorems at such inputs.
pub mod Parser
pub mod Bodies
pub mod Heads
pub mod Sending
pub mod Exchanges
pub mod Admissions
pub mod Pipes
pub mod Transport
pub mod Clients
