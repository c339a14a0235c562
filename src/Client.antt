-- ===== src/Client.antt =====
-- src/proto/h1/client.rs: one exchange of a client connection.
pub mod Heads
pub mod Split
pub mod Response
pub mod Responds
pub mod Settle
pub mod Grants
pub mod Origin
pub mod Run
pub mod Receipts
pub mod Parted
