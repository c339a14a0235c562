-- ===== src/BodyIo.antt =====
-- src/proto/h1/body_io.rs: the loops between a body and the transport.
pub mod Transmit
pub mod Wire
pub mod Delivery
pub mod Receive
pub mod Arrival
pub mod Arrives
pub mod Ending
pub mod Rounds
pub mod Handover
pub mod Work
pub mod Framed
pub mod Acting
