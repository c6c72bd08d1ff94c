-- ===== src/Yamux.antt =====
-- layers/yamux.rs and layers/yamux/header.rs: the frames of a yamux session and its streams.
pub mod Header
pub mod State
pub mod Api
pub mod Read
pub mod Write
pub mod Next
pub mod Steps
pub mod Invariant
pub mod Queues
