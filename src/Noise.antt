-- ===== src/Noise.antt =====
-- layers/noise.rs: the handshake payload, the frames and the streams of the encrypted session. The
-- cryptography is the package `snow`, a parameter.
pub mod Payload
pub mod PayloadRoundTrip
pub mod Frames
pub mod Delivery
pub mod Handshake
pub mod Authentic
