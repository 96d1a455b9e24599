-- ===== src/Framing.antt =====
-- crates/protocol/src/framing.rs: messages in frames with a length prefix of four bytes.
-- The serializers (bincode, rmp_serde) and the streams (tokio) are parameters.
pub mod Codec
pub mod Stream
pub mod RoundTrip
pub mod Reading
pub mod Writing
mod Tests
