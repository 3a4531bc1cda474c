-- ===== src/Scte35.antt =====
-- src/scte35: splice info sections, their parser and their emitter.
pub mod Types
pub mod Crc
pub mod Emitter
pub mod Parser
pub mod RoundTrip
pub mod Equality
mod Tests
