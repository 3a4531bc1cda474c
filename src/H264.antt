-- ===== src/H264.antt =====
-- src/h264: NAL units, emulation prevention and SEI payloads.
pub mod Rbsp
pub mod Nalu
pub mod Sei
pub mod StdSeis
mod Tests
