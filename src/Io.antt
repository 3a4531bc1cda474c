-- ===== src/Io.antt =====
-- src/io: which streams carry what, and the loop that moves packets from a source to a sink.
pub mod Streams
pub mod RemuxLoop
pub mod Handles
