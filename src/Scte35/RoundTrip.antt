-- ===== src/Scte35/RoundTrip.antt =====
-- What src/scte35/emitter.h writes, src/scte35/parser.cpp reads back.
pub mod Ranges
pub mod Times
pub mod Loops
pub mod Insert
pub mod Schedule
pub mod Commands
pub mod Sizes
pub mod Descriptors
pub mod Section
pub mod Layout
pub mod Whole
pub mod Stream
