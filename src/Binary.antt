-- ===== src/Binary.antt =====
-- src/binary_parser.h, src/binary_parser_util.h, src/binary_emitter_util.h: reading and writing
-- big-endian fields. The bytes from `ptr` to `endptr` are a list; a reader takes it and returns what
-- is left, and a writer returns the bytes that it puts to the output iterator.
pub mod Outcome
pub mod Read
pub mod Write
pub mod RoundTrip
pub mod Parser
