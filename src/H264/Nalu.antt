-- ===== src/H264/Nalu.antt =====
-- src/h264/nalu.h, src/h264/nalu_parser.cpp, src/h264/av_packet_nalu_parser.h: NAL units in AVCC
-- framing. A NALU is the list of its bytes.
pub mod Bounds
pub mod Framing
pub mod Names
use metamix.Base.{
  ℕ, zero, suc, ◌+◌, ◌-◌, ◌*◌, ◌/◌, ◌%◌, ◌^◌, List, [], ◌∷◌, ◌++◌, Bool, true, false,
}
use metamix.Base.{◌&&◌, not, Option, none, some, if◌then◌else◌, ltb, leb, ◌==◌, length, take, drop}
use metamix.Binary.Outcome.{
  Outcome, ok, throw, nalu_length_size, nalu_empty, nalu_too_large, nalu_overflow,
}
use metamix.Binary.Parser.{Format}
use metamix.Binary.Write.{write_32}

-- Nalu::MAX_LENGTH
abbrev pub max_length : ℕ
max_length = 4 * 1024 * 2014

-- front(): the first byte; the callers test for an empty slice first.
unfoldable pub front : List ℕ → ℕ
front [] = 0
front (b ∷ bs) = b

unfoldable pub is_empty : List ℕ → Bool
is_empty [] = true
is_empty (b ∷ bs) = false

-- !empty() > 0 && (front() & 0b1'00'00000) == 0
unfoldable pub is_valid : List ℕ → Bool
unfolding front is_empty
is_valid nalu = not (is_empty nalu) && (front nalu / 128 % 2 == 0)

-- front() & 0b0'00'11111: the NaluType is the number of its enumerator.
unfoldable pub nalu_type : List ℕ → ℕ
unfolding front
nalu_type nalu = front nalu % 32

-- NaluType::SEI, NaluType::SPS, NaluType::PPS and NaluType::AUD
abbrev pub sei_nalu : ℕ
sei_nalu = 6

abbrev pub sps_nalu : ℕ
sps_nalu = 7

abbrev pub pps_nalu : ℕ
pps_nalu = 8

abbrev pub aud_nalu : ℕ
aud_nalu = 9

-- parse_avcc_nalu_length: nalu_length_size bytes, right-aligned in a big-endian uint32_t.
unfoldable pub big_endian : ℕ → List ℕ → ℕ
big_endian acc [] = acc
big_endian acc (b ∷ bs) = big_endian (acc * 256 + b) bs

unfoldable pub parse_avcc_nalu_length : List ℕ → ℕ → ℕ
unfolding big_endian
parse_avcc_nalu_length bytes size = big_endian 0 (take size bytes)

-- BinaryParserBounds, with the distance from startptr.
pub record NaluBounds : Type 0 where
  pub offset : ℕ
  pub count : ℕ

unfoldable pub next_avcc_bounds : ℕ → List ℕ → Outcome (Option NaluBounds)
unfolding parse_avcc_nalu_length
next_avcc_bounds nalu_length_size_minus_one bytes =
    let size = nalu_length_size_minus_one + 1 in
    let nalu_length = parse_avcc_nalu_length bytes size in
    if length bytes == 0
    then ok none
    else if ltb (length bytes) size
    then throw nalu_length_size
    else if nalu_length == 0
    then throw nalu_empty
    else if ltb max_length nalu_length
    then throw nalu_too_large
    else if ltb (length bytes) (size + nalu_length)
    then throw nalu_overflow
    else ok (some (record { offset = size; count = nalu_length }))

-- nalu_parser_next, by way of next_avcc_bounds_4
unfoldable pub nalu_parser_next : List ℕ → Outcome (Option NaluBounds)
unfolding next_avcc_bounds
nalu_parser_next bytes = next_avcc_bounds 3 bytes

-- av_packet_nalu_parser_pack: the slice of the packet inside the bounds.
abbrev pub nalu_format : Format (List ℕ) NaluBounds
nalu_format = record {
  next_bounds = nalu_parser_next;
  start = λ b. b.offset;
  size = λ b. b.count;
  pack = λ b bytes. ok bytes;
}

-- emit_nalu_length<OutputIt, 4> of src/h264/emitter.h
unfoldable pub emit_nalu_length : ℕ → List ℕ
unfolding write_32
emit_nalu_length nalu_length = write_32 nalu_length

-- emit_avcc_nalu of src/h264/emitter.h
unfoldable pub emit_avcc_nalu : List ℕ → List ℕ
unfolding emit_nalu_length
emit_avcc_nalu nalu = emit_nalu_length (length nalu % 2 ^ 32) ++ nalu
