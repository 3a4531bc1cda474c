-- ===== src/Scte35/Parser/Section.antt =====
-- scte35_parser_next and scte35_parser_pack of src/scte35/parser.cpp.
use metamix.Base.{ℕ, ◌+◌, ◌-◌, ◌/◌, ◌%◌, ◌^◌, List, [], Bool, true, false, not, Option, none, some}
use metamix.Base.{length, take, drop, if◌then◌else◌, ltb, leb, ◌==◌, ◌||◌}
use metamix.Binary.Outcome.{Outcome, ok, throw, bind, Reader, pure, ◌>>=◌, ◌>>◌, test_const}
use metamix.Binary.Outcome.{unsupported_command, encrypted_packet, command_length, crc_mismatch}
use metamix.Binary.Read.{
  scan_flag, scan_8, read_8, scan_12_high, read_12_low, read_16, read_32, read_33,
}
use metamix.Binary.Parser.{Format}
use metamix.Scte35.Types.{SpliceInfoSection, Command, Descriptor, table_id, protocol_version}
use metamix.Scte35.Types.{splice_null, splice_insert, time_signal, bandwidth_reservation}
use metamix.Scte35.Crc.{compute}
use metamix.Scte35.Parser.{
  parse_splice_time, parse_splice_schedule, parse_splice_insert, parse_private_command,
}
use metamix.Scte35.Parser.Descriptors.{Compiler, available, descriptor_loop}

-- MIN_SIS_LENGTH
abbrev pub min_length : ℕ
min_length = 1 + 2 + 1 + 1 + 4 + 1 + 3 + 1 + 2 + 4

-- The skip of pointer_field: whether it was there.
unfoldable pub skip_pointer_field : Reader Bool
skip_pointer_field = do
  first ← scan_8
  if first == 0x00 then (read_8 >>= λ _. pure true) else pure false

-- read_splice_info_section_until_length: section_length and chopped_prefix
unfoldable pub read_until_length : Reader (ℕ × Bool)
read_until_length = do
  total ← available
  test_const (leb min_length total)
  chopped_prefix ← skip_pointer_field
  id ← read_8
  test_const (id == table_id)
  section_syntax_indicator ← scan_flag 7
  test_const (not section_syntax_indicator)
  private_indicator ← scan_flag 6
  test_const (not private_indicator)
  section_length ← read_12_low
  left ← available
  let header_length = total - left
  test_const (leb (min_length - header_length) section_length)
  test_const (leb section_length 4093)
  test_const (leb section_length left)
  pure (section_length, chopped_prefix)

-- BinaryParserBounds, with the distance from startptr.
pub record SectionBounds : Type 0 where
  pub offset : ℕ
  pub count : ℕ

-- Bounds behind a skipped pointer_field; header_length is 3 then, and 3 without it.
unfoldable pub section_bounds : (ℕ × Bool) × List ℕ → Outcome (Option SectionBounds)
section_bounds ((section_length, chopped_prefix), s) =
    ok (some (record { offset = if chopped_prefix then 1 else 0; count = 3 + section_length }))

unfoldable pub scte35_parser_next : List ℕ → Outcome (Option SectionBounds)
scte35_parser_next bytes =
    if ltb (length bytes) min_length then ok none else bind (read_until_length bytes) section_bounds

-- switch (splice_command_type)
unfoldable pub parse_command : ℕ → ℕ → Reader Command
parse_command splice_command_type splice_command_length =
    if splice_command_type == 0x00
    then pure splice_null
    else if splice_command_type == 0x04
    then parse_splice_schedule
    else if splice_command_type == 0x05
    then (parse_splice_insert >>= λ i. pure (splice_insert i))
    else if splice_command_type == 0x06
    then (parse_splice_time >>= λ t. pure (time_signal t))
    else if splice_command_type == 0x07
    then pure bandwidth_reservation
    else if splice_command_type == 0xFF
    then parse_private_command splice_command_length
    else λ s. throw unsupported_command

-- splice_command_length is the length consumed, or 0xfff.
unfoldable pub check_command_length : ℕ → ℕ → Reader (Unit {0})
check_command_length consumed splice_command_length s =
    if splice_command_length == 0xfff
    then ok (tt, s)
    else if consumed % 2 ^ 16 == splice_command_length
    then ok (tt, s)
    else throw command_length

-- From splice_command_length to the end of the command.
unfoldable pub parse_sized_command : Reader Command
parse_sized_command = do
  splice_command_length ← read_12_low
  splice_command_type ← read_8
  start ← available
  test_const ((splice_command_length == 0xfff) || ltb splice_command_length start)
  command ← parse_command splice_command_type splice_command_length
  end ← available
  check_command_length (start - end) splice_command_length
  pure command

-- parse_descriptors(ptr, ptr + descriptor_loop_length, endptr, …)
unfoldable pub parse_descriptors : Compiler → ℕ → Reader (List Descriptor)
parse_descriptors c size s =
    bind (descriptor_loop c size (take size s)) λ (ds, rest). ok (ds, drop size s)

unfoldable pub parse_descriptor_loop : Compiler → Reader (List Descriptor)
parse_descriptor_loop c = do
  descriptor_loop_length ← read_16
  left ← available
  if descriptor_loop_length == 0
      then pure []
      else (test_const (ltb descriptor_loop_length left)
          >> parse_descriptors c descriptor_loop_length)

-- if (s.encrypted_packet) throw …
unfoldable pub reject_encrypted : Bool → Reader (Unit {0})
reject_encrypted true s = throw encrypted_packet
reject_encrypted false s = ok (tt, s)

-- From the protocol version to the CRC, on the bytes up to the section's end.
unfoldable pub parse_fields : Compiler → Reader SpliceInfoSection
parse_fields c = do
  version ← read_8
  test_const (version == protocol_version)
  encrypted ← scan_flag 7
  flags ← scan_8
  reject_encrypted encrypted
  pts_adjustment ← read_33
  cw_index ← read_8
  tier ← scan_12_high
  _ ← read_8
  command ← parse_sized_command
  descriptors ← parse_descriptor_loop c
  _ ← read_32
  pure (record {
    encrypted_packet = encrypted;
    encryption_algorithm = flags / 2 % 64;
    pts_adjustment = pts_adjustment;
    cw_index = cw_index;
    tier = tier;
    command = command;
    descriptors = descriptors;
  })

-- The bytes that the CRC covers: from startptr, which moves past a pointer_field.
abbrev pub covered : Bool → List ℕ → List ℕ
covered chopped_prefix bytes = if chopped_prefix then drop 1 bytes else bytes

unfoldable pub check_crc : List ℕ → SpliceInfoSection → Outcome SpliceInfoSection
check_crc bytes s = if compute bytes == 0 then ok s else throw crc_mismatch

-- scte35_parser_pack, on the bytes inside the bounds
unfoldable pub scte35_parser_pack : Compiler → List ℕ → Outcome SpliceInfoSection
scte35_parser_pack c bytes = bind (read_until_length bytes) λ ((section_length, chopped_prefix), s).
    bind (parse_fields c s) λ (section, rest). check_crc (covered chopped_prefix bytes) section

abbrev pub section_format : Compiler → Format SpliceInfoSection SectionBounds
section_format c = record {
  next_bounds = scte35_parser_next;
  start = λ b. b.offset;
  size = λ b. b.count;
  pack = λ b bytes. scte35_parser_pack c bytes;
}
