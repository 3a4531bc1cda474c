-- ===== src/Scte35/Emitter/Section.antt =====
-- emit(SpliceInfoSection) of src/scte35/emitter.h. What is written through CRC32OutputIterator
-- (src/scte35/crc32.h) goes to the output and updates the CRC in the same order, so the CRC that is
-- written last is that of the bytes before it.
use metamix.Base.{ℕ, ◌+◌, ◌*◌, ◌%◌, ◌^◌, List, ◌++◌}
use metamix.Base.Bits.{flag}
use metamix.Binary.Write.{
  write_8, write_12_prefix, write_12_pair, write_16, write_32, write_33_prefix,
}
use metamix.Scte35.Types.{SpliceInfoSection, command_type, table_id, protocol_version}
use metamix.Scte35.Crc.{compute}
use metamix.Scte35.Emitter.{
  hint_command, hint_descriptor, hint_all, emit_command, emit_descriptor, emit_all,
}

unfoldable pub compute_section_length : SpliceInfoSection → ℕ
compute_section_length s = 17 + hint_command s.command + hint_all hint_descriptor s.descriptors

-- (SECTION_SYNTAX_INDICATOR << 3) | (PRIVATE_INDICATOR << 2) | 0b0011 is 3.
unfoldable pub emit_header : SpliceInfoSection → List ℕ
emit_header s =
    write_8 table_id
    ++ (write_12_prefix 3 (compute_section_length s % 2 ^ 16)
        ++ (write_8 protocol_version
            ++ (write_33_prefix (flag s.encrypted_packet * 128 + s.encryption_algorithm % 64 * 2)
                  s.pts_adjustment
                ++ write_8 s.cw_index)))

unfoldable pub emit_body : SpliceInfoSection → List ℕ
emit_body s =
    write_12_pair s.tier (hint_command s.command % 2 ^ 16)
    ++ (write_8 (command_type s.command)
        ++ (emit_command s.command
            ++ (write_16 (hint_all hint_descriptor s.descriptors % 2 ^ 16)
                ++ emit_all emit_descriptor s.descriptors)))

unfoldable pub emit_section : SpliceInfoSection → List ℕ
emit_section s = let bytes = emit_header s ++ emit_body s in bytes ++ write_32 (compute bytes)
