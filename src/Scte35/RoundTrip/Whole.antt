-- ===== src/Scte35/RoundTrip/Whole.antt =====
-- Whole sections: from the table id to the CRC.
use metamix.Base.{
  ℕ, ◌+◌, ◌*◌, ◌/◌, ◌%◌, ◌≤◌, ◌^◌, ◌<◌, List, [], ◌++◌, Bool, false, ◌≡◌, refl, ap, sym,
}
use metamix.Base.{length, arith}
use metamix.Base.Bits.{bit_at}
use metamix.Binary.Outcome.{ok}
use metamix.Binary.Write.{write_8, write_12_pair, write_12_prefix, write_33_prefix}
use metamix.Binary.Read.{scan_8}
use metamix.Binary.RoundTrip.{
  read_8-write_8, read_32-write_32, read_33-write_33_prefix, scan_flag-write_33_prefix,
}
use metamix.Scte35.Types.{SpliceInfoSection, table_id, protocol_version}
use metamix.Scte35.Crc.{compute, value}
use metamix.Scte35.Crc.Residue.{compute-append}
use metamix.Scte35.Emitter.{emit_all, emit_descriptor, hint_command, hint_descriptor, hint_all}
use metamix.Scte35.Emitter.Section.{compute_section_length, emit_header, emit_body, emit_section}
use metamix.Scte35.Parser.Descriptors.{Compiler}
use metamix.Scte35.Parser.Section.{parse_fields, reject_encrypted, check_crc, scte35_parser_pack}
use metamix.Scte35.RoundTrip.Section.{
  scan_12_high-write_12_pair, read_8-write_12_pair, parse_sized_command-emit,
  parse_descriptor_loop-emit,
}
use metamix.Scte35.RoundTrip.Layout.{
  IsReadable, length-write_32, prefix_of, loop_of, command_of, fields_of, tail_of, length-write_16,
  fits, crc_of, behind_length, emit_section_shape, read_until_length-emit, behind_length_size,
  seventeen,
}

scan_8-write_33_prefix :
    (p v : ℕ) (s : List ℕ)
    → scan_8 (write_33_prefix p v ++ s)
      ≡ ok ((p % 256 / 2 * 2 + v / 2 ^ 32 % 2) % 256, write_33_prefix p v ++ s)
unfolding scan_8 write_33_prefix
scan_8-write_33_prefix p v s = refl

bit_at_seven : (n : ℕ) → n < 128 → bit_at n 7 ≡ false
bit_at_seven n h = ground arith

abbrev with_encrypted : SpliceInfoSection → Bool → SpliceInfoSection
with_encrypted s e = record {
  encrypted_packet = e;
  encryption_algorithm = s.encryption_algorithm;
  pts_adjustment = s.pts_adjustment;
  cw_index = s.cw_index;
  tier = s.tier;
  command = s.command;
  descriptors = s.descriptors;
}

parse_fields-emit :
    (c : Compiler) (s : SpliceInfoSection) (crc : ℕ)
    → IsReadable c s
    → crc < 2 ^ 32
    → parse_fields c (fields_of s (tail_of crc)) ≡ ok (s, [])
unfolding parse_fields reject_encrypted
parse_fields-emit c s crc h hc =
    let t : List ℕ = tail_of crc in
    let size : ℕ = hint_command s.command in
    let pair : List ℕ = write_12_pair s.tier size ++ command_of s t in
    let P : ℕ = prefix_of s in
    let small : P ≡ s.encryption_algorithm * 2 = simp (h.clear) (omega (arith, h.algorithm)) in
    let clear : bit_at P 7 ≡ false =
      rw small (bit_at_seven (s.encryption_algorithm * 2) (omega (arith, h.algorithm))) in
    let algorithm : (P % 256 / 2 * 2 + s.pts_adjustment / 2 ^ 32 % 2) % 256 / 2 % 64
        ≡ s.encryption_algorithm =
      rw small (omega (arith, h.algorithm)) in
    let loop : hint_all hint_descriptor s.descriptors < 2 ^ 16 = omega (arith, fits s h) in
    let tail : 0 < length t = omega (arith, length-write_32 crc []) in
    let looped : 0 < length (loop_of s t) = omega (
      arith,
      length-write_16 (hint_all hint_descriptor s.descriptors)
          (emit_all emit_descriptor s.descriptors ++ t),
    ) in
    simp
      (
        read_8-write_8 protocol_version
            (write_33_prefix P s.pts_adjustment ++ (write_8 s.cw_index ++ pair)) (omega arith),
        scan_flag-write_33_prefix P s.pts_adjustment (write_8 s.cw_index ++ pair)
            (omega (arith, h.algorithm)),
        clear,
        scan_8-write_33_prefix P s.pts_adjustment (write_8 s.cw_index ++ pair),
        read_33-write_33_prefix P s.pts_adjustment (write_8 s.cw_index ++ pair) h.pts_adjustment,
        read_8-write_8 s.cw_index pair h.cw_index,
        scan_12_high-write_12_pair s.tier size (command_of s t) h.tier h.tier_intact,
        read_8-write_12_pair s.tier size (command_of s t),
        parse_sized_command-emit s.command s.tier (loop_of s t) h.command h.hinted h.short looped,
        parse_descriptor_loop-emit c s.descriptors t h.descriptors loop tail,
        read_32-write_32 crc [] hc,
        algorithm,
      )
      (ap (λ e. ok (with_encrypted s e, [])) (sym h.clear))

compute_small : (bytes : List ℕ) → compute bytes < 2 ^ 32
unfolding compute value
compute_small bytes = omega arith

emit_section-crc : (s : SpliceInfoSection) → compute (emit_section s) ≡ 0
unfolding emit_section
emit_section-crc s = compute-append (emit_header s ++ emit_body s)

-- The bytes written for a section are parsed to that section, CRC included, if it is not encrypted,
-- its fields are in range, its command is not private, is no schedule with an event that is not
-- cancelled, and is below 256 bytes, or below 16 unless the tier ends in ones, its descriptors are no
-- DTMF descriptors, time descriptors only with a compiler that evaluates from left to right, and its
-- length is at most 4093.
pub scte35_parser_pack-emit_section :
    (c : Compiler) (s : SpliceInfoSection)
    → IsReadable c s
    → scte35_parser_pack c (emit_section s) ≡ ok s
unfolding scte35_parser_pack check_crc
scte35_parser_pack-emit_section c s h =
    let L : ℕ = compute_section_length s in
    let low : 17 ≤ L = seventeen s in
    let shape = emit_section_shape s h in
    let crc : compute (write_8 table_id ++ (write_12_prefix 3 L ++ behind_length s)) ≡ 0 =
      rw shape at (emit_section-crc s) in
    simp (
      shape,
      read_until_length-emit L (behind_length s) (omega (arith, behind_length_size s h)) low
          h.section_length,
      parse_fields-emit c s (crc_of s) h (compute_small (emit_header s ++ emit_body s)),
      crc,
    )
