-- ===== src/Scte35/RoundTrip/Layout.antt =====
-- The layout of an emitted section: what follows the section length, its size, and the length read.
use metamix.Base.{
  ℕ, suc, ◌+◌, ◌-◌, ◌*◌, ◌/◌, ◌%◌, ◌≤◌, ◌^◌, ◌<◌, List, [], ◌++◌, true, false, ◌≡◌, append_assoc,
  append-nil,
}
use metamix.Base.{◌⊎◌, length, length-append, All, leb, le→leb, arith}
use metamix.Base.Bits.{flag, bit_at}
use metamix.Binary.Outcome.{ok}
use metamix.Binary.Write.{
  write_8, write_12_pair, write_12_prefix, write_16, write_32, write_33_prefix,
}
use metamix.Binary.Read.{scan_8, scan_flag, read_8, read_12_low}
use metamix.Scte35.Types.{SpliceInfoSection, command_type, table_id, protocol_version}
use metamix.Scte35.Crc.{compute}
use metamix.Scte35.Emitter.{
  emit_all, emit_command, emit_descriptor, hint_command, hint_descriptor, hint_all,
}
use metamix.Scte35.Emitter.Section.{compute_section_length, emit_header, emit_body, emit_section}
use metamix.Scte35.Parser.Descriptors.{Compiler}
use metamix.Scte35.Parser.Section.{min_length, read_until_length, skip_pointer_field}
use metamix.Scte35.RoundTrip.Commands.{InCommand}
use metamix.Scte35.RoundTrip.Sizes.{uncounted, length-emit_command, length-emit_all}
use metamix.Scte35.RoundTrip.Descriptors.{InDescriptor, length-emit_descriptor}

-- The sections that survive emission and parsing. `hinted` leaves out schedules with events that are
-- not cancelled; `tier_intact` is what the pair of tier and command length can carry.
pub record IsReadable (c : Compiler) (s : SpliceInfoSection) : Type 0 where
  pub clear : s.encrypted_packet ≡ false
  pub algorithm : s.encryption_algorithm < 64
  pub pts_adjustment : s.pts_adjustment < 2 ^ 33
  pub cw_index : s.cw_index < 256
  pub tier : s.tier < 4096
  pub command : InCommand s.command
  pub hinted : uncounted s.command ≡ 0
  pub short : hint_command s.command < 256
  pub tier_intact : (hint_command s.command < 16) ⊎ (s.tier % 16 ≡ 15)
  pub descriptors : All (InDescriptor c) s.descriptors
  pub section_length : compute_section_length s ≤ 4093

pub length-write_32 : (v : ℕ) (s : List ℕ) → length (write_32 v ++ s) ≡ 4 + length s
unfolding write_32
length-write_32 v s = omega arith

abbrev pub prefix_of : SpliceInfoSection → ℕ
prefix_of s = flag s.encrypted_packet * 128 + s.encryption_algorithm % 64 * 2

abbrev pub loop_of : SpliceInfoSection → List ℕ → List ℕ
loop_of s t =
    write_16 (hint_all hint_descriptor s.descriptors)
    ++ (emit_all emit_descriptor s.descriptors ++ t)

abbrev pub command_of : SpliceInfoSection → List ℕ → List ℕ
command_of s t = write_8 (command_type s.command) ++ (emit_command s.command ++ loop_of s t)

abbrev pub fields_of : SpliceInfoSection → List ℕ → List ℕ
fields_of s t =
    write_8 protocol_version
    ++ (write_33_prefix (prefix_of s) s.pts_adjustment
        ++ (write_8 s.cw_index
            ++ (write_12_pair s.tier (hint_command s.command) ++ command_of s t)))

abbrev pub tail_of : ℕ → List ℕ
tail_of crc = write_32 crc ++ []

pub length-write_16 : (v : ℕ) (s : List ℕ) → length (write_16 v ++ s) ≡ 2 + length s
unfolding write_16
length-write_16 v s = omega arith

pub fits :
    {c : Compiler} (s : SpliceInfoSection)
    → IsReadable c s
    → 17 + hint_command s.command + hint_all hint_descriptor s.descriptors ≤ 4093
unfolding compute_section_length
fits s h = h.section_length

abbrev pub crc_of : SpliceInfoSection → ℕ
crc_of s = compute (emit_header s ++ emit_body s)

abbrev pub behind_length : SpliceInfoSection → List ℕ
behind_length s = fields_of s (tail_of (crc_of s))

pub emit_section_shape :
    {c : Compiler} (s : SpliceInfoSection)
    → IsReadable c s
    → emit_section s
      ≡ write_8 table_id ++ (write_12_prefix 3 (compute_section_length s) ++ behind_length s)
unfolding emit_section emit_header emit_body
emit_section_shape s h =
    let size : hint_command s.command % 2 ^ 16 ≡ hint_command s.command = omega (arith, h.short) in
    let all : ℕ = hint_all hint_descriptor s.descriptors in
    let loop : all % 2 ^ 16 ≡ all = omega (arith, fits s h) in
    let total : compute_section_length s % 2 ^ 16 ≡ compute_section_length s =
      omega (arith, h.section_length) in
    simp (append_assoc, append-nil, size, loop, total)

pub read_until_length-emit :
    (L : ℕ) (r : List ℕ)
    → L ≤ length r
    → 17 ≤ L
    → L ≤ 4093
    → read_until_length (write_8 table_id ++ (write_12_prefix 3 L ++ r)) ≡ ok ((L, false), r)
unfolding read_until_length skip_pointer_field write_8 write_12_prefix scan_8 read_8 scan_flag
    read_12_low
read_until_length-emit L r hl low high =
    let first : ℕ = 3 % 16 * 16 + L / 2 ^ 8 % 16 in
    let seven : bit_at first 7 ≡ false = ground arith in
    let six : bit_at first 6 ≡ false = ground arith in
    let value : first % 16 * 256 + L % 256 ≡ L = omega arith in
    let n : ℕ = length r in
    let total : ℕ = suc (suc (suc n)) in
    let enough : leb min_length total ≡ true = le→leb min_length total (omega arith) in
    let left : leb (min_length - (total - n)) L ≡ true =
      le→leb (min_length - (total - n)) L (omega arith) in
    let at_most : leb L 4093 ≡ true = le→leb L 4093 high in
    let inside : leb L n ≡ true = le→leb L n hl in
    simp (enough, seven, six, value, left, at_most, inside)

pub behind_length_size :
    {c : Compiler} (s : SpliceInfoSection)
    → IsReadable c s
    → length (behind_length s) ≡ compute_section_length s
unfolding compute_section_length write_8 write_33_prefix write_12_pair write_16 write_32
behind_length_size s h =
    let all : ℕ = hint_all hint_descriptor s.descriptors in
    let D : List ℕ = emit_all emit_descriptor s.descriptors in
    let t : List ℕ = tail_of (crc_of s) in
    omega (
      arith,
      length-append (emit_command s.command) (loop_of s t),
      length-emit_command s.command,
      h.hinted,
      length-append D t,
      length-emit_all emit_descriptor hint_descriptor length-emit_descriptor s.descriptors,
    )

pub seventeen : (s : SpliceInfoSection) → 17 ≤ compute_section_length s
unfolding compute_section_length
seventeen s = omega arith
