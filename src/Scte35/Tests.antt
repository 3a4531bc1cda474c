-- ===== src/Scte35/Tests.antt =====
-- Sections like those of test/scte35/parser_emitter_test.cpp, and the theorems at concrete sections.
use metamix.Base.{
  ℕ, ◌+◌, List, [], ◌∷◌, ◌++◌, true, false, some, none, ◌≡◌, refl, inr, length, arith,
}
use metamix.Binary.Outcome.{ok}
use metamix.Binary.Write.{write_32}
use metamix.Scte35.Types.{
  SpliceInfoSection, SpliceInsert, ScheduleEvent, Command, Descriptor, command_type,
}
use metamix.Scte35.Types.{
  splice_insert, splice_schedule, private_command, avail, time_descriptor, program_splice_on,
}
use metamix.Scte35.Types.{has_value}
use metamix.Scte35.Crc.{compute}
use metamix.Scte35.Crc.Residue.{compute-append}
use metamix.Scte35.Emitter.{
  emit_command, hint_command, hint_insert_cancel_off, hint_descriptor, hint_splice_time,
}
use metamix.Scte35.Emitter.Section.{emit_section, compute_section_length}
use metamix.Scte35.Parser.Section.{parse_command, parse_sized_command, scte35_parser_pack}
use metamix.Scte35.Parser.Descriptors.{Compiler, left_to_right}
use metamix.Base.{◌≤◌}
use metamix.Binary.Read.{scan_8, read_8, scan_flag, read_12_low}
use metamix.Scte35.Parser.Section.{
  SectionBounds, section_bounds, skip_pointer_field, read_until_length, scte35_parser_next,
}
use metamix.Scte35.Parser.Bounds.{scte35_parser_next_bounds}
use metamix.Scte35.Parser.Private.{private-never-parsed}
use metamix.Scte35.RoundTrip.Ranges.{InInsert, InEvent}
use metamix.Scte35.RoundTrip.Commands.{parse_command-emit_command}
use metamix.Scte35.RoundTrip.Sizes.{uncounted, length-emit_command}
use metamix.Scte35.Equality.Section.{equal_section, equal_section_iff}
use metamix.Base.{◌↔◌}
use metamix.Scte35.RoundTrip.Layout.{IsReadable}
use metamix.Scte35.RoundTrip.Whole.{scte35_parser_pack-emit_section}

abbrev ordered : Compiler
ordered = record { operands = left_to_right; arguments = left_to_right }

abbrev break_insert : SpliceInsert
break_insert = record {
  id = 0x296;
  more = some (record {
    out_of_network = true;
    program_splice = true;
    splice_immediate = false;
    splice_time = some (record { pts_time = some 8_076_794_552 });
    components = none;
    break_duration = some (record { auto_return = false; duration = 0x14C5620 });
    unique_program_id = 1;
    avail_num = 0;
    avails_expected = 0;
  });
}

break_insert-InInsert : InInsert break_insert
unfolding has_value
break_insert-InInsert = (
  omega arith,
  record {
    timed = refl;
    splice_time = omega arith;
    split = refl;
    components = tt;
    break_duration = omega arith;
    unique_program_id = omega arith;
    avail_num = omega arith;
    avails_expected = omega arith;
  },
)

abbrev time_now : Descriptor
time_now = time_descriptor 1_500_000_000 500 37

abbrev insert_section : SpliceInfoSection
insert_section = record {
  encrypted_packet = false;
  encryption_algorithm = 0;
  pts_adjustment = 0;
  cw_index = 0;
  tier = 0xfff;
  command = splice_insert break_insert;
  descriptors = avail 0x135 ∷ time_now ∷ [];
}

insert_section-IsReadable : IsReadable ordered insert_section
unfolding hint_command hint_insert_cancel_off hint_splice_time hint_descriptor
    compute_section_length has_value
insert_section-IsReadable = record {
  clear = refl;
  algorithm = omega arith;
  pts_adjustment = omega arith;
  cw_index = omega arith;
  tier = omega arith;
  command = break_insert-InInsert;
  hinted = refl;
  short = omega arith;
  tier_intact = inr refl;
  descriptors = (omega arith, ((omega arith, omega arith, omega arith, refl, refl), tt));
  section_length = omega arith;
}

-- A section for other tiers.
abbrev other_tier : SpliceInfoSection
other_tier = record insert_section { tier = 0 }

equal_section_iff_example :
    (equal_section insert_section other_tier ≡ true) ↔ (insert_section ≡ other_tier)
equal_section_iff_example = equal_section_iff insert_section other_tier

scte35_parser_pack-emit_section_example :
    scte35_parser_pack ordered (emit_section insert_section) ≡ ok insert_section
scte35_parser_pack-emit_section_example =
    scte35_parser_pack-emit_section ordered insert_section insert_section-IsReadable

compute-append_example : compute (0xFC ∷ 0x30 ∷ [] ++ write_32 (compute (0xFC ∷ 0x30 ∷ []))) ≡ 0
compute-append_example = compute-append (0xFC ∷ 0x30 ∷ [])

abbrev event : ScheduleEvent
event = record {
  id = 7;
  more = some (record {
    out_of_network = true;
    splice = program_splice_on 1_500_000_000;
    break_duration = none;
    unique_program_id = 1;
    avail_num = 2;
    avails_expected = 3;
  });
}

event-InEvent : InEvent event
event-InEvent = (
  omega arith,
  record {
    splice = omega arith;
    break_duration = tt;
    unique_program_id = omega arith;
    avail_num = omega arith;
    avails_expected = omega arith;
  },
)

abbrev schedule : Command
schedule = splice_schedule (event ∷ [])

parse_command-emit_command_example :
    parse_command (command_type schedule) 19 (emit_command schedule ++ (9 ∷ []))
    ≡ ok (schedule, 9 ∷ [])
parse_command-emit_command_example =
    parse_command-emit_command schedule 19 (9 ∷ []) (omega arith, (event-InEvent, tt))

length-emit_command_example :
    length (emit_command schedule) ≡ hint_command schedule + uncounted schedule
length-emit_command_example = length-emit_command schedule

-- A command length of 6, the type, the identifier 3, two bytes, and the bytes that follow.
abbrev private_bytes_of_two : List ℕ
private_bytes_of_two =
    0xF0 ∷ 6 ∷ 0xFF ∷ 0 ∷ 0 ∷ 0 ∷ 3 ∷ 1 ∷ 2 ∷ 0 ∷ 0 ∷ 0x44 ∷ 0x55 ∷ 0x66 ∷ 0x77 ∷ []

private-never-parsed_example : ¬ (
    parse_sized_command private_bytes_of_two
    ≡ ok (private_command 3 (1 ∷ 2 ∷ []), 0 ∷ 0 ∷ 0x44 ∷ 0x55 ∷ 0x66 ∷ 0x77 ∷ []))
private-never-parsed_example =
    private-never-parsed private_bytes_of_two (0 ∷ 0 ∷ 0x44 ∷ 0x55 ∷ 0x66 ∷ 0x77 ∷ []) 3
      (1 ∷ 2 ∷ [])

abbrev null_bytes : List ℕ
null_bytes =
    0x00 ∷ 0xFC ∷ 0x30 ∷ 17 ∷ 0 ∷ 0 ∷ 0 ∷ 0 ∷ 0 ∷ 0 ∷ 0 ∷ 0xFF ∷ 0xF0 ∷ 0 ∷ 0 ∷ 0 ∷ 0 ∷ 1 ∷ 2 ∷ 3
    ∷ 4 ∷ []

abbrev null_bounds : SectionBounds
null_bounds = record { offset = 1; count = 20 }

null_next : scte35_parser_next null_bytes ≡ ok (some null_bounds)
unfolding scte35_parser_next read_until_length skip_pointer_field section_bounds scan_8 read_8
    scan_flag read_12_low
null_next = refl

scte35_parser_next_bounds_example : (1 ≤ 1) × (3 ≤ 20) × (1 + 20 ≤ 21)
scte35_parser_next_bounds_example = scte35_parser_next_bounds null_bytes null_bounds null_next
