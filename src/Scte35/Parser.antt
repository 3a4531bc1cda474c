-- ===== src/Scte35/Parser.antt =====
-- src/scte35/parser.cpp: the parsers of splice times, commands and descriptors. A reader takes the
-- bytes from `ptr` to `endptr`.
pub mod Descriptors
pub mod Section
pub mod Private
pub mod Bounds
use metamix.Base.{ℕ, zero, suc, ◌+◌, ◌-◌, ◌*◌, ◌/◌, ◌%◌, ◌^◌, List, [], ◌∷◌, Bool, true, false, not}
use metamix.Base.{◌&&◌, ◌||◌, Option, none, some, length, take, drop, if◌then◌else◌, ltb, leb, ◌==◌}
use metamix.Binary.Outcome.{
  Outcome, ok, fault, throw, bind, Reader, pure, ◌>>=◌, ◌>>◌, test_const, unknown_descriptor,
}
use metamix.Binary.Read.{scan_flag, scan_8, read_8, read_16, read_32, read_33}
use metamix.Scte35.Types.{
  SpliceTime, BreakDuration, ScheduleComponent, ProgramSplice, ScheduleCancelOff,
}
use metamix.Scte35.Types.{program_splice_on, program_splice_off}
use metamix.Scte35.Types.{
  ScheduleEvent, InsertComponent, InsertCancelOff, SpliceInsert, Command, Descriptor,
}
use metamix.Scte35.Types.{
  splice_null, splice_schedule, splice_insert, time_signal, bandwidth_reservation,
}
use metamix.Scte35.Types.{private_command, avail, dtmf, segmentation, time_descriptor, cuei}

abbrev pub when {ℓ} : {A : Type ℓ} → Bool → Reader A → Reader (Option A)
when true p = p >>= λ a. pure (some a)
when false p = pure none

-- `for (auto i = 0; i < n; i++)` over a parser
unfoldable pub repeat {ℓ} : {A : Type ℓ} → ℕ → Reader A → Reader (List A)
repeat zero p = pure []
repeat (suc n) p = p >>= λ x. repeat n p >>= λ xs. pure (x ∷ xs)

unfoldable pub parse_splice_time : Reader SpliceTime
parse_splice_time = do
  time_specified ← scan_flag 7
  if time_specified
      then (read_33 >>= λ t. pure (record { pts_time = some t }))
      else (read_8 >>= λ _. pure (record { pts_time = none }))

unfoldable pub parse_break_duration : Reader BreakDuration
parse_break_duration = do
  auto_return ← scan_flag 7
  duration ← read_33
  pure (record { auto_return = auto_return; duration = duration })

-- The body of the loop over the components of a ProgramSpliceOff.
unfoldable pub parse_schedule_component : Reader ScheduleComponent
parse_schedule_component = do
  tag ← read_8
  time ← read_32
  pure (record { component_tag = tag; utc_splice_time = time })

-- parse_splice_schedule_event_program_splice
unfoldable pub parse_program_splice : Bool → Reader ProgramSplice
parse_program_splice true = do time ← read_32; pure (program_splice_on time)
parse_program_splice false = do
  count ← read_8
  test_const (leb 1 count)
  components ← repeat count parse_schedule_component
  pure (program_splice_off components)

-- parse_splice_schedule_event behind the cancel indicator
unfoldable pub parse_schedule_cancel_off : Reader ScheduleCancelOff
parse_schedule_cancel_off = do
  out_of_network ← scan_flag 7
  program_splice_flag ← scan_flag 6
  duration_flag ← scan_flag 5
  _ ← read_8
  splice ← parse_program_splice program_splice_flag
  break_duration ← when duration_flag parse_break_duration
  unique_program_id ← read_16
  avail_num ← read_8
  avails_expected ← read_8
  pure (record {
    out_of_network = out_of_network;
    splice = splice;
    break_duration = break_duration;
    unique_program_id = unique_program_id;
    avail_num = avail_num;
    avails_expected = avails_expected;
  })

unfoldable pub parse_event : Reader ScheduleEvent
parse_event = do
  id ← read_32
  cancel ← scan_flag 7
  _ ← read_8
  more ← when (not cancel) parse_schedule_cancel_off
  pure (record { id = id; more = more })

unfoldable pub parse_splice_schedule : Reader Command
parse_splice_schedule = do
  count ← read_8
  events ← repeat count parse_event
  pure (splice_schedule events)

-- The body of the loop over the components of a SpliceInsert.
unfoldable pub parse_insert_component : Bool → Reader InsertComponent
parse_insert_component splice_immediate = do
  tag ← read_8
  time ← when (not splice_immediate) parse_splice_time
  pure (record { component_tag = tag; splice_time = time })

unfoldable pub parse_insert_components : Bool → Reader (List InsertComponent)
parse_insert_components splice_immediate = do
  count ← read_8
  test_const (leb 1 count)
  repeat count (parse_insert_component splice_immediate)

-- parse_splice_insert behind the cancel indicator
unfoldable pub parse_insert_cancel_off : Reader InsertCancelOff
parse_insert_cancel_off = do
  out_of_network ← scan_flag 7
  program_splice ← scan_flag 6
  duration_flag ← scan_flag 5
  splice_immediate ← scan_flag 4
  _ ← read_8
  splice_time ← when (program_splice && not splice_immediate) parse_splice_time
  components ← when (not program_splice) (parse_insert_components splice_immediate)
  break_duration ← when duration_flag parse_break_duration
  unique_program_id ← read_16
  avail_num ← read_8
  avails_expected ← read_8
  pure (record {
    out_of_network = out_of_network;
    program_splice = program_splice;
    splice_immediate = splice_immediate;
    splice_time = splice_time;
    components = components;
    break_duration = break_duration;
    unique_program_id = unique_program_id;
    avail_num = avail_num;
    avails_expected = avails_expected;
  })

unfoldable pub parse_splice_insert : Reader SpliceInsert
parse_splice_insert = do
  id ← read_32
  cancel ← scan_flag 7
  _ ← read_8
  more ← when (not cancel) parse_insert_cancel_off
  pure (record { id = id; more = more })

-- `bytes(ptr + 4, ptr + splice_command_length); ptr += splice_command_length`, when `ptr` has
-- already passed the identifier. Past `endptr` these read outside the section.
unfoldable pub private_bytes : ℕ → Reader (List ℕ)
private_bytes size s = if ltb (length s) size then fault else ok (drop 4 (take size s), drop size s)

unfoldable pub parse_private_command : ℕ → Reader Command
parse_private_command splice_command_length = do
  test_const (ltb 4 splice_command_length)
  test_const (ltb splice_command_length 0xfff)
  identifier ← read_32
  bytes ← private_bytes splice_command_length
  pure (private_command identifier bytes)
