-- ===== src/Scte35/Types.antt =====
-- src/scte35/scte35.h: the data model of a splice info section. Integers of every width are plain
-- numbers; the ranges of the fields are stated where they matter (RoundTrip/Ranges).
use metamix.Base.{ℕ, List, Bool, Option, true, false, some, none}

pub record SpliceTime : Type 0 where
  pub pts_time : Option ℕ

pub record BreakDuration : Type 0 where
  pub auto_return : Bool
  pub duration : ℕ

-- SpliceSchedule::ProgramSpliceOff::Component
pub record ScheduleComponent : Type 0 where
  pub component_tag : ℕ
  pub utc_splice_time : ℕ

-- std::variant<ProgramSpliceOn, ProgramSpliceOff>
pub data ProgramSplice : Type 0 where
  program_splice_on : ℕ → ProgramSplice
  program_splice_off : List ScheduleComponent → ProgramSplice

-- SpliceSchedule::CancelOff
pub record ScheduleCancelOff : Type 0 where
  pub out_of_network : Bool
  pub splice : ProgramSplice
  pub break_duration : Option BreakDuration
  pub unique_program_id : ℕ
  pub avail_num : ℕ
  pub avails_expected : ℕ

-- SpliceSchedule::CancelOff::program_splice
unfoldable pub is_program_splice : ProgramSplice → Bool
is_program_splice (program_splice_on t) = true
is_program_splice (program_splice_off cs) = false

-- duration(): break_duration.has_value()
unfoldable pub has_value {ℓ} : {A : Type ℓ} → Option A → Bool
has_value (some a) = true
has_value none = false

-- SpliceSchedule::Event
pub record ScheduleEvent : Type 0 where
  pub id : ℕ
  pub more : Option ScheduleCancelOff

-- SpliceInsert::CancelOff::Component
pub record InsertComponent : Type 0 where
  pub component_tag : ℕ
  pub splice_time : Option SpliceTime

-- SpliceInsert::CancelOff
pub record InsertCancelOff : Type 0 where
  pub out_of_network : Bool
  pub program_splice : Bool
  pub splice_immediate : Bool
  pub splice_time : Option SpliceTime
  pub components : Option (List InsertComponent)
  pub break_duration : Option BreakDuration
  pub unique_program_id : ℕ
  pub avail_num : ℕ
  pub avails_expected : ℕ

pub record SpliceInsert : Type 0 where
  pub id : ℕ
  pub more : Option InsertCancelOff

-- SpliceInfoSection::Command. A SpliceSchedule is its events, a TimeSignal its splice time, and a
-- PrivateCommand its identifier and bytes.
pub data Command : Type 0 where
  splice_null : Command
  splice_schedule : List ScheduleEvent → Command
  splice_insert : SpliceInsert → Command
  time_signal : SpliceTime → Command
  bandwidth_reservation : Command
  private_command : ℕ → List ℕ → Command

-- The static member `type` of each command.
unfoldable pub command_type : Command → ℕ
command_type splice_null = 0x00
command_type (splice_schedule es) = 0x04
command_type (splice_insert i) = 0x05
command_type (time_signal t) = 0x06
command_type bandwidth_reservation = 0x07
command_type (private_command i bs) = 0xFF

-- SpliceInfoSection::Descriptor: AvailDescriptor, DtmfDescriptor, SegmentationDescriptor and
-- TimeDescriptor.
pub data Descriptor : Type 0 where
  avail : ℕ → Descriptor
  dtmf : ℕ → List ℕ → Descriptor
  segmentation : List ℕ → Descriptor
  time_descriptor : ℕ → ℕ → ℕ → Descriptor

-- The static members `tag` and `identifier`; all four identifiers are "CUEI".
unfoldable pub descriptor_tag : Descriptor → ℕ
descriptor_tag (avail n) = 0x00
descriptor_tag (dtmf p cs) = 0x01
descriptor_tag (segmentation bs) = 0x02
descriptor_tag (time_descriptor s n u) = 0x03

abbrev pub cuei : ℕ
cuei = 0x43554549

-- SpliceInfoSection::TABLE_ID and PROTOCOL_VERSION. SECTION_SYNTAX_INDICATOR and PRIVATE_INDICATOR
-- are false.
abbrev pub table_id : ℕ
table_id = 0xFC

abbrev pub protocol_version : ℕ
protocol_version = 0

pub record SpliceInfoSection : Type 0 where
  pub encrypted_packet : Bool
  pub encryption_algorithm : ℕ
  pub pts_adjustment : ℕ
  pub cw_index : ℕ
  pub tier : ℕ
  pub command : Command
  pub descriptors : List Descriptor
