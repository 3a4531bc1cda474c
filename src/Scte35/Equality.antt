-- ===== src/Scte35/Equality.antt =====
-- The operators == of src/scte35/scte35.h: those of the times and of schedules here, the rest in the
-- child Section. A std::tie compares its members in order, and a std::variant the alternatives and
-- then what they hold.
pub mod Section
use metamix.Base.{Bool, true, false, ◌&&◌, ◌≡◌, ◌↔◌, arith}
use metamix.Base.Equality.{Comparable, equals, equals_iff, number_eq, bool_eq, option_eq, list_eq}
use metamix.Scte35.Types.{
  SpliceTime, BreakDuration, ScheduleComponent, ProgramSplice, program_splice_on,
  program_splice_off, ScheduleCancelOff, ScheduleEvent,
}

-- SpliceTime
unfoldable pub equal_time : SpliceTime → SpliceTime → Bool
equal_time a b = equals a.pts_time b.pts_time

pub equal_time_iff : (a b : SpliceTime) → (equal_time a b ≡ true) ↔ (a ≡ b)
unfolding equal_time
equal_time_iff a b = ground (arith, equals_iff a.pts_time b.pts_time)

instance abbrev pub time_eq : Comparable SpliceTime
time_eq = record { test = equal_time; decides = equal_time_iff }

-- BreakDuration
unfoldable pub equal_duration : BreakDuration → BreakDuration → Bool
equal_duration a b = equals a.auto_return b.auto_return && equals a.duration b.duration

pub equal_duration_iff : (a b : BreakDuration) → (equal_duration a b ≡ true) ↔ (a ≡ b)
unfolding equal_duration
equal_duration_iff a b =
    ground (arith, equals_iff a.auto_return b.auto_return, equals_iff a.duration b.duration)

instance abbrev pub duration_eq : Comparable BreakDuration
duration_eq = record { test = equal_duration; decides = equal_duration_iff }

-- SpliceSchedule::ProgramSpliceOff::Component
unfoldable pub equal_schedule_component : ScheduleComponent → ScheduleComponent → Bool
equal_schedule_component a b =
    equals a.component_tag b.component_tag && equals a.utc_splice_time b.utc_splice_time

pub equal_schedule_component_iff :
    (a b : ScheduleComponent) → (equal_schedule_component a b ≡ true) ↔ (a ≡ b)
unfolding equal_schedule_component
equal_schedule_component_iff a b = ground (
  arith,
  equals_iff a.component_tag b.component_tag,
  equals_iff a.utc_splice_time b.utc_splice_time,
)

instance abbrev pub schedule_component_eq : Comparable ScheduleComponent
schedule_component_eq = record {
  test = equal_schedule_component;
  decides = equal_schedule_component_iff;
}

-- std::variant<ProgramSpliceOn, ProgramSpliceOff>
unfoldable pub equal_splice : ProgramSplice → ProgramSplice → Bool
equal_splice (program_splice_on x) b = elim b [ program_splice_on y ↦ equals x y | _ ↦ false ]
equal_splice (program_splice_off x) b = elim b [ program_splice_off y ↦ equals x y | _ ↦ false ]

pub equal_splice_iff : (a b : ProgramSplice) → (equal_splice a b ≡ true) ↔ (a ≡ b)
unfolding equal_splice
equal_splice_iff (program_splice_on x) b =
    elim b as (λ k. (equal_splice (program_splice_on x) k ≡ true) ↔ (program_splice_on x ≡ k)) [
      | program_splice_on y ↦ ground (arith, equals_iff x y)
      | _ ↦ (cc, cc)
    ]
equal_splice_iff (program_splice_off x) b =
    elim b as (λ k. (equal_splice (program_splice_off x) k ≡ true) ↔ (program_splice_off x ≡ k)) [
      | program_splice_off y ↦ ground (arith, equals_iff x y)
      | _ ↦ (cc, cc)
    ]

instance abbrev pub splice_eq : Comparable ProgramSplice
splice_eq = record { test = equal_splice; decides = equal_splice_iff }

-- SpliceSchedule::CancelOff
unfoldable pub equal_schedule_cancel_off : ScheduleCancelOff → ScheduleCancelOff → Bool
equal_schedule_cancel_off a b =
    equals a.out_of_network b.out_of_network
    && equals a.splice b.splice
    && equals a.break_duration b.break_duration
    && equals a.unique_program_id b.unique_program_id
    && equals a.avail_num b.avail_num
    && equals a.avails_expected b.avails_expected

pub equal_schedule_cancel_off_iff :
    (a b : ScheduleCancelOff) → (equal_schedule_cancel_off a b ≡ true) ↔ (a ≡ b)
unfolding equal_schedule_cancel_off
equal_schedule_cancel_off_iff a b = ground (
  arith,
  equals_iff a.out_of_network b.out_of_network,
  equals_iff a.splice b.splice,
  equals_iff a.break_duration b.break_duration,
  equals_iff a.unique_program_id b.unique_program_id,
  equals_iff a.avail_num b.avail_num,
  equals_iff a.avails_expected b.avails_expected,
)

instance abbrev pub schedule_cancel_off_eq : Comparable ScheduleCancelOff
schedule_cancel_off_eq = record {
  test = equal_schedule_cancel_off;
  decides = equal_schedule_cancel_off_iff;
}

-- SpliceSchedule::Event
unfoldable pub equal_event : ScheduleEvent → ScheduleEvent → Bool
equal_event a b = equals a.id b.id && equals a.more b.more

pub equal_event_iff : (a b : ScheduleEvent) → (equal_event a b ≡ true) ↔ (a ≡ b)
unfolding equal_event
equal_event_iff a b = ground (arith, equals_iff a.id b.id, equals_iff a.more b.more)

instance abbrev pub event_eq : Comparable ScheduleEvent
event_eq = record { test = equal_event; decides = equal_event_iff }
