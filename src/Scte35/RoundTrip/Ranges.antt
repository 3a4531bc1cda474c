-- ===== src/Scte35/RoundTrip/Ranges.antt =====
-- The values that the fields of a section can carry: the widths of the fields on the wire, and the
-- parts of a splice command that the flags call for.
use metamix.Base.{◌^◌, ◌<◌, Bool, not, ◌&&◌, Option, some, none, ◌≡◌}
use metamix.Base.{length, All}
use metamix.Scte35.Types.{
  SpliceTime, BreakDuration, ScheduleComponent, ProgramSplice, ScheduleCancelOff, has_value,
}
use metamix.Scte35.Types.{
  program_splice_on, program_splice_off, ScheduleEvent, InsertComponent, InsertCancelOff,
  SpliceInsert,
}

abbrev pub AllOpt {ℓ κ} : {A : Type ℓ} → (A → Type κ) → Option A → Type κ
AllOpt P none = Unit
AllOpt P (some a) = P a

abbrev pub InTime : SpliceTime → Type 0
InTime t = AllOpt (λ v. v < 2 ^ 33) t.pts_time

abbrev pub InDuration : BreakDuration → Type 0
InDuration b = b.duration < 2 ^ 33

abbrev pub InScheduleComponent : ScheduleComponent → Type 0
InScheduleComponent c = (c.component_tag < 256) × (c.utc_splice_time < 2 ^ 32)

abbrev pub InProgramSplice : ProgramSplice → Type 0
InProgramSplice (program_splice_on t) = t < 2 ^ 32
InProgramSplice (program_splice_off cs) =
    (0 < length cs) × (length cs < 256) × All InScheduleComponent cs

pub record InScheduleCancelOff (more : ScheduleCancelOff) : Type 0 where
  pub splice : InProgramSplice more.splice
  pub break_duration : AllOpt InDuration more.break_duration
  pub unique_program_id : more.unique_program_id < 2 ^ 16
  pub avail_num : more.avail_num < 256
  pub avails_expected : more.avails_expected < 256

abbrev pub InEvent : ScheduleEvent → Type 0
InEvent e = (e.id < 2 ^ 32) × AllOpt InScheduleCancelOff e.more

-- A component has a splice time unless the splice is immediate.
abbrev pub InInsertComponent : Bool → InsertComponent → Type 0
InInsertComponent splice_immediate c =
    (c.component_tag < 256)
    × (has_value c.splice_time ≡ not splice_immediate)
    × AllOpt InTime c.splice_time

pub record InInsertCancelOff (more : InsertCancelOff) : Type 0 where
  pub timed : has_value more.splice_time ≡ (more.program_splice && not more.splice_immediate)
  pub splice_time : AllOpt InTime more.splice_time
  pub split : has_value more.components ≡ not more.program_splice
  pub components :
      AllOpt
        (λ cs.
          (0 < length cs) × (length cs < 256) × All (InInsertComponent more.splice_immediate) cs)
        more.components
  pub break_duration : AllOpt InDuration more.break_duration
  pub unique_program_id : more.unique_program_id < 2 ^ 16
  pub avail_num : more.avail_num < 256
  pub avails_expected : more.avails_expected < 256

abbrev pub InInsert : SpliceInsert → Type 0
InInsert i = (i.id < 2 ^ 32) × AllOpt InInsertCancelOff i.more
