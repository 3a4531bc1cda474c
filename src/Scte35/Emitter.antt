-- ===== src/Scte35/Emitter.antt =====
-- src/scte35/emitter.h: the size hints and the emit functions. The flags are the bits of one byte,
-- so `|` adds them. `size` of the hints is a size_t; no section comes near its range.
pub mod Section
use metamix.Base.{
  ℕ, zero, suc, ◌+◌, ◌-◌, ◌*◌, ◌%◌, ◌^◌, List, [], ◌∷◌, ◌++◌, Bool, Option, none, some, length,
  if◌then◌else◌,
}
use metamix.Base.Bits.{flag}
use metamix.Binary.Write.{write_8, write_16, write_32, write_33_prefix, write_48}
use metamix.Scte35.Types.{
  SpliceTime, BreakDuration, ScheduleComponent, ProgramSplice, ScheduleCancelOff,
}
use metamix.Scte35.Types.{program_splice_on, program_splice_off, is_program_splice, has_value}
use metamix.Scte35.Types.{
  ScheduleEvent, InsertComponent, InsertCancelOff, SpliceInsert, Command, Descriptor,
}
use metamix.Scte35.Types.{
  splice_null, splice_schedule, splice_insert, time_signal, bandwidth_reservation,
}
use metamix.Scte35.Types.{
  private_command, avail, dtmf, segmentation, time_descriptor, descriptor_tag, cuei,
}

-- if (x) sum += emit_size_hint(*x)
abbrev pub hint_of {ℓ} : {A : Type ℓ} → (A → ℕ) → Option A → ℕ
hint_of hint none = 0
hint_of hint (some a) = hint a

-- for (const auto &x : xs) sum += emit_size_hint(x)
abbrev pub hint_all {ℓ} : {A : Type ℓ} → (A → ℕ) → List A → ℕ
hint_all hint [] = 0
hint_all hint (x ∷ xs) = hint x + hint_all hint xs

-- if (x) out = emit(*x, out)
abbrev pub emit_opt {ℓ} : {A : Type ℓ} → (A → List ℕ) → Option A → List ℕ
emit_opt emit none = []
emit_opt emit (some a) = emit a

-- for (const auto &x : xs) out = emit(x, out)
abbrev pub emit_all {ℓ} : {A : Type ℓ} → (A → List ℕ) → List A → List ℕ
emit_all emit [] = []
emit_all emit (x ∷ xs) = emit x ++ emit_all emit xs

-- splice_time.pts_time.has_value() ? 5 : 1
unfoldable pub hint_splice_time : SpliceTime → ℕ
hint_splice_time t = if has_value t.pts_time then 5 else 1

-- The result of std::visit on `splice` is discarded: the splice times do not count.
unfoldable pub hint_schedule_cancel_off : ScheduleCancelOff → ℕ
hint_schedule_cancel_off more = 1 + 4 + hint_of (λ b. 5) more.break_duration

unfoldable pub hint_event : ScheduleEvent → ℕ
hint_event e = 5 + hint_of hint_schedule_cancel_off e.more

unfoldable pub hint_insert_component : InsertComponent → ℕ
hint_insert_component c = 1 + hint_of hint_splice_time c.splice_time

unfoldable pub hint_insert_cancel_off : InsertCancelOff → ℕ
hint_insert_cancel_off more =
    1
    + 4
    + hint_of hint_splice_time more.splice_time
    + hint_of (λ cs. 1 + hint_all hint_insert_component cs) more.components
    + hint_of (λ b. 5) more.break_duration

unfoldable pub hint_command : Command → ℕ
hint_command splice_null = 0
hint_command (splice_schedule events) = 1 + hint_all hint_event events
hint_command (splice_insert i) = 5 + hint_of hint_insert_cancel_off i.more
hint_command (time_signal t) = hint_splice_time t
hint_command bandwidth_reservation = 0
hint_command (private_command identifier bytes) = 4 + length bytes

unfoldable pub hint_descriptor : Descriptor → ℕ
hint_descriptor (avail n) = 2 + 8
hint_descriptor (dtmf p cs) = 8 + length cs
hint_descriptor (segmentation bs) = 6 + length bs
hint_descriptor (time_descriptor s n u) = 2 + 16

unfoldable pub emit_pts_time : Option ℕ → List ℕ
emit_pts_time (some v) = write_33_prefix 0xff v
emit_pts_time none = write_8 0x7f

unfoldable pub emit_splice_time : SpliceTime → List ℕ
emit_splice_time t = emit_pts_time t.pts_time

unfoldable pub emit_break_duration : BreakDuration → List ℕ
emit_break_duration b = write_33_prefix (flag b.auto_return * 128) b.duration

unfoldable pub emit_schedule_component : ScheduleComponent → List ℕ
emit_schedule_component c = write_8 c.component_tag ++ write_32 c.utc_splice_time

unfoldable pub emit_program_splice : ProgramSplice → List ℕ
emit_program_splice (program_splice_on t) = write_32 t
emit_program_splice (program_splice_off cs) =
    write_8 (length cs) ++ emit_all emit_schedule_component cs

unfoldable pub emit_schedule_cancel_off : ScheduleCancelOff → List ℕ
emit_schedule_cancel_off more =
    write_8 (
      flag more.out_of_network * 128
      + flag (is_program_splice more.splice) * 64
      + flag (has_value more.break_duration) * 32
      + 0x1f)
    ++ (emit_program_splice more.splice
        ++ (emit_opt emit_break_duration more.break_duration
            ++ (write_16 more.unique_program_id
                ++ (write_8 more.avail_num ++ write_8 more.avails_expected))))

-- The cancel indicator, and what follows when it is off.
unfoldable pub emit_unless_cancelled {ℓ} : {A : Type ℓ} → (A → List ℕ) → Option A → List ℕ
emit_unless_cancelled emit (some more) = write_8 0x7f ++ emit more
emit_unless_cancelled emit none = write_8 0xff

unfoldable pub emit_event : ScheduleEvent → List ℕ
emit_event e = write_32 e.id ++ emit_unless_cancelled emit_schedule_cancel_off e.more

unfoldable pub emit_insert_component : InsertComponent → List ℕ
emit_insert_component c = write_8 c.component_tag ++ emit_opt emit_splice_time c.splice_time

unfoldable pub emit_insert_components : List InsertComponent → List ℕ
emit_insert_components cs = write_8 (length cs) ++ emit_all emit_insert_component cs

unfoldable pub emit_insert_cancel_off : InsertCancelOff → List ℕ
emit_insert_cancel_off more =
    write_8 (
      flag more.out_of_network * 128
      + flag more.program_splice * 64
      + flag (has_value more.break_duration) * 32
      + flag more.splice_immediate * 16
      + 0x0f)
    ++ (emit_opt emit_splice_time more.splice_time
        ++ (emit_opt emit_insert_components more.components
            ++ (emit_opt emit_break_duration more.break_duration
                ++ (write_16 more.unique_program_id
                    ++ (write_8 more.avail_num ++ write_8 more.avails_expected)))))

unfoldable pub emit_insert : SpliceInsert → List ℕ
emit_insert i = write_32 i.id ++ emit_unless_cancelled emit_insert_cancel_off i.more

unfoldable pub emit_command : Command → List ℕ
emit_command splice_null = []
emit_command (splice_schedule events) = write_8 (length events) ++ emit_all emit_event events
emit_command (splice_insert i) = emit_insert i
emit_command (time_signal t) = emit_splice_time t
emit_command bandwidth_reservation = []
emit_command (private_command identifier bytes) = write_32 identifier ++ emit_all write_8 bytes

-- tag, descriptor_length and identifier
unfoldable pub emit_descriptor_header : ℕ → ℕ → List ℕ
emit_descriptor_header tag size = write_8 tag ++ (write_8 size ++ write_32 cuei)

unfoldable pub emit_descriptor : Descriptor → List ℕ
emit_descriptor (avail n) = emit_descriptor_header 0x00 8 ++ write_32 n
emit_descriptor (dtmf preroll chars) =
    emit_descriptor_header 0x01 (8 + length chars - 2)
    ++ (write_8 preroll ++ (write_8 (length chars * 32) ++ emit_all write_8 chars))
emit_descriptor (segmentation bytes) =
    emit_descriptor_header 0x02 (6 + length bytes - 2) ++ emit_all write_8 bytes
emit_descriptor (time_descriptor seconds nanoseconds offset) =
    emit_descriptor_header 0x03 16
    ++ (write_48 seconds ++ (write_32 nanoseconds ++ write_16 offset))
