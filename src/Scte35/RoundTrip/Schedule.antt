-- ===== src/Scte35/RoundTrip/Schedule.antt =====
-- Splice schedule commands.
use metamix.Base.{
  ℕ, ◌+◌, ◌*◌, ◌^◌, ◌<◌, List, ◌++◌, Bool, Option, some, none, ◌≡◌, refl, append_assoc, length, All,
  arith, le→leb,
}
use metamix.Base.Bits.{flag, bit_at}
use metamix.Binary.Outcome.{ok}
use metamix.Binary.Write.{write_8, write_16, write_32}
use metamix.Binary.RoundTrip.{scan_flag-write_8, read_8-write_8, read_16-write_16, read_32-write_32}
use metamix.Scte35.Types.{has_value, is_program_splice, program_splice_on, program_splice_off}
use metamix.Scte35.Types.{
  ScheduleComponent, ProgramSplice, ScheduleCancelOff, ScheduleEvent, splice_schedule,
}
use metamix.Scte35.Emitter.{
  emit_opt, emit_all, emit_break_duration, emit_schedule_component, emit_program_splice,
}
use metamix.Scte35.Emitter.{
  emit_schedule_cancel_off, emit_event, emit_unless_cancelled, emit_command,
}
use metamix.Scte35.Parser.{parse_break_duration, parse_schedule_component, parse_program_splice}
use metamix.Scte35.Parser.{parse_schedule_cancel_off, parse_event, parse_splice_schedule}
use metamix.Scte35.RoundTrip.Ranges.{
  AllOpt, InDuration, InScheduleComponent, InProgramSplice, InScheduleCancelOff, InEvent,
}
use metamix.Scte35.RoundTrip.Times.{parse-emit_break_duration}
use metamix.Scte35.RoundTrip.Loops.{when-emit_opt, repeat-emit_all}

parse-emit_schedule_component :
    (c : ScheduleComponent) (s : List ℕ)
    → InScheduleComponent c
    → parse_schedule_component (emit_schedule_component c ++ s) ≡ ok (c, s)
unfolding parse_schedule_component emit_schedule_component
parse-emit_schedule_component c s (ht, hu) = simp (
  append_assoc,
  read_8-write_8 c.component_tag (write_32 c.utc_splice_time ++ s) ht,
  read_32-write_32 c.utc_splice_time s hu,
)

parse-emit_program_splice :
    (p : ProgramSplice) (s : List ℕ)
    → InProgramSplice p
    → parse_program_splice (is_program_splice p) (emit_program_splice p ++ s) ≡ ok (p, s)
unfolding parse_program_splice emit_program_splice is_program_splice
parse-emit_program_splice (program_splice_on t) s h = simp (read_32-write_32 t s h)
parse-emit_program_splice (program_splice_off cs) s (lo, hi, hc) = simp (
  append_assoc,
  read_8-write_8 (length cs) (emit_all emit_schedule_component cs ++ s) hi,
  le→leb 1 (length cs) lo,
  repeat-emit_all InScheduleComponent emit_schedule_component parse_schedule_component
      parse-emit_schedule_component cs s hc,
)

-- The flags byte of a scheduled splice.
abbrev flags : Bool → Bool → Bool → ℕ
flags o p d = flag o * 128 + flag p * 64 + flag d * 32 + 0x1f

flags_bits :
    (o p d : Bool)
    → (flags o p d < 256)
      × (bit_at (flags o p d) 7 ≡ o)
      × (bit_at (flags o p d) 6 ≡ p)
      × (bit_at (flags o p d) 5 ≡ d)
flags_bits o p d = ground arith

abbrev trailer : ScheduleCancelOff → List ℕ → List ℕ
trailer more s =
    write_16 more.unique_program_id
    ++ (write_8 more.avail_num ++ (write_8 more.avails_expected ++ s))

parse-emit_schedule_cancel_off :
    (more : ScheduleCancelOff) (s : List ℕ)
    → InScheduleCancelOff more
    → parse_schedule_cancel_off (emit_schedule_cancel_off more ++ s) ≡ ok (more, s)
unfolding parse_schedule_cancel_off emit_schedule_cancel_off
parse-emit_schedule_cancel_off more s h =
    let o = more.out_of_network in
    let p = is_program_splice more.splice in
    let d = has_value more.break_duration in
    let F : ℕ = flags o p d in
    let (range, f₇, f₆, f₅) = flags_bits o p d in
    let t₂ : List ℕ = emit_opt emit_break_duration more.break_duration ++ trailer more s in
    let t₁ : List ℕ = emit_program_splice more.splice ++ t₂ in
    simp (
      append_assoc,
      scan_flag-write_8 7 F t₁ range,
      scan_flag-write_8 6 F t₁ range,
      scan_flag-write_8 5 F t₁ range,
      read_8-write_8 F t₁ range,
      f₇,
      f₆,
      f₅,
      parse-emit_program_splice more.splice t₂ h.splice,
      when-emit_opt InDuration emit_break_duration parse_break_duration parse-emit_break_duration d
          more.break_duration (trailer more s) refl h.break_duration,
      read_16-write_16 more.unique_program_id
          (write_8 more.avail_num ++ (write_8 more.avails_expected ++ s)) h.unique_program_id,
      read_8-write_8 more.avail_num (write_8 more.avails_expected ++ s) h.avail_num,
      read_8-write_8 more.avails_expected s h.avails_expected,
    )

parse-emit_event_more :
    (id : ℕ) (o : Option ScheduleCancelOff) (s : List ℕ)
    → id < 2 ^ 32
    → AllOpt InScheduleCancelOff o
    → parse_event (write_32 id ++ (emit_unless_cancelled emit_schedule_cancel_off o ++ s))
      ≡ ok (record { id = id; more = o }, s)
unfolding parse_event emit_unless_cancelled
parse-emit_event_more id none s hi h = simp (
  read_32-write_32 id (write_8 0xff ++ s) hi,
  scan_flag-write_8 7 0xff s (omega arith),
  read_8-write_8 0xff s (omega arith),
)
parse-emit_event_more id (some more) s hi h =
    let rest : List ℕ = emit_schedule_cancel_off more ++ s in
    simp (
      append_assoc,
      read_32-write_32 id (write_8 0x7f ++ rest) hi,
      scan_flag-write_8 7 0x7f rest (omega arith),
      read_8-write_8 0x7f rest (omega arith),
      parse-emit_schedule_cancel_off more s h,
    )

parse-emit_event :
    (e : ScheduleEvent) (s : List ℕ) → InEvent e → parse_event (emit_event e ++ s) ≡ ok (e, s)
unfolding emit_event
parse-emit_event e s (hi, hm) =
    rw (append_assoc (write_32 e.id) (emit_unless_cancelled emit_schedule_cancel_off e.more) s)
      (parse-emit_event_more e.id e.more s hi hm)

-- A splice schedule of at most 255 events whose fields are in range is read back, whatever follows
-- it.
pub parse-emit_schedule :
    (events : List ScheduleEvent) (s : List ℕ)
    → length events < 256
    → All InEvent events
    → parse_splice_schedule (emit_command (splice_schedule events) ++ s)
      ≡ ok (splice_schedule events, s)
unfolding parse_splice_schedule emit_command
parse-emit_schedule events s hl he = simp (
  append_assoc,
  read_8-write_8 (length events) (emit_all emit_event events ++ s) hl,
  repeat-emit_all InEvent emit_event parse_event parse-emit_event events s he,
)
