-- ===== src/Scte35/RoundTrip/Sizes.antt =====
-- The size hints against the bytes that are written.
use metamix.Base.{
  ℕ, ◌+◌, ◌<◌, List, [], ◌∷◌, ◌++◌, Option, some, none, ◌≡◌, ◌∙◌, length, length-append, arith,
}
use metamix.Binary.Write.{write_8, write_16, write_32, write_33_prefix}
use metamix.Scte35.Types.{has_value, SpliceTime, BreakDuration}
use metamix.Scte35.Types.{
  ScheduleCancelOff, ScheduleEvent, InsertComponent, InsertCancelOff, Command, command_type,
}
use metamix.Scte35.Types.{
  splice_null, splice_schedule, splice_insert, time_signal, bandwidth_reservation, private_command,
}
use metamix.Scte35.Emitter.{
  hint_of, hint_all, emit_opt, emit_all, hint_splice_time, hint_schedule_cancel_off, hint_event,
}
use metamix.Scte35.Emitter.{
  hint_insert_component, hint_insert_cancel_off, hint_command, emit_pts_time, emit_splice_time,
}
use metamix.Scte35.Emitter.{
  emit_break_duration, emit_program_splice, emit_schedule_cancel_off, emit_unless_cancelled,
}
use metamix.Scte35.Emitter.{
  emit_event, emit_insert_component, emit_insert_components, emit_insert_cancel_off, emit_insert,
  emit_command,
}

-- The bytes of the splice times of a schedule, which the hints leave out.
abbrev pub uncounted_event : ScheduleEvent → ℕ
uncounted_event e = hint_of (λ m. length (emit_program_splice m.splice)) e.more

abbrev pub uncounted : Command → ℕ
uncounted (splice_schedule events) = hint_all uncounted_event events
uncounted _ = 0

module _ {A : Type 0} (emit : A → List ℕ) (size : A → ℕ)
    (sized : (a : A) → length (emit a) ≡ size a) where
  pub length-emit_all : (xs : List A) → length (emit_all emit xs) ≡ hint_all size xs
  length-emit_all [] = omega arith
  length-emit_all (x ∷ xs) =
      omega (arith, length-append (emit x) (emit_all emit xs), sized x, length-emit_all xs)

  length-emit_opt : (o : Option A) → length (emit_opt emit o) ≡ hint_of size o
  length-emit_opt none = omega arith
  length-emit_opt (some a) = sized a

hint_all-add :
    {A : Type 0} (f g : A → ℕ) (xs : List A)
    → hint_all (λ x. f x + g x) xs ≡ hint_all f xs + hint_all g xs
hint_all-add f g [] = omega arith
hint_all-add f g (x ∷ xs) = omega (arith, hint_all-add f g xs)

length-emit_pts_time :
    (o : Option ℕ) → length (emit_pts_time o) ≡ hint_splice_time (record { pts_time = o })
unfolding emit_pts_time hint_splice_time has_value write_33_prefix write_8
length-emit_pts_time none = omega arith
length-emit_pts_time (some v) = omega arith

length-emit_splice_time : (t : SpliceTime) → length (emit_splice_time t) ≡ hint_splice_time t
unfolding emit_splice_time
length-emit_splice_time t = length-emit_pts_time t.pts_time

length-emit_break_duration : (b : BreakDuration) → length (emit_break_duration b) ≡ 5
unfolding emit_break_duration write_33_prefix
length-emit_break_duration b = omega arith

length-emit_insert_component :
    (c : InsertComponent) → length (emit_insert_component c) ≡ hint_insert_component c
unfolding emit_insert_component hint_insert_component write_8
length-emit_insert_component c =
    omega (
      arith,
      length-emit_opt emit_splice_time hint_splice_time length-emit_splice_time c.splice_time,
    )

length-emit_insert_components :
    (cs : List InsertComponent)
    → length (emit_insert_components cs) ≡ 1 + hint_all hint_insert_component cs
unfolding emit_insert_components write_8
length-emit_insert_components cs = omega (
  arith,
  length-emit_all emit_insert_component hint_insert_component length-emit_insert_component cs,
)

length-emit_insert_cancel_off :
    (m : InsertCancelOff) → length (emit_insert_cancel_off m) ≡ hint_insert_cancel_off m
unfolding emit_insert_cancel_off hint_insert_cancel_off write_8 write_16
length-emit_insert_cancel_off m =
    let t₃ : List ℕ =
      write_16 m.unique_program_id ++ (write_8 m.avail_num ++ write_8 m.avails_expected) in
    let t₂ : List ℕ = emit_opt emit_break_duration m.break_duration ++ t₃ in
    let t₁ : List ℕ = emit_opt emit_insert_components m.components ++ t₂ in
    omega (
      arith,
      length-append (emit_opt emit_splice_time m.splice_time) t₁,
      length-append (emit_opt emit_insert_components m.components) t₂,
      length-append (emit_opt emit_break_duration m.break_duration) t₃,
      length-emit_opt emit_splice_time hint_splice_time length-emit_splice_time m.splice_time,
      length-emit_opt emit_insert_components _ length-emit_insert_components m.components,
      length-emit_opt emit_break_duration _ length-emit_break_duration m.break_duration,
    )

length-emit_schedule_cancel_off :
    (m : ScheduleCancelOff)
    → length (emit_schedule_cancel_off m)
      ≡ hint_schedule_cancel_off m + length (emit_program_splice m.splice)
unfolding emit_schedule_cancel_off hint_schedule_cancel_off write_8 write_16
length-emit_schedule_cancel_off m =
    let t₃ : List ℕ =
      write_16 m.unique_program_id ++ (write_8 m.avail_num ++ write_8 m.avails_expected) in
    let t₂ : List ℕ = emit_opt emit_break_duration m.break_duration ++ t₃ in
    omega (
      arith,
      length-append (emit_program_splice m.splice) t₂,
      length-append (emit_opt emit_break_duration m.break_duration) t₃,
      length-emit_opt emit_break_duration _ length-emit_break_duration m.break_duration,
    )

length-emit_insert_more :
    (id : ℕ) (o : Option InsertCancelOff)
    → length (write_32 id ++ emit_unless_cancelled emit_insert_cancel_off o)
      ≡ 5 + hint_of hint_insert_cancel_off o
unfolding emit_unless_cancelled write_32 write_8
length-emit_insert_more id none = omega arith
length-emit_insert_more id (some m) = omega (arith, length-emit_insert_cancel_off m)

length-emit_event_more :
    (id : ℕ) (o : Option ScheduleCancelOff)
    → length (write_32 id ++ emit_unless_cancelled emit_schedule_cancel_off o)
      ≡ 5
        + hint_of hint_schedule_cancel_off o
        + hint_of (λ m. length (emit_program_splice m.splice)) o
unfolding emit_unless_cancelled write_32 write_8
length-emit_event_more id none = omega arith
length-emit_event_more id (some m) = omega (arith, length-emit_schedule_cancel_off m)

length-emit_event : (e : ScheduleEvent) → length (emit_event e) ≡ hint_event e + uncounted_event e
unfolding emit_event hint_event
length-emit_event e = length-emit_event_more e.id e.more

pub length-bytes : (bytes : List ℕ) → length (emit_all write_8 bytes) ≡ length bytes
unfolding write_8
length-bytes [] = omega arith
length-bytes (b ∷ bs) = omega (arith, length-bytes bs)

-- The length that the size hint announces for a command is the number of bytes written for it,
-- except that it leaves out the splice times of a schedule's events.
pub length-emit_command : (c : Command) → length (emit_command c) ≡ hint_command c + uncounted c
unfolding emit_command hint_command emit_insert write_8 write_32
length-emit_command splice_null = omega arith
length-emit_command (splice_schedule events) = omega (
  arith,
  length-emit_all emit_event (λ e. hint_event e + uncounted_event e) length-emit_event events,
  hint_all-add hint_event uncounted_event events,
)
length-emit_command (splice_insert i) = length-emit_insert_more i.id i.more ∙ omega arith
length-emit_command (time_signal t) = length-emit_splice_time t ∙ omega arith
length-emit_command bandwidth_reservation = omega arith
length-emit_command (private_command identifier bytes) = omega (arith, length-bytes bytes)

pub type_range : (c : Command) → command_type c < 256
unfolding command_type
type_range splice_null = omega arith
type_range (splice_schedule events) = omega arith
type_range (splice_insert i) = omega arith
type_range (time_signal t) = omega arith
type_range bandwidth_reservation = omega arith
type_range (private_command identifier bytes) = omega arith
