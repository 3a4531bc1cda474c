-- ===== src/Scte35/RoundTrip/Insert.antt =====
-- Splice insert commands.
use metamix.Base.{
  ℕ, ◌+◌, ◌*◌, ◌^◌, ◌<◌, List, ◌++◌, Bool, not, ◌&&◌, Option, some, none, ◌≡◌, refl, append_assoc,
  length, All, arith, le→leb,
}
use metamix.Base.Bits.{flag, bit_at}
use metamix.Binary.Outcome.{ok}
use metamix.Binary.Write.{write_8, write_16, write_32}
use metamix.Binary.RoundTrip.{scan_flag-write_8, read_8-write_8, read_16-write_16, read_32-write_32}
use metamix.Scte35.Types.{has_value, InsertComponent, InsertCancelOff, SpliceInsert}
use metamix.Scte35.Emitter.{
  emit_opt, emit_all, emit_splice_time, emit_break_duration, emit_insert_component,
}
use metamix.Scte35.Emitter.{
  emit_insert_components, emit_insert_cancel_off, emit_insert, emit_unless_cancelled,
}
use metamix.Scte35.Parser.{parse_splice_time, parse_break_duration, parse_insert_component}
use metamix.Scte35.Parser.{parse_insert_components, parse_insert_cancel_off, parse_splice_insert}
use metamix.Scte35.RoundTrip.Ranges.{
  AllOpt, InTime, InDuration, InInsertComponent, InInsertCancelOff, InInsert,
}
use metamix.Scte35.RoundTrip.Times.{parse-emit_splice_time, parse-emit_break_duration}
use metamix.Scte35.RoundTrip.Loops.{when-emit_opt, repeat-emit_all}

parse-emit_insert_component :
    (b : Bool) (c : InsertComponent) (s : List ℕ)
    → InInsertComponent b c
    → parse_insert_component b (emit_insert_component c ++ s) ≡ ok (c, s)
unfolding parse_insert_component emit_insert_component
parse-emit_insert_component b c s (ht, hv, hs) = simp (
  append_assoc,
  read_8-write_8 c.component_tag (emit_opt emit_splice_time c.splice_time ++ s) ht,
  when-emit_opt InTime emit_splice_time parse_splice_time parse-emit_splice_time (not b)
      c.splice_time s hv hs,
)

abbrev InComponents : Bool → List InsertComponent → Type 0
InComponents b cs = (0 < length cs) × (length cs < 256) × All (InInsertComponent b) cs

parse-emit_insert_components :
    (b : Bool) (cs : List InsertComponent) (s : List ℕ)
    → InComponents b cs
    → parse_insert_components b (emit_insert_components cs ++ s) ≡ ok (cs, s)
unfolding parse_insert_components emit_insert_components
parse-emit_insert_components b cs s (lo, hi, hc) = simp (
  append_assoc,
  read_8-write_8 (length cs) (emit_all emit_insert_component cs ++ s) hi,
  le→leb 1 (length cs) lo,
  repeat-emit_all (InInsertComponent b) emit_insert_component (parse_insert_component b)
      (parse-emit_insert_component b) cs s hc,
)

-- The flags byte of a splice insert.
abbrev flags : Bool → Bool → Bool → Bool → ℕ
flags o p d i = flag o * 128 + flag p * 64 + flag d * 32 + flag i * 16 + 0x0f

flags_bits :
    (o p d i : Bool)
    → (flags o p d i < 256)
      × (bit_at (flags o p d i) 7 ≡ o)
      × (bit_at (flags o p d i) 6 ≡ p)
      × (bit_at (flags o p d i) 5 ≡ d)
      × (bit_at (flags o p d i) 4 ≡ i)
flags_bits o p d i = ground arith

-- The fields that end a splice event.
abbrev trailer : InsertCancelOff → List ℕ → List ℕ
trailer more s =
    write_16 more.unique_program_id
    ++ (write_8 more.avail_num ++ (write_8 more.avails_expected ++ s))

parse-emit_insert_cancel_off :
    (more : InsertCancelOff) (s : List ℕ)
    → InInsertCancelOff more
    → parse_insert_cancel_off (emit_insert_cancel_off more ++ s) ≡ ok (more, s)
unfolding parse_insert_cancel_off emit_insert_cancel_off
parse-emit_insert_cancel_off more s h =
    let F : ℕ =
      flags more.out_of_network more.program_splice (has_value more.break_duration)
        more.splice_immediate in
    let (range, f₇, f₆, f₅, f₄) =
      flags_bits more.out_of_network more.program_splice (has_value more.break_duration)
        more.splice_immediate in
    let t₃ : List ℕ = emit_opt emit_break_duration more.break_duration ++ trailer more s in
    let t₂ : List ℕ = emit_opt emit_insert_components more.components ++ t₃ in
    let t₁ : List ℕ = emit_opt emit_splice_time more.splice_time ++ t₂ in
    simp (
      append_assoc,
      scan_flag-write_8 7 F t₁ range,
      scan_flag-write_8 6 F t₁ range,
      scan_flag-write_8 5 F t₁ range,
      scan_flag-write_8 4 F t₁ range,
      read_8-write_8 F t₁ range,
      f₇,
      f₆,
      f₅,
      f₄,
      when-emit_opt InTime emit_splice_time parse_splice_time parse-emit_splice_time
          (more.program_splice && not more.splice_immediate) more.splice_time t₂ h.timed
          h.splice_time,
      when-emit_opt (InComponents more.splice_immediate) emit_insert_components
          (parse_insert_components more.splice_immediate)
          (parse-emit_insert_components more.splice_immediate) (not more.program_splice)
          more.components t₃ h.split h.components,
      when-emit_opt InDuration emit_break_duration parse_break_duration parse-emit_break_duration
          (has_value more.break_duration) more.break_duration (trailer more s) refl
          h.break_duration,
      read_16-write_16 more.unique_program_id
          (write_8 more.avail_num ++ (write_8 more.avails_expected ++ s)) h.unique_program_id,
      read_8-write_8 more.avail_num (write_8 more.avails_expected ++ s) h.avail_num,
      read_8-write_8 more.avails_expected s h.avails_expected,
    )

parse-emit_insert_more :
    (id : ℕ) (o : Option InsertCancelOff) (s : List ℕ)
    → id < 2 ^ 32
    → AllOpt InInsertCancelOff o
    → parse_splice_insert (write_32 id ++ (emit_unless_cancelled emit_insert_cancel_off o ++ s))
      ≡ ok (record { id = id; more = o }, s)
unfolding parse_splice_insert emit_unless_cancelled
parse-emit_insert_more id none s hi h = simp (
  read_32-write_32 id (write_8 0xff ++ s) hi,
  scan_flag-write_8 7 0xff s (omega arith),
  read_8-write_8 0xff s (omega arith),
)
parse-emit_insert_more id (some more) s hi h =
    let rest : List ℕ = emit_insert_cancel_off more ++ s in
    simp (
      append_assoc,
      read_32-write_32 id (write_8 0x7f ++ rest) hi,
      scan_flag-write_8 7 0x7f rest (omega arith),
      read_8-write_8 0x7f rest (omega arith),
      parse-emit_insert_cancel_off more s h,
    )

-- A splice insert whose fields are in range is read back, whatever follows it.
pub parse-emit_insert :
    (i : SpliceInsert) (s : List ℕ)
    → InInsert i
    → parse_splice_insert (emit_insert i ++ s) ≡ ok (i, s)
unfolding emit_insert
parse-emit_insert i s (hi, hm) =
    rw (append_assoc (write_32 i.id) (emit_unless_cancelled emit_insert_cancel_off i.more) s)
      (parse-emit_insert_more i.id i.more s hi hm)
