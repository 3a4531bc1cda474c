-- ===== src/Scte35/RoundTrip/Times.antt =====
-- Splice times and break durations.
use metamix.Base.{
  ℕ, ◌*◌, ◌^◌, ◌<◌, List, ◌++◌, Bool, true, false, Option, some, none, ◌≡◌, refl, arith,
}
use metamix.Base.Bits.{flag, bit_at}
use metamix.Binary.Outcome.{ok}
use metamix.Binary.RoundTrip.{
  scan_flag-write_33_prefix, read_33-write_33_prefix, scan_flag-write_8, read_8-write_8,
}
use metamix.Scte35.Types.{SpliceTime, BreakDuration}
use metamix.Scte35.Emitter.{emit_splice_time, emit_pts_time, emit_break_duration}
use metamix.Scte35.Parser.{parse_splice_time, parse_break_duration}
use metamix.Scte35.RoundTrip.Ranges.{AllOpt, InTime, InDuration}

parse-emit_pts_time :
    (o : Option ℕ) (s : List ℕ)
    → AllOpt (λ v. v < 2 ^ 33) o
    → parse_splice_time (emit_pts_time o ++ s) ≡ ok (record { pts_time = o }, s)
unfolding parse_splice_time emit_pts_time
parse-emit_pts_time (some v) s h =
    rw (scan_flag-write_33_prefix 0xff v s (omega arith)) (rw (read_33-write_33_prefix 0xff v s h))
parse-emit_pts_time none s h =
    rw (scan_flag-write_8 7 0x7f s (omega arith)) (rw (read_8-write_8 0x7f s (omega arith)))

pub parse-emit_splice_time :
    (t : SpliceTime) (s : List ℕ)
    → InTime t
    → parse_splice_time (emit_splice_time t ++ s) ≡ ok (t, s)
unfolding emit_splice_time
parse-emit_splice_time t s h = parse-emit_pts_time t.pts_time s h

flag_top : (b : Bool) → bit_at (flag b * 128) 7 ≡ b
flag_top true = refl
flag_top false = refl

flag_range : (b : Bool) → flag b * 128 < 256
flag_range true = omega arith
flag_range false = omega arith

pub parse-emit_break_duration :
    (b : BreakDuration) (s : List ℕ)
    → InDuration b
    → parse_break_duration (emit_break_duration b ++ s) ≡ ok (b, s)
unfolding parse_break_duration emit_break_duration
parse-emit_break_duration b s h =
    rw
      (scan_flag-write_33_prefix (flag b.auto_return * 128) b.duration s (flag_range b.auto_return))
      (rw (read_33-write_33_prefix (flag b.auto_return * 128) b.duration s h)
        (rw (flag_top b.auto_return)))
