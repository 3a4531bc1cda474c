-- ===== src/Clock.antt =====
-- src/clock.h and src/clock.cpp: the clock shared by all inputs, the ticker that drives it and the
-- rescaler of stream timestamps. Timestamps are integers; the 64 bits that hold them last for three
-- million years at 90 kHz. av_rescale_q, of FFmpeg, is a parameter.
pub mod Ticks
pub mod Rescale
mod Tests
use metamix.Base.{ℕ, List, [], ◌∷◌, Bool, true, false, Option, none, some, if◌then◌else◌}
use metamix.Base.Int.{ℤ, pos, ◌+ℤ◌, ◌-ℤ◌, leb_ℤ}

-- Clock::increment, on m_val
unfoldable pub increment : ℤ → ℤ → ℤ
increment m_val delta = if leb_ℤ (pos 0) delta then m_val +ℤ delta else m_val

-- TSTicker, with the value of the clock it shares.
pub record TsTicker : Type 0 where
  pub clock : ℤ
  pub last_ts : Option ℤ

-- What a tick adds to the clock.
abbrev pub tick_delta : Option ℤ → ℤ → ℤ
tick_delta none ts = ts
tick_delta (some last_ts) ts = ts -ℤ last_ts

unfoldable pub tick : TsTicker → ℤ → TsTicker
tick t ts = record { clock = increment t.clock (tick_delta t.last_ts ts); last_ts = some ts }

unfoldable pub ticks : TsTicker → List ℤ → TsTicker
ticks t [] = t
ticks t (ts ∷ rest) = ticks (tick t ts) rest

-- TimeBase: a rational number of seconds.
pub record TimeBase : Type 0 where
  pub num : ℕ
  pub den : ℕ

pub record TsRescaler : Type 0 where
  pub clock_time_base : TimeBase
  pub local_time_base : TimeBase
  pub base : ℤ
  pub ts_zero : Option ℤ

-- TSRescaler::clock_relative
abbrev pub clock_relative : ℤ → TimeBase → TimeBase → TsRescaler
clock_relative now clock_time_base local_time_base = record {
  clock_time_base = clock_time_base;
  local_time_base = local_time_base;
  base = now;
  ts_zero = none;
}

abbrev pub zero_of : Option ℤ → ℤ → ℤ
zero_of none ts = ts
zero_of (some ts_zero) ts = ts_zero

-- rescale_to_clock: the rescaled timestamp and the rescaler it leaves.
unfoldable pub rescale_to_clock : (ℤ → TimeBase → TimeBase → ℤ) → TsRescaler → ℤ → ℤ × TsRescaler
rescale_to_clock av_rescale_q r ts =
    let ts_zero = zero_of r.ts_zero ts in
    (
      r.base +ℤ av_rescale_q (ts -ℤ ts_zero) r.local_time_base r.clock_time_base,
      record {
        clock_time_base = r.clock_time_base;
        local_time_base = r.local_time_base;
        base = r.base;
        ts_zero = some ts_zero;
      },
    )
