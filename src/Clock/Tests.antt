-- ===== src/Clock/Tests.antt =====
-- The clock at concrete timestamps.
use metamix.Base.{ℕ, ◌*◌, List, [], ◌∷◌, ◌≡◌, refl, arith}
use metamix.Base.Int.{ℤ, pos, ◌+ℤ◌, ◌-ℤ◌, ◌≤ℤ◌, +ℤ-parts}
use metamix.Clock.{TimeBase, TsRescaler, clock_relative, rescale_to_clock, increment, tick, ticks}
use metamix.Clock.Ticks.{ticker}
use metamix.Clock.Rescale.{IsRescale, rescale_to_clock_order}

abbrev jumping : List ℤ
jumping = pos 40 ∷ pos 10 ∷ pos 30 ∷ []

jumped : (ticks (ticker (pos 5)) jumping).clock ≡ pos 65
unfolding ticks tick increment ◌-ℤ◌ ◌+ℤ◌
jumped = refl

-- From a time base of 1/45000 to that of the clock: every tick is two.
abbrev doubled : ℤ → TimeBase → TimeBase → ℤ
doubled a bq cq = a +ℤ a

abbrev half_rate : TimeBase
half_rate = record { num = 1; den = 45_000 }

abbrev clock_rate : TimeBase
clock_rate = record { num = 1; den = 90_000 }

double_pos : (n d : ℕ) → n * 90_000 ≡ d * 45_000 → pos n +ℤ pos n ≡ pos d
unfolding ◌+ℤ◌
double_pos n d h = ground arith

doubled-IsRescale : IsRescale doubled half_rate clock_rate
doubled-IsRescale = record {
  monotone = λ a b h. omega (arith, +ℤ-parts a a, +ℤ-parts b b);
  exact = λ n d h. double_pos n d (omega (arith, h));
}

abbrev started : TsRescaler
started = (rescale_to_clock doubled (clock_relative (pos 100) clock_rate half_rate) (pos 7)).1

rescale_to_clock_order_example :
    ((rescale_to_clock doubled (clock_relative (pos 100) clock_rate half_rate) (pos 7)).0 ≡ pos 100)
    × ((rescale_to_clock doubled started (pos 7)).0 ≡ pos 100)
    × ((rescale_to_clock doubled started (pos 7 +ℤ pos 3)).0 ≡ pos 100 +ℤ pos 6)
    × ((rescale_to_clock doubled started (pos 5)).0 ≤ℤ (rescale_to_clock doubled started (pos 9)).0)
rescale_to_clock_order_example =
    rescale_to_clock_order doubled clock_rate half_rate doubled-IsRescale (pos 100) (pos 7) (pos 5)
      (pos 9) 3 6 (omega arith) refl
