-- ===== src/Clock/Rescale.antt =====
-- rescale_to_clock of src/clock.cpp.
use metamix.Base.{ℕ, ◌*◌, ◌≡◌, refl, arith}
use metamix.Base.Int.{ℤ, pos, ◌+ℤ◌, ◌-ℤ◌, ◌≤ℤ◌, +ℤ-parts, -ℤ-parts, ≤ℤ_antisymm}
use metamix.Clock.{TimeBase, TsRescaler, clock_relative, rescale_to_clock}

-- What FFmpeg documents of av_rescale_q from one time base to another: the product with their
-- quotient, rounded to nearest. So it keeps the order, and n ticks that are exactly d ticks become d.
pub record IsRescale (av_rescale_q : ℤ → TimeBase → TimeBase → ℤ) (bq cq : TimeBase) : Type 0 where
  pub monotone : (a b : ℤ) → a ≤ℤ b → av_rescale_q a bq cq ≤ℤ av_rescale_q b bq cq
  pub exact :
      (n d : ℕ) → n * (bq.num * cq.den) ≡ d * (cq.num * bq.den) → av_rescale_q (pos n) bq cq ≡ pos d

-- A timestamp rescaled again gives the same, and leaves the rescaler as it is.
pub rescale_to_clock_again :
    (av_rescale_q : ℤ → TimeBase → TimeBase → ℤ) (r : TsRescaler) (ts : ℤ)
    → rescale_to_clock av_rescale_q (rescale_to_clock av_rescale_q r ts).1 ts
      ≡ rescale_to_clock av_rescale_q r ts
unfolding rescale_to_clock
rescale_to_clock_again av_rescale_q r ts = refl

-ℤ_self : (x : ℤ) → x -ℤ x ≡ pos 0
-ℤ_self x = ≤ℤ_antisymm (x -ℤ x) (pos 0) (omega (arith, -ℤ-parts x x)) (omega (arith, -ℤ-parts x x))

+ℤ_zero : (x : ℤ) → x +ℤ pos 0 ≡ x
+ℤ_zero x =
    ≤ℤ_antisymm (x +ℤ pos 0) x (omega (arith, +ℤ-parts x (pos 0)))
      (omega (arith, +ℤ-parts x (pos 0)))

+ℤ-ℤ_cancel : (x y : ℤ) → (x +ℤ y) -ℤ x ≡ y
+ℤ-ℤ_cancel x y =
    ≤ℤ_antisymm ((x +ℤ y) -ℤ x) y (omega (arith, -ℤ-parts (x +ℤ y) x, +ℤ-parts x y))
      (omega (arith, -ℤ-parts (x +ℤ y) x, +ℤ-parts x y))

module _ (av_rescale_q : ℤ → TimeBase → TimeBase → ℤ) (clock_time_base local_time_base : TimeBase)
    (laws : IsRescale av_rescale_q local_time_base clock_time_base) where
  at_now : (now x : ℤ) → now +ℤ av_rescale_q (x -ℤ x) local_time_base clock_time_base ≡ now
  at_now now x = simp (-ℤ_self x, laws.exact 0 0 (omega arith), +ℤ_zero now)

  -- With av_rescale_q as documented between the two time bases, for a rescaler that starts at the
  -- clock's time: its first timestamp gets that time, now and again; a timestamp n ticks of the
  -- stream's time base behind the first, which are exactly d ticks of the clock's time base, gets the
  -- time d ticks behind the start; and timestamps get times in their own order.
  pub rescale_to_clock_order :
      (now first a b : ℤ) (n d : ℕ)
      → a ≤ℤ b
      → n * (local_time_base.num * clock_time_base.den)
        ≡ d * (clock_time_base.num * local_time_base.den)
      → let start =
          rescale_to_clock av_rescale_q
            (clock_relative now clock_time_base local_time_base)
            first in
        (start.0 ≡ now)
        × ((rescale_to_clock av_rescale_q start.1 first).0 ≡ now)
        × ((rescale_to_clock av_rescale_q start.1 (first +ℤ pos n)).0 ≡ now +ℤ pos d)
        × ((rescale_to_clock av_rescale_q start.1 a).0
            ≤ℤ (rescale_to_clock av_rescale_q start.1 b).0)
  unfolding rescale_to_clock
  rescale_to_clock_order now first a b n d h same =
      let ra : ℤ = av_rescale_q (a -ℤ first) local_time_base clock_time_base in
      let rb : ℤ = av_rescale_q (b -ℤ first) local_time_base clock_time_base in
      let shifted : (a -ℤ first) ≤ℤ (b -ℤ first) =
        omega (arith, -ℤ-parts a first, -ℤ-parts b first) in
      let rescaled : ra ≤ℤ rb = laws.monotone (a -ℤ first) (b -ℤ first) shifted in
      (
        at_now now first,
        at_now now first,
        simp (+ℤ-ℤ_cancel first (pos n), laws.exact n d same),
        omega (arith, +ℤ-parts now ra, +ℤ-parts now rb),
      )
