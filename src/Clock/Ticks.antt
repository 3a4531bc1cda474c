-- ===== src/Clock/Ticks.antt =====
-- The clock under any sequence of ticks.
use metamix.Base.{List, [], ◌∷◌, ◌≡◌, refl, ap, ◌∙◌, none, some, arith}
use metamix.Base.Int.{ℤ, pos, ◌+ℤ◌, ◌-ℤ◌, ◌≤ℤ◌, +ℤ-parts, -ℤ-parts, ≤ℤ_antisymm}
use metamix.Clock.{increment, TsTicker, tick, tick_delta, ticks}

pub increment-le :
    (m_val delta : ℤ) → (m_val ≤ℤ increment m_val delta) × (m_val +ℤ delta ≤ℤ increment m_val delta)
unfolding increment
increment-le m_val delta = ground (arith, +ℤ-parts m_val delta)

-- A clock never runs backwards, whatever the timestamps.
pub ticks-le : (t : TsTicker) (tss : List ℤ) → t.clock ≤ℤ (ticks t tss).clock
unfolding ticks tick
ticks-le t [] = omega arith
ticks-le t (ts ∷ rest) =
    omega (arith, (increment-le t.clock (tick_delta t.last_ts ts)).0, ticks-le (tick t ts) rest)

-- TSTicker's constructor
abbrev pub ticker : ℤ → TsTicker
ticker start = record { clock = start; last_ts = none }

abbrev pub last : ℤ → List ℤ → ℤ
last ts [] = ts
last ts (next ∷ rest) = last next rest

abbrev pub IsOrdered : ℤ → List ℤ → Type 0
IsOrdered ts [] = Unit
IsOrdered ts (next ∷ rest) = (ts ≤ℤ next) × IsOrdered next rest

increment_forward : (m_val delta : ℤ) → pos 0 ≤ℤ delta → increment m_val delta ≡ m_val +ℤ delta
unfolding increment
increment_forward m_val delta h = ground arith

-- From u to v, on a clock that shows start + u.
forward : (start u v : ℤ) → u ≤ℤ v → increment (start +ℤ u) (v -ℤ u) ≡ start +ℤ v
forward start u v h =
    let ahead : pos 0 ≤ℤ (v -ℤ u) = omega (arith, -ℤ-parts v u) in
    increment_forward (start +ℤ u) (v -ℤ u) ahead
    ∙ ≤ℤ_antisymm (start +ℤ u +ℤ (v -ℤ u)) (start +ℤ v)
        (omega
          (arith, +ℤ-parts (start +ℤ u) (v -ℤ u), +ℤ-parts start u, +ℤ-parts start v, -ℤ-parts v u))
        (omega
          (arith, +ℤ-parts (start +ℤ u) (v -ℤ u), +ℤ-parts start u, +ℤ-parts start v, -ℤ-parts v u))

ticks_from :
    (start u : ℤ) (rest : List ℤ)
    → IsOrdered u rest
    → (ticks (record { clock = start +ℤ u; last_ts = some u }) rest).clock ≡ start +ℤ last u rest
unfolding ticks tick
ticks_from start u [] h = refl
ticks_from start u (v ∷ rest) h =
    ap (λ c. (ticks (record { clock = c; last_ts = some v }) rest).clock) (forward start u v h.0)
    ∙ ticks_from start v rest h.1

-- On timestamps in order, from one that is not negative, a new ticker's clock advances by the last
-- timestamp.
pub ticks-last :
    (start ts : ℤ) (rest : List ℤ)
    → pos 0 ≤ℤ ts
    → IsOrdered ts rest
    → (ticks (ticker start) (ts ∷ rest)).clock ≡ start +ℤ last ts rest
unfolding ticks tick
ticks-last start ts rest h ordered =
    ap (λ c. (ticks (record { clock = c; last_ts = some ts }) rest).clock)
      (increment_forward start ts h)
    ∙ ticks_from start ts rest ordered

-- A clock that shows at least start + u shows at least start + the last timestamp.
behind :
    (start u : ℤ) (t : TsTicker) (rest : List ℤ)
    → t.last_ts ≡ some u
    → (start +ℤ u) ≤ℤ t.clock
    → (start +ℤ last u rest) ≤ℤ (ticks t rest).clock
unfolding ticks tick
behind start u t [] e h = h
behind start u t (v ∷ rest) e h =
    let delta : tick_delta t.last_ts v ≡ v -ℤ u = rw e refl in
    behind start v (tick t v) rest refl (
      rw delta (
        omega (
          arith,
          (increment-le t.clock (v -ℤ u)).1,
          +ℤ-parts t.clock (v -ℤ u),
          +ℤ-parts start u,
          +ℤ-parts start v,
          -ℤ-parts v u,
        )))

-- On any timestamps, also ones that jump back, a new ticker's clock is never behind the last one.
pub last-le-ticks :
    (start ts : ℤ) (rest : List ℤ)
    → (start +ℤ last ts rest) ≤ℤ (ticks (ticker start) (ts ∷ rest)).clock
unfolding ticks tick
last-le-ticks start ts rest =
    behind start ts (tick (ticker start) ts) rest refl (increment-le start ts).1
