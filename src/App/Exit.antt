-- ===== src/App/Exit.antt =====
-- on_exit is emitted once, however many threads call exit.
use metamix.Base.{
  ℕ, suc, ◌+◌, ◌⊎◌, inl, inr, Bool-cases, List, [], ◌∷◌, ◌++◌, ◌≡◌, refl, ◌∙◌, Bool, true, false,
  arith, All, length, if◌then◌else◌,
}
use metamix.App.{
  Caller, calling, signalling, returned, ExitState, ExitStep, exchange, emit, ExitPath, here, next,
  RunEnd, ended, threw, supervised,
}

abbrev pub weight : Caller → ℕ
weight calling = 0
weight signalling = 1
weight returned = 0

-- The callers that are about to emit.
abbrev pub about : List Caller → ℕ
about [] = 0
about (c ∷ cs) = weight c + about cs

about-append :
    (before behind : List Caller) → about (before ++ behind) ≡ about before + about behind
about-append [] behind = omega arith
about-append (c ∷ before) behind = omega (arith, about-append before behind)

abbrev exited : Bool → ℕ
exited true = 0
exited false = 1

-- Emitted or about to be, exactly once if the program was told to exit.
abbrev IsOnce : ExitState → Type 0
IsOnce s = s.signals + about s.callers ≡ exited s.running

ExitStep-IsOnce : {s t : ExitState} → ExitStep s t → IsOnce s → IsOnce t
ExitStep-IsOnce (exchange true signals before behind) h =
    omega (arith, about-append before (calling ∷ behind), about-append before (signalling ∷ behind))
ExitStep-IsOnce (exchange false signals before behind) h =
    omega (arith, about-append before (calling ∷ behind), about-append before (returned ∷ behind))
ExitStep-IsOnce (emit running signals before behind) h =
    omega
      (arith, about-append before (signalling ∷ behind), about-append before (returned ∷ behind))

ExitPath-IsOnce : {s t : ExitState} → IsOnce s → ExitPath s t → IsOnce t
ExitPath-IsOnce h here = h
ExitPath-IsOnce h (next path step) = ExitStep-IsOnce step (ExitPath-IsOnce h path)

-- No exchange before the first, which every return needs.
abbrev IsCalling : Caller → Type 0
IsCalling c = c ≡ calling

about-calling : (cs : List Caller) → All IsCalling cs → about cs ≡ 0
about-calling [] h = refl
about-calling (c ∷ cs) (e, h) = rw e (omega (arith, about-calling cs h))

-- From a running program in which callers are about to exit, whatever the order of their steps:
-- either none has made its exchange, and on_exit was not emitted; or the program is not running, and
-- on_exit was emitted once or is about to be emitted by exactly one caller, never both.
pub exit-signals :
    (callers : List Caller) {s : ExitState}
    → All (λ c. c ≡ calling) callers
    → ExitPath (record { running = true; signals = 0; callers = callers }) s
    → ((s.running ≡ true) × (s.signals ≡ 0) × (about s.callers ≡ 0))
      ⊎ ((s.running ≡ false) × (s.signals + about s.callers ≡ 1))
exit-signals callers {s} h path =
    let once : IsOnce s = ExitPath-IsOnce (omega (arith, about-calling callers h)) path in
    elim (Bool-cases s.running) [
      | inl e ↦ let none : exited s.running ≡ 0 = rw e in inl (e, omega arith, omega arith)
      | inr e ↦ let one : exited s.running ≡ 1 = rw e in inr (e, once ∙ one)
    ]

-- A supervised function that is to be restarted is run again whatever ends its run, and never
-- returns; one that is not runs once.
pub supervised-lem :
    (restart : Bool) (r : RunEnd) (runs : List RunEnd)
    → supervised restart (r ∷ runs) ≡ (if restart then (false, suc (length runs)) else (true, 1))
unfolding supervised
supervised-lem false ended runs = refl
supervised-lem false threw runs = refl
supervised-lem true ended [] = ground arith
supervised-lem true threw [] = ground arith
supervised-lem true ended (r ∷ runs) = rw (supervised-lem true r runs) (ground arith)
supervised-lem true threw (r ∷ runs) = rw (supervised-lem true r runs) (ground arith)
