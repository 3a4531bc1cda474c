-- ===== src/App.antt =====
-- src/application_context.cpp and src/supervisor.h: the exit of the program, and the loop that runs a
-- thread's function again.
pub mod Exit
mod Tests
use metamix.Base.{ℕ, ◌+◌, List, [], ◌∷◌, ◌++◌, Bool, true, false, if◌then◌else◌}

-- A thread that calls ApplicationContext::exit: before the exchange, between the exchange that gave
-- it true and on_exit, and behind both.
pub data Caller : Type 0 where
  calling signalling returned : Caller

-- m_running, how often on_exit was emitted, and the callers.
pub record ExitState : Type 0 where
  pub running : Bool
  pub signals : ℕ
  pub callers : List Caller

-- Where a caller is behind `m_running.exchange(false)` that gave `was_running`.
abbrev pub after_exchange : Bool → Caller
after_exchange true = signalling
after_exchange false = returned

-- The atomic steps of the callers, in any order.
pub data ExitStep : ExitState → ExitState → Type 0 where
  exchange :
      (running : Bool) (signals : ℕ) (before behind : List Caller)
      → ExitStep
          (record { running = running; signals = signals; callers = before ++ (calling ∷ behind) })
          (record {
            running = false;
            signals = signals;
            callers = before ++ (after_exchange running ∷ behind);
          })
  emit :
      (running : Bool) (signals : ℕ) (before behind : List Caller)
      → ExitStep
          (record {
            running = running;
            signals = signals;
            callers = before ++ (signalling ∷ behind);
          })
          (record {
            running = running;
            signals = signals + 1;
            callers = before ++ (returned ∷ behind);
          })

pub data ExitPath (s : ExitState) : ExitState → Type 0 where
  here : ExitPath s s
  next : {t u : ExitState} → ExitPath s t → ExitStep t u → ExitPath s u

-- How a run of a supervised function ends: it returns, or it throws, whatever it throws.
pub data RunEnd : Type 0 where
  ended threw : RunEnd

-- supervised(f, restart), on the ends of its runs: whether it returns, and how often it has run f.
unfoldable pub supervised : Bool → List RunEnd → Bool × ℕ
supervised restart [] = (false, 0)
supervised restart (ended ∷ runs) =
    let (stopped, count) = supervised restart runs in
    if restart then (stopped, count + 1) else (true, 1)
supervised restart (threw ∷ runs) =
    let (stopped, count) = supervised restart runs in
    if restart then (stopped, count + 1) else (true, 1)
