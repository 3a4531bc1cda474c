-- ===== src/App/Tests.antt =====
-- Two threads call exit at once: the second makes its exchange before the first emits.
use metamix.Base.{◌+◌, ◌⊎◌, [], ◌∷◌, ◌≡◌, refl, true, false}
use metamix.App.{calling, signalling, returned, ExitState, exchange, emit, ExitPath, here, next}
use metamix.App.Exit.{about, exit-signals}

abbrev last : ExitState
last = record { running = false; signals = 1; callers = returned ∷ returned ∷ [] }

both : ExitPath (record { running = true; signals = 0; callers = calling ∷ calling ∷ [] }) last
both =
    next
      (next (next here (exchange true 0 [] (calling ∷ []))) (exchange false 0 (signalling ∷ []) []))
      (emit false 0 [] (returned ∷ []))

exit-signals_example :
    ((last.running ≡ true) × (last.signals ≡ 0) × (about last.callers ≡ 0))
    ⊎ ((last.running ≡ false) × (last.signals + about last.callers ≡ 1))
exit-signals_example = exit-signals (calling ∷ calling ∷ []) (refl, (refl, tt)) both
