-- ===== src/Scte35/RoundTrip/Loops.antt =====
-- Optional parts and counted loops, for any pair of an emitter and a parser.
use metamix.Base.{
  ℕ, List, [], ◌∷◌, ◌++◌, Bool, true, false, Option, some, none, ◌≡◌, refl, append_assoc, length,
  All,
}
use metamix.Binary.Outcome.{ok, Reader}
use metamix.Scte35.Types.{has_value}
use metamix.Scte35.Emitter.{emit_opt, emit_all}
use metamix.Scte35.Parser.{when, repeat}
use metamix.Scte35.RoundTrip.Ranges.{AllOpt}

module _ {A : Type 0} (P : A → Type 0) (emit : A → List ℕ) (parse : Reader A)
    (reads : (a : A) (s : List ℕ) → P a → parse (emit a ++ s) ≡ ok (a, s)) where
  pub when-emit_opt :
      (b : Bool) (o : Option A) (s : List ℕ)
      → has_value o ≡ b
      → AllOpt P o
      → when b parse (emit_opt emit o ++ s) ≡ ok (o, s)
  unfolding has_value
  when-emit_opt true none s e h = cc
  when-emit_opt true (some a) s e h = rw (reads a s h)
  when-emit_opt false none s e h = refl
  when-emit_opt false (some a) s e h = cc

  pub repeat-emit_all :
      (xs : List A) (s : List ℕ)
      → All P xs
      → repeat (length xs) parse (emit_all emit xs ++ s) ≡ ok (xs, s)
  unfolding repeat
  repeat-emit_all [] s h = refl
  repeat-emit_all (x ∷ xs) s (hx, hxs) =
      rw (append_assoc (emit x) (emit_all emit xs) s)
        (rw (reads x (emit_all emit xs ++ s) hx) (rw (repeat-emit_all xs s hxs)))
