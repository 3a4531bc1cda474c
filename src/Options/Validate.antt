-- ===== src/Options/Validate.antt =====
-- What ProgramOptions::validate accepts.
use metamix.Base.{ℕ, ◌<◌, List, [], ◌∷◌, ◌≡◌, ◌↔◌, refl, false, arith, All, length}
use metamix.Binary.Outcome.{ok}
use metamix.InputManager.{InputSpec, same_string}
use metamix.Options.{
  ProgramOptions, is_empty_string, clear_name, terminates, any_terminates, no_inputs, validate,
}

-- An input with a name that is not the reserved one, a source and a sink.
abbrev pub IsComplete : InputSpec → Type 0
IsComplete is =
    (0 < length is.name)
    × (same_string is.name clear_name ≡ false)
    × (0 < length is.source)
    × (0 < length is.sink)

is_empty_string_iff : (s : List ℕ) → (is_empty_string s ≡ false) ↔ (0 < length s)
is_empty_string_iff [] = (λ e. cc, λ h. absurd (omega arith))
is_empty_string_iff (c ∷ cs) = (λ e. omega arith, λ h. refl)

terminates_iff : (is : InputSpec) → (terminates is ≡ false) ↔ IsComplete is
unfolding terminates
terminates_iff is =
    let name = is_empty_string_iff is.name in
    let source = is_empty_string_iff is.source in
    let sink = is_empty_string_iff is.sink in
    (
      λ e. (name.0 (ground arith), ground arith, source.0 (ground arith), sink.0 (ground arith)),
      λ (h, r, u, k). rw (name.1 h, r, source.1 u, sink.1 k),
    )

any_terminates_iff :
    (specs : List InputSpec) → (any_terminates specs ≡ false) ↔ All IsComplete specs
unfolding any_terminates
any_terminates_iff [] = (λ e. tt, λ h. refl)
any_terminates_iff (is ∷ specs) =
    let first = terminates_iff is in
    let others = any_terminates_iff specs in
    (λ e. (first.0 (ground arith), others.0 (ground arith)), λ (h, hs). rw (first.1 h, others.1 hs))

no_inputs_iff : (specs : List InputSpec) → (no_inputs specs ≡ false) ↔ (0 < length specs)
no_inputs_iff [] = (λ e. cc, λ h. absurd (omega arith))
no_inputs_iff (is ∷ specs) = (λ e. omega arith, λ h. refl)

-- Validation throws nothing exactly if there is an input, each input has a name other than "clear",
-- a source and a sink, and the output has a source and a sink.
pub validate-lem :
    (o : ProgramOptions)
    → (validate o ≡ ok tt) ↔ (
        (0 < length o.user_inputs)
        × All IsComplete o.user_inputs
        × (0 < length o.output.source)
        × (0 < length o.output.sink))
unfolding validate
validate-lem o =
    let given = no_inputs_iff o.user_inputs in
    let inputs = any_terminates_iff o.user_inputs in
    let source = is_empty_string_iff o.output.source in
    let sink = is_empty_string_iff o.output.sink in
    (
      λ e. (
        given.0 (ground arith),
        inputs.0 (ground arith),
        source.0 (ground arith),
        sink.0 (ground arith),
      ),
      λ (g, i, u, k). rw (given.1 g, inputs.1 i, source.1 u, sink.1 k),
    )
