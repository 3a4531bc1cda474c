-- ===== src/Options/Tests.antt =====
-- The options of two inputs, whose parameters come in a mixed order.
use metamix.Base.{
  ℕ, zero, suc, ◌<◌, List, [], ◌∷◌, ◌≡◌, ◌↔◌, refl, Bool, true, false, none, some, arith, All,
  length,
}
use metamix.Base.Int.{pos}
use metamix.Binary.Outcome.{ok}
use metamix.InputManager.{InputSpec, same_string}
use metamix.InputManager.Current.{IsValid}
use metamix.Options.{
  ProgramOptions, ParsedOption, source_word, sink_word, add_options, add_input_option,
  set_input_param, set_param, get_input_spec_or_create, contains_name, number_inputs, validate,
  start,
}
use metamix.Options.Parse.{labels, IsNumbered, add_options-IsNumbered}
use metamix.Options.Validate.{IsComplete, validate-lem}
use metamix.Options.Start.{started_map, IsStarted, IsFound, start-IsValid}

-- Keys that stand for their parts: the first number of a key is the input's name, the second one
-- tells a source from a sink.
abbrev split : List ℕ → List (List ℕ)
split (name ∷ zero ∷ []) = [] ∷ (name ∷ []) ∷ source_word ∷ []
split (name ∷ suc _ ∷ []) = [] ∷ (name ∷ []) ∷ sink_word ∷ []
split key = key ∷ []

abbrev starts_with : List ℕ → List ℕ → Bool
starts_with (name ∷ param ∷ []) prefix = true
starts_with key prefix = false

abbrev option : ℕ → ℕ → ParsedOption
option name param = record { string_key = name ∷ param ∷ []; value = (b'u' ∷ []) ∷ [] }

abbrev options : List ParsedOption
options = option b'a' 0 ∷ option b'b' 1 ∷ option b'b' 0 ∷ option b'a' 1 ∷ []

abbrev spec : ℕ → ℕ → InputSpec
spec id name = record {
  id = id;
  name = name ∷ [];
  source = b'u' ∷ [];
  sink = b'u' ∷ [];
  source_format = none;
  sink_format = none;
  is_virtual = false;
}

abbrev specs : List InputSpec
specs = spec 0 b'a' ∷ spec 1 b'b' ∷ []

added : add_options starts_with split options [] ≡ ok specs
unfolding add_options add_input_option set_input_param set_param get_input_spec_or_create
    contains_name same_string
added = refl

add_options-IsNumbered_example : IsNumbered 0 (labels specs)
add_options-IsNumbered_example = add_options-IsNumbered starts_with split options specs added

abbrev program_options : ProgramOptions
program_options = record {
  user_inputs = specs;
  output = record {
    source = b'o' ∷ [];
    sink = b'o' ∷ [];
    source_format = none;
    sink_format = none;
    ts_adjustment = pos 0;
  };
  start_input_name = some (b'b' ∷ []);
}

validate-lem_example : (validate program_options ≡ ok tt) ↔ (
    (0 < length specs)
    × All IsComplete specs
    × (0 < length program_options.output.source)
    × (0 < length program_options.output.sink))
validate-lem_example = validate-lem program_options

start-IsValid_example :
    IsStarted program_options.start_input_name
      (record { current_inputs_ids = record { sei = 0; scte = 0 }; inputs = started_map specs })
      (start program_options)
    × IsValid (start program_options).1
    × ((start program_options).1.inputs ≡ started_map specs)
    × All (IsFound (start program_options).1.inputs) (number_inputs 1 specs)
unfolding same_string
start-IsValid_example =
    start-IsValid program_options 0
      (
        (omega arith, refl, omega arith, omega arith),
        ((omega arith, refl, omega arith, omega arith), tt),
      )
      (refl, (refl, tt), (refl, tt, tt))
