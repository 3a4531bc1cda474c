-- ===== src/Options.antt =====
-- src/program_options.cpp, src/program_options.h, src/iospec.h and the start of src/main.cpp: the
-- options given for inputs, their validation, and the input manager built from them. Boost reads the
-- command line and the file, and splits a key: its options and its string functions are parameters.
-- Options of no effect on inputs and output (logging, the REST address) are left out.
pub mod Parse
pub mod Validate
pub mod Start
mod Tests
use metamix.Base.{ℕ, zero, suc, ◌+◌, List, [], ◌∷◌, ◌++◌, Bool, true, false, ◌||◌, not}
use metamix.Base.{Option, none, some, if◌then◌else◌, length}
use metamix.Base.Int.{ℤ}
use metamix.Binary.Outcome.{Outcome, ok, runtime_error, fault, bind}
use metamix.InputManager.{
  InputSpec, AbstractInput, InputManager, Effect, create, same_string, set_current_inputs_by_name,
}
use metamix.Inputs.{new_clear_input, new_user_defined_input}

pub record OutputSpec : Type 0 where
  pub source : List ℕ
  pub sink : List ℕ
  pub source_format : Option (List ℕ)
  pub sink_format : Option (List ℕ)
  pub ts_adjustment : ℤ

pub record ProgramOptions : Type 0 where
  pub user_inputs : List InputSpec
  pub output : OutputSpec
  pub start_input_name : Option (List ℕ)

-- An unregistered po::option: its key and its values.
pub record ParsedOption : Type 0 where
  pub string_key : List ℕ
  pub value : List (List ℕ)

-- "input."
abbrev pub input_prefix : List ℕ
input_prefix = b'i' ∷ b'n' ∷ b'p' ∷ b'u' ∷ b't' ∷ b'.' ∷ []

abbrev pub source_word : List ℕ
source_word = b's' ∷ b'o' ∷ b'u' ∷ b'r' ∷ b'c' ∷ b'e' ∷ []

abbrev pub sink_word : List ℕ
sink_word = b's' ∷ b'i' ∷ b'n' ∷ b'k' ∷ []

abbrev pub format_word : List ℕ
format_word = b'f' ∷ b'o' ∷ b'r' ∷ b'm' ∷ b'a' ∷ b't' ∷ []

unfoldable pub contains_name : List ℕ → List InputSpec → Bool
contains_name input_name [] = false
contains_name input_name (is ∷ specs) =
    same_string is.name input_name || contains_name input_name specs

abbrev pub new_spec : ℕ → List ℕ → InputSpec
new_spec id name = record {
  id = id;
  name = name;
  source = [];
  sink = [];
  source_format = none;
  sink_format = none;
  is_virtual = false;
}

-- get_input_spec_or_create: the specifications, among which is then one of the name. The one that
-- the function returns is the first of them (see set_input_param).
unfoldable pub get_input_spec_or_create : List ℕ → List InputSpec → List InputSpec
get_input_spec_or_create input_name specs =
    if contains_name input_name specs
    then specs
    else specs ++ (new_spec (length specs) input_name ∷ [])

-- What a parameter sets, or none for a parameter that is unknown.
unfoldable pub set_param : List ℕ → List ℕ → InputSpec → Option InputSpec
set_param param value input =
    if same_string param source_word
    then some (record input { source = value })
    else if same_string param sink_word
    then some (record input { sink = value })
    else if same_string param (source_word ++ format_word)
    then some (record input { source_format = some value })
    else if same_string param (sink_word ++ format_word)
    then some (record input { sink_format = some value })
    else none

abbrev pub param_set : List InputSpec → Option InputSpec → Outcome (List InputSpec)
param_set specs none = runtime_error
param_set specs (some input) = ok (input ∷ specs)

-- The assignment to the first specification of the name.
unfoldable pub set_input_param :
    List ℕ → List ℕ → List ℕ → List InputSpec → Outcome (List InputSpec)
set_input_param input_name param value [] = fault
set_input_param input_name param value (is ∷ specs) =
    let rest = set_input_param input_name param value specs in
    if same_string is.name input_name
    then param_set specs (set_param param value is)
    else bind rest (λ specs'. ok (is ∷ specs'))

-- The branch for a key that starts with "input.", on the parts of the key.
unfoldable pub add_input_option :
    List (List ℕ) → List (List ℕ) → List InputSpec → Outcome (List InputSpec)
add_input_option (_ ∷ input_name ∷ param ∷ []) (value ∷ []) specs =
    set_input_param input_name param value (get_input_spec_or_create input_name specs)
add_input_option _ _ specs = runtime_error

module _ (starts_with : List ℕ → List ℕ → Bool) (split : List ℕ → List (List ℕ)) where
  -- for (const auto &opt : unrecognized), on o->user_inputs
  unfoldable pub add_options : List ParsedOption → List InputSpec → Outcome (List InputSpec)
  add_options [] specs = ok specs
  add_options (opt ∷ opts) specs =
      if starts_with opt.string_key input_prefix
      then bind (add_input_option (split opt.string_key) opt.value specs) (add_options opts)
      else add_options opts specs

-- std::string::empty
abbrev pub is_empty_string : List ℕ → Bool
is_empty_string [] = true
is_empty_string (c ∷ cs) = false

-- ClearInput::NAME
abbrev pub clear_name : List ℕ
clear_name = b'c' ∷ b'l' ∷ b'e' ∷ b'a' ∷ b'r' ∷ []

-- Whether the loop over the inputs sets `terminate` for one of them.
unfoldable pub terminates : InputSpec → Bool
terminates is =
    if is_empty_string is.name
    then true
    else same_string is.name clear_name || is_empty_string is.source || is_empty_string is.sink

unfoldable pub any_terminates : List InputSpec → Bool
any_terminates [] = false
any_terminates (is ∷ specs) = terminates is || any_terminates specs

abbrev pub no_inputs : List InputSpec → Bool
no_inputs [] = true
no_inputs (is ∷ specs) = false

-- ProgramOptions::validate
unfoldable pub validate : ProgramOptions → Outcome (Unit {0})
validate o =
    if no_inputs o.user_inputs
      || any_terminates o.user_inputs
      || is_empty_string o.output.source
      || is_empty_string o.output.sink
    then runtime_error
    else ok tt

-- The loop of main over the user inputs: `is.id = inputs.size()`.
unfoldable pub number_inputs : ℕ → List InputSpec → List InputSpec
number_inputs size [] = []
number_inputs size (is ∷ specs) = record is { id = size } ∷ number_inputs (suc size) specs

unfoldable pub user_defined_inputs : List InputSpec → List AbstractInput
user_defined_inputs [] = []
user_defined_inputs (is ∷ specs) = new_user_defined_input is ∷ user_defined_inputs specs

unfoldable pub make_inputs : List InputSpec → List AbstractInput
make_inputs specs = new_clear_input 0 ∷ user_defined_inputs (number_inputs 1 specs)

-- The input manager of main, and the exception of an unknown starting input.
abbrev pub started_with : Option (List ℕ) → InputManager → Effect
started_with none m = (none, m)
started_with (some name) m =
    set_current_inputs_by_name (record { sei = some name; scte = some name }) m

unfoldable pub start : ProgramOptions → Effect
start o = started_with o.start_input_name (create (make_inputs o.user_inputs))
