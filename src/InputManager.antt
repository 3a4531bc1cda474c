-- ===== src/InputManager.antt =====
-- src/input_manager.h: the inputs by their ids, and the current input of each kind of metadata. What
-- abstract_input.h and iospec.h say of an input is its specification and its capabilities. Logging is
-- not modelled.
pub mod Lookup
pub mod Current
mod Tests
use metamix.Base.{ℕ, List, [], ◌∷◌, Bool, true, false, ◌&&◌, Option, none, some}
use metamix.Base.{if◌then◌else◌, ltb, ◌==◌}
use metamix.Binary.Outcome.{Outcome, ok, fault}

-- InputSpec: the name's characters stand for the string.
pub record InputSpec : Type 0 where
  pub id : ℕ
  pub name : List ℕ
  pub source : List ℕ
  pub sink : List ℕ
  pub source_format : Option (List ℕ)
  pub sink_format : Option (List ℕ)
  pub is_virtual : Bool

pub record InputCapabilities : Type 0 where
  pub sei : Bool
  pub scte : Bool

-- The classes that derive from AbstractInput.
pub data InputClass : Type 0 where
  user_defined_input clear_input : InputClass

pub record AbstractInput : Type 0 where
  pub input_class : InputClass
  pub spec : InputSpec
  pub caps : InputCapabilities

-- Inputs<T> and InputsChangeset<T>
pub record Inputs (T : Type 0) : Type 0 where
  pub sei : T
  pub scte : T

-- std::map<InputId, std::unique_ptr<AbstractInput>>: its pairs, in the order of the ids.
abbrev pub InputMap : Type 0
InputMap = List (ℕ × AbstractInput)

pub record InputManager : Type 0 where
  pub current_inputs_ids : Inputs ℕ
  pub inputs : InputMap

-- m_inputs[id] = ptr
unfoldable pub assign : ℕ → AbstractInput → InputMap → InputMap
assign id input [] = (id, input) ∷ []
assign id input ((key, value) ∷ rest) =
    let assigned = assign id input rest in
    if ltb id key
    then (id, input) ∷ (key, value) ∷ rest
    else if id == key
    then (id, input) ∷ rest
    else (key, value) ∷ assigned

unfoldable pub assign_all : List AbstractInput → InputMap → InputMap
assign_all [] m = m
assign_all (input ∷ inputs) m = assign_all inputs (assign input.spec.id input m)

-- The constructor
unfoldable pub create : List AbstractInput → InputManager
create inputs = record {
  current_inputs_ids = record { sei = 0; scte = 0 };
  inputs = assign_all inputs [];
}

unfoldable pub get_input_by_id : ℕ → InputMap → Option AbstractInput
get_input_by_id input_id [] = none
get_input_by_id input_id ((key, value) ∷ rest) =
    let found = get_input_by_id input_id rest in if key == input_id then some value else found

abbrev pub has_value : Option AbstractInput → Bool
has_value none = false
has_value (some _) = true

abbrev pub is_input_id_valid : ℕ → InputMap → Bool
is_input_id_valid input_id m = has_value (get_input_by_id input_id m)

-- operator== of std::string
unfoldable pub same_string : List ℕ → List ℕ → Bool
same_string [] [] = true
same_string (a ∷ xs) (b ∷ ys) = (a == b) && same_string xs ys
same_string [] (b ∷ ys) = false
same_string (a ∷ xs) [] = false

unfoldable pub get_input_by_name : List ℕ → InputMap → Option AbstractInput
get_input_by_name name [] = none
get_input_by_name name ((key, value) ∷ rest) =
    let found = get_input_by_name name rest in
    if same_string value.spec.name name then some value else found

pub data SetError : Type 0 where
  out_of_range : SetError
  invalid_argument : List ℕ → SetError

-- A call's exception, if it throws one, and the manager it leaves.
abbrev pub Effect : Type 0
Effect = Option SetError × InputManager

-- The test of one kind's id.
unfoldable pub is_accepted : Option ℕ → InputMap → Bool
is_accepted none m = true
is_accepted (some input_id) m = is_input_id_valid input_id m

-- m_current_inputs_ids.exchange(input_id), if there is one
abbrev pub exchanged : Option ℕ → ℕ → ℕ
exchanged none prev_id = prev_id
exchanged (some input_id) prev_id = input_id

-- set_current_inputs(InputsChangeset<InputId>): the first pass over the kinds only tests, the second
-- one only sets.
unfoldable pub set_current_inputs : Inputs (Option ℕ) → InputManager → Effect
set_current_inputs changeset m =
    if is_accepted changeset.sei m.inputs
    then (if is_accepted changeset.scte m.inputs
        then (
          none,
          record {
            current_inputs_ids = record {
              sei = exchanged changeset.sei m.current_inputs_ids.sei;
              scte = exchanged changeset.scte m.current_inputs_ids.scte;
            };
            inputs = m.inputs;
          },
        )
        else (some out_of_range, m))
    else (some out_of_range, m)

-- One kind's id for its name.
pub data Resolved : Type 0 where
  resolved : Option ℕ → Resolved
  unknown : List ℕ → Resolved

abbrev pub found_id : List ℕ → Option AbstractInput → Resolved
found_id name none = unknown name
found_id name (some input) = resolved (some input.spec.id)

unfoldable pub resolve : Option (List ℕ) → InputMap → Resolved
resolve none m = resolved none
resolve (some name) m = found_id name (get_input_by_name name m)

-- The end of set_current_inputs(InputsChangeset<std::string>), or the exception for the first name
-- that is of no input.
unfoldable pub set_resolved : Resolved → Resolved → InputManager → Effect
set_resolved (unknown name) _ m = (some (invalid_argument name), m)
set_resolved (resolved sei) (unknown name) m = (some (invalid_argument name), m)
set_resolved (resolved sei) (resolved scte) m =
    set_current_inputs (record { sei = sei; scte = scte }) m

-- set_current_inputs(InputsChangeset<std::string>)
unfoldable pub set_current_inputs_by_name : Inputs (Option (List ℕ)) → InputManager → Effect
set_current_inputs_by_name changeset m =
    set_resolved (resolve changeset.sei m.inputs) (resolve changeset.scte m.inputs) m

-- What m_inputs[id] points to: for an id of no input it is a null pointer.
abbrev pub dereferenced : Option AbstractInput → Outcome AbstractInput
dereferenced none = fault
dereferenced (some input) = ok input

-- get_current_input<SeiKind>
unfoldable pub get_current_sei_input : InputManager → Outcome AbstractInput
get_current_sei_input m = dereferenced (get_input_by_id m.current_inputs_ids.sei m.inputs)
