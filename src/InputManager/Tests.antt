-- ===== src/InputManager/Tests.antt =====
-- The input manager at concrete inputs.
use metamix.Base.{ℕ, List, [], ◌∷◌, true, false, ◌≡◌, ◌⊎◌, refl, Option, some, none}
use metamix.InputManager.{
  user_defined_input, AbstractInput, Inputs, InputManager, out_of_range, create, get_input_by_id,
  set_current_inputs, assign_all, assign,
}
use metamix.InputManager.Current.{IsValid, IsInput, IsNoInput, IsExchanged, set_current_inputs-lem}

abbrev named : ℕ → ℕ → AbstractInput
named id letter = record {
  input_class = user_defined_input;
  spec = record {
    id = id;
    name = letter ∷ [];
    source = [];
    sink = [];
    source_format = none;
    sink_format = none;
    is_virtual = false;
  };
  caps = record { sei = true; scte = false };
}

abbrev given : List AbstractInput
given = named 2 0x62 ∷ named 0 0x61 ∷ []

abbrev manager : InputManager
manager = record {
  current_inputs_ids = record { sei = 0; scte = 0 };
  inputs = (0, named 0 0x61) ∷ (2, named 2 0x62) ∷ [];
}

manager-create : create given ≡ manager
unfolding create assign_all assign
manager-create = refl

manager-IsValid : IsValid manager
unfolding get_input_by_id
manager-IsValid = (refl, refl)

abbrev to_two : Inputs (Option ℕ)
to_two = record { sei = some 2; scte = none }

abbrev to_b : Inputs (Option (List ℕ))
to_b = record { sei = some (0x62 ∷ []); scte = some (0x63 ∷ []) }

set_current_inputs-lem_example :
    (IsInput to_two.sei manager.inputs
      × IsInput to_two.scte manager.inputs
      × ((set_current_inputs to_two manager).0 ≡ none)
      × IsExchanged to_two.sei 0 (set_current_inputs to_two manager).1.current_inputs_ids.sei
      × IsExchanged to_two.scte 0 (set_current_inputs to_two manager).1.current_inputs_ids.scte
      × ((set_current_inputs to_two manager).1.inputs ≡ manager.inputs))
    ⊎ ((IsNoInput to_two.sei manager.inputs ⊎ IsNoInput to_two.scte manager.inputs)
        × ((set_current_inputs to_two manager).0 ≡ some out_of_range)
        × ((set_current_inputs to_two manager).1 ≡ manager))
set_current_inputs-lem_example = set_current_inputs-lem to_two manager
