-- ===== src/Options/Start.antt =====
-- The input manager that main starts with.
use metamix.Base.{
  ℕ, suc, ◌<◌, List, [], ◌∷◌, ◌++◌, ◌≡◌, refl, ◌∙◌, true, false, arith, ap, All, Option, none, some,
  append_assoc, append-nil, ◌⊎◌, inl, inr, Option-cases, sym, ==_self,
}
use metamix.InputManager.{
  InputSpec, AbstractInput, InputMap, InputManager, same_string, assign, assign_all, create,
  get_input_by_id, get_input_by_name, has_value, Resolved, resolved, unknown, resolve, set_resolved,
  set_current_inputs, set_current_inputs_by_name, Effect, invalid_argument,
}
use metamix.InputManager.Current.{IsValid, by_name-IsValid, by_name-IsNamedChange}
use metamix.InputManager.Lookup.{IsMap, create-lem}
use metamix.Inputs.{new_clear_input, new_user_defined_input}
use metamix.Options.{
  ProgramOptions, clear_name, number_inputs, user_defined_inputs, make_inputs, started_with, start,
}
use metamix.Options.Parse.{labels, IsNumbered}
use metamix.Options.Validate.{IsComplete}

pub same_string_self : (a : List ℕ) → same_string a a ≡ true
unfolding same_string
same_string_self [] = refl
same_string_self (x ∷ a) = rw (==_self x, same_string_self a)

pub same_string_comm : (a b : List ℕ) → same_string a b ≡ same_string b a
unfolding same_string
same_string_comm [] [] = refl
same_string_comm [] (y ∷ b) = refl
same_string_comm (x ∷ a) [] = refl
same_string_comm (x ∷ a) (y ∷ b) = ground (arith, same_string_comm a b)

-- The inputs with their own ids.
abbrev pub pairs : List AbstractInput → InputMap
pairs [] = []
pairs (input ∷ inputs) = (input.spec.id, input) ∷ pairs inputs

assign-end :
    (id : ℕ) (input : AbstractInput) (m : InputMap)
    → All (λ (key, _). key < id) m
    → assign id input m ≡ m ++ ((id, input) ∷ [])
unfolding assign
assign-end id input [] h = refl
assign-end id input ((key, value) ∷ m) (lt, h) = ground (arith, assign-end id input m h)

All-next :
    (id : ℕ) (input : AbstractInput) (m : InputMap)
    → All (λ (key, _). key < id) m
    → All (λ (key, _). key < suc id) (m ++ ((id, input) ∷ []))
All-next id input [] h = (omega arith, tt)
All-next id input (x ∷ m) (lt, h) = (omega arith, All-next id input m h)

assign_all-numbered :
    (id : ℕ) (specs : List InputSpec) (m : InputMap)
    → All (λ (key, _). key < id) m
    → assign_all (user_defined_inputs (number_inputs id specs)) m
      ≡ m ++ pairs (user_defined_inputs (number_inputs id specs))
unfolding assign_all user_defined_inputs number_inputs new_user_defined_input
assign_all-numbered id [] m h = sym (append-nil m)
assign_all-numbered id (is ∷ specs) m h =
    let input : AbstractInput = new_user_defined_input (record is { id = id }) in
    let later : InputMap = pairs (user_defined_inputs (number_inputs (suc id) specs)) in
    rw (assign-end id input m h, assign_all)
      (assign_all-numbered (suc id) specs (m ++ ((id, input) ∷ [])) (All-next id input m h)
        ∙ append_assoc m ((id, input) ∷ []) later)

-- The map of the manager: the clear input at 0 and the user inputs behind it, in order.
abbrev pub started_map : List InputSpec → InputMap
started_map specs = (0, new_clear_input 0) ∷ pairs (user_defined_inputs (number_inputs 1 specs))

create-inputs : (specs : List InputSpec) → (create (make_inputs specs)).inputs ≡ started_map specs
unfolding create make_inputs assign_all assign new_clear_input
create-inputs specs = assign_all-numbered 1 specs ((0, new_clear_input 0) ∷ []) (omega arith, tt)

-- The manager with the clear input as the current one of both kinds.
abbrev pub started_manager : InputMap → InputManager
started_manager m = record { current_inputs_ids = record { sei = 0; scte = 0 }; inputs = m }

created :
    (specs : List InputSpec) → create (make_inputs specs) ≡ started_manager (started_map specs)
unfolding create
created specs = ap started_manager (create-inputs specs)

set_resolved-inputs :
    (sei scte : Resolved) (m : InputManager) → (set_resolved sei scte m).1.inputs ≡ m.inputs
unfolding set_resolved set_current_inputs
set_resolved-inputs (unknown name) scte m = refl
set_resolved-inputs (resolved sei) (unknown name) m = refl
set_resolved-inputs (resolved sei) (resolved scte) m = ground arith

started_with-inputs :
    (name : Option (List ℕ)) (m : InputManager) → (started_with name m).1.inputs ≡ m.inputs
unfolding set_current_inputs_by_name
started_with-inputs none m = refl
started_with-inputs (some name) m =
    set_resolved-inputs (resolve (some name) m.inputs) (resolve (some name) m.inputs) m

start-inputs : (o : ProgramOptions) → (start o).1.inputs ≡ started_map o.user_inputs
unfolding start
start-inputs o =
    started_with-inputs o.start_input_name (create (make_inputs o.user_inputs))
    ∙ create-inputs o.user_inputs

started_with-IsValid :
    (name : Option (List ℕ)) (m : InputManager) → IsValid m → IsValid (started_with name m).1
started_with-IsValid none m h = h
started_with-IsValid (some name) m h =
    by_name-IsValid (record { sei = some name; scte = some name }) m h

create-IsValid : (specs : List InputSpec) → IsValid (create (make_inputs specs))
unfolding get_input_by_id create
create-IsValid specs =
    let first : has_value (get_input_by_id 0 (create (make_inputs specs)).inputs) ≡ true =
      rw (create-inputs specs) in
    (first, first)

All-both :
    {A : Type 0} (P Q R : A → Type 0) (xs : List A)
    → ((x : A) → P x → Q x → R x)
    → All P xs
    → All Q xs
    → All R xs
All-both P Q R [] f h k = tt
All-both P Q R (x ∷ xs) f (hx, h) (kx, k) = (f x hx kx, All-both P Q R xs f h k)

-- The input that an extractor asks for by its name.
abbrev pub IsFound : InputMap → InputSpec → Type 0
IsFound m is = get_input_by_name is.name m ≡ some (new_user_defined_input is)

other_names :
    (name : List ℕ) (id : ℕ) (specs : List InputSpec)
    → All (λ (n, other). same_string name other ≡ false) (labels specs)
    → All (λ is. same_string name is.name ≡ false) (number_inputs id specs)
unfolding number_inputs
other_names name id [] h = tt
other_names name id (is ∷ specs) (hx, h) = (hx, other_names name (suc id) specs h)

skipped :
    (key : ℕ) (input : AbstractInput) (m : InputMap) (is : InputSpec)
    → same_string input.spec.name is.name ≡ false
    → IsFound m is
    → IsFound ((key, input) ∷ m) is
unfolding get_input_by_name
skipped key input m is h found = rw h found

numbered-IsFound :
    (id first : ℕ) (specs : List InputSpec)
    → IsNumbered first (labels specs)
    → All (IsFound (pairs (user_defined_inputs (number_inputs id specs)))) (number_inputs id specs)
unfolding number_inputs user_defined_inputs new_user_defined_input get_input_by_name
numbered-IsFound id first [] h = tt
numbered-IsFound id first (is ∷ specs) (e, new, h) = (
  rw (same_string_self is.name),
  All-both (λ other. same_string is.name other.name ≡ false) _ _ _
      (skipped id (new_user_defined_input (record is { id = id })) _)
      (other_names is.name (suc id) specs new) (numbered-IsFound (suc id) (suc first) specs h),
)

complete_names :
    (id : ℕ) (specs : List InputSpec)
    → All IsComplete specs
    → All (λ is. same_string clear_name is.name ≡ false) (number_inputs id specs)
unfolding number_inputs
complete_names id [] h = tt
complete_names id (is ∷ specs) (hx, h) =
    (same_string_comm clear_name is.name ∙ hx.1, complete_names (suc id) specs h)

started_map-IsFound :
    (first : ℕ) (specs : List InputSpec)
    → All IsComplete specs
    → IsNumbered first (labels specs)
    → All (IsFound (started_map specs)) (number_inputs 1 specs)
unfolding new_clear_input
started_map-IsFound first specs complete h =
    All-both (λ is. same_string clear_name is.name ≡ false) _ _ _ (skipped 0 (new_clear_input 0) _)
      (complete_names 1 specs complete) (numbered-IsFound 1 first specs h)

pub start-current : (o : ProgramOptions) → IsValid (start o).1
unfolding start
start-current o =
    started_with-IsValid o.start_input_name (create (make_inputs o.user_inputs))
      (create-IsValid o.user_inputs)

-- How main starts from the manager that it has built: without a starting input, as built; with one
-- that is found, this is current for both kinds; and with an unknown one, std::invalid_argument ends
-- main.
abbrev pub IsStarted : Option (List ℕ) → InputManager → Effect → Type 0
IsStarted none m r = r ≡ (none, m)
IsStarted (some name) m r =
    ((get_input_by_name name m.inputs ≡ none) × (r ≡ (some (invalid_argument name), m)))
    ⊎ ((input : AbstractInput) × (get_input_by_name name m.inputs ≡ some input)
        × (r ≡ (
          none,
          record {
            current_inputs_ids = record { sei = input.spec.id; scte = input.spec.id };
            inputs = m.inputs;
          },
        )))

started_with-IsStarted :
    (name : Option (List ℕ)) (m : InputManager)
    → IsMap m.inputs
    → IsStarted name m (started_with name m)
unfolding resolve
started_with-IsStarted none m h = refl
started_with-IsStarted (some name) m h =
    let change = by_name-IsNamedChange (record { sei = some name; scte = some name }) m h in
    elim (Option-cases (get_input_by_name name m.inputs)) [
      | inl e ↦ inl (e, rw e at change)
      | inr (input, e) ↦ inr (input, e, rw e at change)
    ]

-- For options that validation accepts, with inputs of different names that the option parser has
-- numbered: main starts without a starting input with the clear input current for both kinds, with a
-- known starting input with this one, and ends with invalid_argument for an unknown one. In each case
-- the current inputs exist; the map has the clear input at id 0 and the user inputs from id 1 on, in
-- order; and by its name each user input leads to itself, of the class that the extractor casts it to.
pub start-IsValid :
    (o : ProgramOptions) (first : ℕ)
    → All IsComplete o.user_inputs
    → IsNumbered first (labels o.user_inputs)
    → IsStarted o.start_input_name (started_manager (started_map o.user_inputs)) (start o)
      × IsValid (start o).1
      × ((start o).1.inputs ≡ started_map o.user_inputs)
      × All (IsFound (start o).1.inputs) (number_inputs 1 o.user_inputs)
unfolding start
start-IsValid o first complete h =
    let built : InputManager = create (make_inputs o.user_inputs) in
    let map : IsMap built.inputs = (create-lem (make_inputs o.user_inputs)).0 in
    (
      rw (← created o.user_inputs) (started_with-IsStarted o.start_input_name built map),
      start-current o,
      start-inputs o,
      rw (start-inputs o) (started_map-IsFound first o.user_inputs complete h),
    )
