-- ===== src/InputManager/Current.antt =====
-- Changing the current inputs.
use metamix.Base.{
  ℕ, List, [], ◌∷◌, true, false, ◌≡◌, ◌⊎◌, inl, inr, refl, ap, Option, none, some, arith,
  Bool-cases, Option-cases,
}
use metamix.Base.{All, ◌<◌}
use metamix.InputManager.{
  has_value, found_id, AbstractInput, Inputs, InputMap, InputManager, out_of_range,
  invalid_argument, Effect, is_input_id_valid, get_input_by_id, get_input_by_name, same_string,
  is_accepted, exchanged, set_current_inputs, Resolved, resolved, unknown, resolve, set_resolved,
  set_current_inputs_by_name,
}
use metamix.InputManager.Lookup.{IsMap}

-- Both current inputs exist.
abbrev pub IsValid : InputManager → Type 0
IsValid m =
    (is_input_id_valid m.current_inputs_ids.sei m.inputs ≡ true)
    × (is_input_id_valid m.current_inputs_ids.scte m.inputs ≡ true)

-- The branches of set_current_inputs.
pub set_current_inputs-cases :
    (changeset : Inputs (Option ℕ)) (m : InputManager)
    → ((is_accepted changeset.sei m.inputs ≡ true)
        × (is_accepted changeset.scte m.inputs ≡ true)
        × (set_current_inputs changeset m ≡ (
          none,
          record {
            current_inputs_ids = record {
              sei = exchanged changeset.sei m.current_inputs_ids.sei;
              scte = exchanged changeset.scte m.current_inputs_ids.scte;
            };
            inputs = m.inputs;
          },
        )))
      ⊎ (((is_accepted changeset.sei m.inputs ≡ false)
            ⊎ (is_accepted changeset.scte m.inputs ≡ false))
          × (set_current_inputs changeset m ≡ (some out_of_range, m)))
unfolding set_current_inputs
set_current_inputs-cases changeset m = ground arith

-- An id that is to become current, if there is one, is the id of an input.
abbrev pub IsInput : Option ℕ → InputMap → Type 0
IsInput none m = Unit
IsInput (some id) m = (input : AbstractInput) × (get_input_by_id id m ≡ some input)

-- There is an id, and it is of no input.
abbrev pub IsNoInput : Option ℕ → InputMap → Type 0
IsNoInput none m = ⊥
IsNoInput (some id) m = get_input_by_id id m ≡ none

-- The current id behind a change: the new one if there is one, else the one before.
abbrev pub IsExchanged : Option ℕ → ℕ → ℕ → Type 0
IsExchanged none before after = after ≡ before
IsExchanged (some id) before after = after ≡ id

is_accepted-IsInput : (id : Option ℕ) (m : InputMap) → is_accepted id m ≡ true → IsInput id m
unfolding is_accepted
is_accepted-IsInput none m h = tt
is_accepted-IsInput (some id) m h = elim (Option-cases (get_input_by_id id m)) [
  | inl e ↦ cc (rw e at h)
  | inr found ↦ found
]

is_accepted-IsNoInput : (id : Option ℕ) (m : InputMap) → is_accepted id m ≡ false → IsNoInput id m
unfolding is_accepted
is_accepted-IsNoInput none m h = cc
is_accepted-IsNoInput (some id) m h = elim (Option-cases (get_input_by_id id m)) [
  | inl e ↦ e
  | inr (input, e) ↦ cc (rw e at h)
]

exchanged-IsExchanged : (id : Option ℕ) (before : ℕ) → IsExchanged id before (exchanged id before)
exchanged-IsExchanged none before = refl
exchanged-IsExchanged (some id) before = refl

-- A change of the current inputs by ids: either every id that is given is the id of an input; then
-- nothing is thrown, each given id is current for its kind, the other kind keeps its input, and the
-- map of inputs stays. Or one of the given ids is of no input; then out_of_range is thrown, and
-- nothing changes for any kind.
pub set_current_inputs-lem :
    (changeset : Inputs (Option ℕ)) (m : InputManager)
    → let (thrown, after) = set_current_inputs changeset m in
      (IsInput changeset.sei m.inputs
        × IsInput changeset.scte m.inputs
        × (thrown ≡ none)
        × IsExchanged changeset.sei m.current_inputs_ids.sei after.current_inputs_ids.sei
        × IsExchanged changeset.scte m.current_inputs_ids.scte after.current_inputs_ids.scte
        × (after.inputs ≡ m.inputs))
      ⊎ ((IsNoInput changeset.sei m.inputs ⊎ IsNoInput changeset.scte m.inputs)
          × (thrown ≡ some out_of_range)
          × (after ≡ m))
set_current_inputs-lem changeset m = elim (set_current_inputs-cases changeset m) [
  | inl (sei, scte, e) ↦ rw e (
      inl (
        is_accepted-IsInput changeset.sei m.inputs sei,
        is_accepted-IsInput changeset.scte m.inputs scte,
        refl,
        exchanged-IsExchanged changeset.sei m.current_inputs_ids.sei,
        exchanged-IsExchanged changeset.scte m.current_inputs_ids.scte,
        refl,
      ))
  | inr (inl sei, e) ↦
      rw e (inr (inl (is_accepted-IsNoInput changeset.sei m.inputs sei), refl, refl))
  | inr (inr scte, e) ↦
      rw e (inr (inr (is_accepted-IsNoInput changeset.scte m.inputs scte), refl, refl))
]

-- Changes by ids keep the current inputs valid, whether they throw or not.
pub set_current_inputs-IsValid :
    (changeset : Inputs (Option ℕ)) (m : InputManager)
    → IsValid m
    → IsValid (set_current_inputs changeset m).1
unfolding set_current_inputs is_accepted
set_current_inputs-IsValid changeset m h = ground arith

set_resolved-IsValid :
    (sei scte : Resolved) (m : InputManager) → IsValid m → IsValid (set_resolved sei scte m).1
unfolding set_resolved
set_resolved-IsValid (unknown name) scte m h = h
set_resolved-IsValid (resolved sei) (unknown name) m h = h
set_resolved-IsValid (resolved sei) (resolved scte) m h =
    set_current_inputs-IsValid (record { sei = sei; scte = scte }) m h

-- Changes by names keep the current inputs valid, whether they throw or not.
pub by_name-IsValid :
    (changeset : Inputs (Option (List ℕ))) (m : InputManager)
    → IsValid m
    → IsValid (set_current_inputs_by_name changeset m).1
unfolding set_current_inputs_by_name
by_name-IsValid changeset m h =
    set_resolved-IsValid (resolve changeset.sei m.inputs) (resolve changeset.scte m.inputs) m h

named_above :
    (k : ℕ) (name : List ℕ) (m : InputMap) (input : AbstractInput)
    → IsMap m
    → All (λ (later, _). k < later) m
    → get_input_by_name name m ≡ some input
    → k < input.spec.id
unfolding get_input_by_name
named_above k name [] input h above e = cc
named_above k name ((key, value) ∷ m) input (hk, _, h) above e =
    elim (Bool-cases (same_string value.spec.name name)) [
      | inl same ↦ ground (arith, above.0)
      | inr other ↦ named_above k name m input h above.1 (ground arith)
    ]

-- An input that is found by its name is also found by its id.
pub named_id :
    (name : List ℕ) (m : InputMap) (input : AbstractInput)
    → IsMap m
    → get_input_by_name name m ≡ some input
    → get_input_by_id input.spec.id m ≡ some input
unfolding get_input_by_name get_input_by_id
named_id name [] input h e = cc
named_id name ((key, value) ∷ m) input (hk, above, h) e =
    elim (Bool-cases (same_string value.spec.name name)) [
      | inl same ↦ ground (arith, hk)
      | inr other ↦
          let found : get_input_by_name name m ≡ some input = ground arith in
          ground (arith, named_above key name m input h above found, named_id name m input h found)
    ]

found-is_accepted :
    (name : List ℕ) (m : InputMap) (found : Option AbstractInput) (id : Option ℕ)
    → IsMap m
    → get_input_by_name name m ≡ found
    → found_id name found ≡ resolved id
    → is_accepted id m ≡ true
unfolding is_accepted
found-is_accepted name m none id h e r = cc
found-is_accepted name m (some input) none h e r = cc
found-is_accepted name m (some input) (some id) h e r =
    let same : input.spec.id ≡ id = cc in rw (← same) (ap has_value (named_id name m input h e))

resolve-is_accepted :
    (name : Option (List ℕ)) (m : InputMap) (id : Option ℕ)
    → IsMap m
    → resolve name m ≡ resolved id
    → is_accepted id m ≡ true
unfolding resolve is_accepted
resolve-is_accepted none m none h e = refl
resolve-is_accepted none m (some id) h e = cc
resolve-is_accepted (some name) m id h e =
    found-is_accepted name m (get_input_by_name name m) id h refl e

-- What a change by names does, from the two resolved names: both kinds change or none does.
abbrev pub IsNamedChange : Resolved → Resolved → InputManager → Effect → Type 0
IsNamedChange (unknown name) _ m r = r ≡ (some (invalid_argument name), m)
IsNamedChange (resolved sei) (unknown name) m r = r ≡ (some (invalid_argument name), m)
IsNamedChange (resolved sei) (resolved scte) m r = r ≡ (
  none,
  record {
    current_inputs_ids = record {
      sei = exchanged sei m.current_inputs_ids.sei;
      scte = exchanged scte m.current_inputs_ids.scte;
    };
    inputs = m.inputs;
  },
)

set_resolved-IsNamedChange :
    (sei scte : Resolved) (m : InputManager)
    → ((id : Option ℕ) → sei ≡ resolved id → is_accepted id m.inputs ≡ true)
    → ((id : Option ℕ) → scte ≡ resolved id → is_accepted id m.inputs ≡ true)
    → IsNamedChange sei scte m (set_resolved sei scte m)
unfolding set_resolved set_current_inputs
set_resolved-IsNamedChange (unknown name) scte m h k = refl
set_resolved-IsNamedChange (resolved sei) (unknown name) m h k = refl
set_resolved-IsNamedChange (resolved sei) (resolved scte) m h k = simp (h sei refl, k scte refl)

pub by_name-IsNamedChange :
    (changeset : Inputs (Option (List ℕ))) (m : InputManager)
    → IsMap m.inputs
    → IsNamedChange
        (resolve changeset.sei m.inputs)
        (resolve changeset.scte m.inputs)
        m
        (set_current_inputs_by_name changeset m)
unfolding set_current_inputs_by_name
by_name-IsNamedChange changeset m h =
    set_resolved-IsNamedChange (resolve changeset.sei m.inputs) (resolve changeset.scte m.inputs) m
      (λ id e. resolve-is_accepted changeset.sei m.inputs id h e)
      (λ id e. resolve-is_accepted changeset.scte m.inputs id h e)
