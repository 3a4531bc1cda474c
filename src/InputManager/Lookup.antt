-- ===== src/InputManager/Lookup.antt =====
-- The map of the inputs that the constructor builds.
use metamix.Base.{
  ℕ, List, [], ◌∷◌, ◌≡◌, ◌<◌, refl, Option, none, some, inl, inr, arith, Bool-cases, ==_iff, All,
}
use metamix.Base.{if◌then◌else◌, ltb, ◌==◌}
use metamix.InputManager.{AbstractInput, InputMap, assign, assign_all, create, get_input_by_id}

-- Ids in order, each the id of its input.
abbrev pub IsMap : InputMap → Type 0
IsMap [] = Unit
IsMap ((key, value) ∷ rest) =
    (value.spec.id ≡ key) × All (λ (later, _). key < later) rest × IsMap rest

-- The last input of a list with an id.
unfoldable pub last_with_id : ℕ → List AbstractInput → Option AbstractInput
last_with_id id [] = none
last_with_id id (input ∷ inputs) = elim (last_with_id id inputs) [
  | none ↦ if input.spec.id == id then some input else none
  | some later ↦ some later
]

get_input_by_id-assign :
    (id key : ℕ) (input : AbstractInput) (m : InputMap)
    → IsMap m
    → get_input_by_id id (assign key input m)
      ≡ (if key == id then some input else get_input_by_id id m)
unfolding get_input_by_id assign
get_input_by_id-assign id key input [] h = refl
get_input_by_id-assign id key input ((k, v) ∷ m) h =
    ground (arith, get_input_by_id-assign id key input m h.2)

All-assign :
    (n key : ℕ) (input : AbstractInput) (m : InputMap)
    → n < key
    → All (λ (later, _). n < later) m
    → All (λ (later, _). n < later) (assign key input m)
unfolding assign
All-assign n key input [] lt h = (lt, tt)
All-assign n key input ((k, v) ∷ m) lt h = elim (Bool-cases (ltb key k)) [
  | inl e ↦ simp e (lt, h)
  | inr e ↦ elim (Bool-cases (key == k)) [
    | inl same ↦ simp (e, same) (lt, h.1)
    | inr other ↦ simp (e, other) (h.0, All-assign n key input m lt h.1)
  ]
]

All-trans :
    (a b : ℕ) (m : InputMap)
    → a < b
    → All (λ (later, _). b < later) m
    → All (λ (later, _). a < later) m
All-trans a b [] lt h = tt
All-trans a b (x ∷ m) lt h = (omega (arith, h.0), All-trans a b m lt h.1)

assign-IsMap :
    (input : AbstractInput) (m : InputMap) → IsMap m → IsMap (assign input.spec.id input m)
unfolding assign
assign-IsMap input [] h = (refl, tt, tt)
assign-IsMap input ((k, v) ∷ m) (hk, above, h) = elim (Bool-cases (ltb input.spec.id k)) [
  | inl e ↦
      let above_first : All (λ (later, _). input.spec.id < later) m =
        All-trans input.spec.id k m (ground arith) above in
      simp e (refl, (ground arith, above_first), (hk, above, h))
  | inr e ↦ elim (Bool-cases (input.spec.id == k)) [
    | inl same ↦
        simp (e, same)
          (refl, All-below input.spec.id k m ((==_iff input.spec.id k).0 same) above, h)
    | inr other ↦
        simp (e, other)
          (hk, All-assign k input.spec.id input m (ground arith) above, assign-IsMap input m h)
  ]
]
  where
    All-below :
        (a b : ℕ) (m : InputMap)
        → a ≡ b
        → All (λ (later, _). b < later) m
        → All (λ (later, _). a < later) m
    All-below a b m e h = rw e h

assign_all-IsMap :
    (inputs : List AbstractInput) (m : InputMap) → IsMap m → IsMap (assign_all inputs m)
unfolding assign_all
assign_all-IsMap [] m h = h
assign_all-IsMap (input ∷ inputs) m h =
    assign_all-IsMap inputs (assign input.spec.id input m) (assign-IsMap input m h)

abbrev or_else : Option AbstractInput → Option AbstractInput → Option AbstractInput
or_else none other = other
or_else (some input) other = some input

get_input_by_id-assign_all :
    (id : ℕ) (inputs : List AbstractInput) (m : InputMap)
    → IsMap m
    → get_input_by_id id (assign_all inputs m)
      ≡ or_else (last_with_id id inputs) (get_input_by_id id m)
unfolding assign_all last_with_id
get_input_by_id-assign_all id [] m h = refl
get_input_by_id-assign_all id (input ∷ inputs) m h = ground (
  arith,
  get_input_by_id-assign_all id inputs (assign input.spec.id input m) (assign-IsMap input m h),
  get_input_by_id-assign id input.spec.id input m h,
)

nothing_else : (x : Option AbstractInput) {y : Option AbstractInput} → y ≡ or_else x none → y ≡ x
nothing_else none e = e
nothing_else (some input) e = e

-- The constructor's map has its ids in order, each with its own input, and an id leads to the last
-- of the given inputs that has it, or to none if no input has it.
pub create-lem :
    (inputs : List AbstractInput)
    → IsMap (create inputs).inputs
      × ((id : ℕ) → get_input_by_id id (create inputs).inputs ≡ last_with_id id inputs)
unfolding create get_input_by_id
create-lem inputs = (
  assign_all-IsMap inputs [] tt,
  λ id. nothing_else (last_with_id id inputs) (get_input_by_id-assign_all id inputs [] tt),
)
