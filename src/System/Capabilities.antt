-- ===== src/System/Capabilities.antt =====
-- What a declared capability leaves alone: all that the input manager finds, but the capabilities.
use metamix.Base.{
  ℕ, [], ◌∷◌, ◌≡◌, refl, ap, sym, ◌∙◌, false, ◌==◌, Option, none, some, Bool-cases, Option-cases,
  inl, inr,
}
use metamix.InputManager.{
  AbstractInput, InputCapabilities, InputMap, get_input_by_id, is_input_id_valid,
}
use metamix.System.{declared, is_user_id}

-- An input without what it has declared.
abbrev pub uncapped : AbstractInput → AbstractInput
uncapped input = record input { caps = record { sei = false; scte = false } }

abbrev pub all_uncapped : InputMap → InputMap
all_uncapped [] = []
all_uncapped ((key, value) ∷ rest) = (key, uncapped value) ∷ all_uncapped rest

abbrev lookup_uncapped : Option AbstractInput → Option AbstractInput
lookup_uncapped none = none
lookup_uncapped (some input) = some (uncapped input)

get_input_by_id-all_uncapped :
    (id : ℕ) (m : InputMap)
    → get_input_by_id id (all_uncapped m) ≡ lookup_uncapped (get_input_by_id id m)
unfolding get_input_by_id
get_input_by_id-all_uncapped id [] = refl
get_input_by_id-all_uncapped id ((key, value) ∷ rest) = elim (Bool-cases (key == id)) [
  | inl e ↦ rw e
  | inr e ↦ rw e (get_input_by_id-all_uncapped id rest)
]

-- Maps that differ in capabilities only have the same inputs, apart from these.
pub found_in_both :
    (id : ℕ) (m first : InputMap) (input : AbstractInput)
    → all_uncapped m ≡ all_uncapped first
    → get_input_by_id id m ≡ some input
    → (started : AbstractInput) × (get_input_by_id id first ≡ some started)
      × (uncapped started ≡ uncapped input)
found_in_both id m first input same found =
    let there : lookup_uncapped (get_input_by_id id first) ≡ some (uncapped input) =
      sym (get_input_by_id-all_uncapped id first)
      ∙ ap (get_input_by_id id) (sym same)
      ∙ get_input_by_id-all_uncapped id m
      ∙ ap lookup_uncapped found in
    elim (Option-cases (get_input_by_id id first)) [
      | inl e ↦ cc (rw e at there)
      | inr (started, e) ↦ (started, e, cc (rw e at there))
    ]

module _ (f : InputCapabilities → InputCapabilities) (id : ℕ) where
  pub all_uncapped-declared : (m : InputMap) → all_uncapped (declared f id m) ≡ all_uncapped m
  all_uncapped-declared [] = refl
  all_uncapped-declared ((key, value) ∷ rest) = elim (Bool-cases (key == id)) [
    | inl e ↦ rw e
    | inr e ↦ rw e (ap (λ m. (key, uncapped value) ∷ m) (all_uncapped-declared rest))
  ]

  pub is_input_id_valid-declared :
      (k : ℕ) (m : InputMap) → is_input_id_valid k (declared f id m) ≡ is_input_id_valid k m
  unfolding get_input_by_id
  is_input_id_valid-declared k [] = refl
  is_input_id_valid-declared k ((key, value) ∷ rest) = elim (Bool-cases (key == id)) [
    | inl e ↦ rw e (elim (Bool-cases (key == k)) [ inl h ↦ rw h | inr h ↦ rw h ])
    | inr e ↦ rw e (elim (Bool-cases (key == k)) [
      | inl h ↦ rw h
      | inr h ↦ rw h (is_input_id_valid-declared k rest)
    ])
  ]

  pub is_user_id-declared : (m : InputMap) (k : ℕ) → is_user_id (declared f id m) k ≡ is_user_id m k
  unfolding get_input_by_id
  is_user_id-declared [] k = refl
  is_user_id-declared ((key, value) ∷ rest) k = elim (Bool-cases (key == id)) [
    | inl e ↦ rw e (elim (Bool-cases (key == k)) [ inl h ↦ rw h | inr h ↦ rw h ])
    | inr e ↦
        rw e (elim (Bool-cases (key == k)) [
          | inl h ↦ rw h
          | inr h ↦ rw h (is_user_id-declared rest k)
        ])
  ]

  pub declared_again :
      (c : InputCapabilities) (m : InputMap)
      → declared f id (declared (λ _. c) id m) ≡ declared (λ _. f c) id m
  declared_again c [] = refl
  declared_again c ((key, value) ∷ rest) = elim (Bool-cases (key == id)) [
    | inl e ↦ rw (e, e)
    | inr e ↦ rw (e, e) (ap (λ m. (key, value) ∷ m) (declared_again c rest))
  ]

-- An input that is given the capabilities that it has stays as it is.
pub declared-found :
    (id : ℕ) (m : InputMap) (input : AbstractInput)
    → get_input_by_id id m ≡ some input
    → declared (λ _. input.caps) id m ≡ m
unfolding get_input_by_id
declared-found id [] input h = refl
declared-found id ((key, value) ∷ rest) input h = elim (Bool-cases (key == id)) [
  | inl e ↦ let same : value ≡ input = cc (rw e at h) in rw (e, ← same)
  | inr e ↦ rw e (ap (λ m. (key, value) ∷ m) (declared-found id rest input (rw e at h)))
]
