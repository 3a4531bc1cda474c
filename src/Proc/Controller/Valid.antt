-- ===== src/Proc/Controller/Valid.antt =====
-- The inputs under the REST interface: what requests keep of them, and that no request runs into an
-- id that is out of range.
use metamix.Base.{
  ℕ, List, [], ◌∷◌, ◌≡◌, refl, ap, true, ◌||◌, arith, Option, none, some, Bool-cases, inl, inr,
  ◌==◌,
}
use metamix.InputManager.{
  AbstractInput, InputMap, Inputs, get_input_by_id, get_input_by_name, is_accepted, has_value,
}
use metamix.InputManager.Current.{named_id}
use metamix.InputManager.Lookup.{IsMap}
use metamix.Proc.Controller.{
  Context, InputRef, by_id, by_name, or_unknown, get_input_by_ref, parse_input_ref,
  get_input_by_json, kind_id, changeset_of,
}
use metamix.Proc.Controller.Json.{
  json_parse_error, json_type_error, json_out_of_range, invalid, logic_error, Result, returned,
  thrown, and_then, JsonLibrary, name_word, id_word, closed_caption_word, ad_marker_word,
}
use metamix.Proc.Controller.Status.{if-elim}

-- A result that is as P says or an exception other than std::logic_error.
abbrev pub IsOrdinary : {A : Type 0} → (A → Type 0) → Result A → Type 0
IsOrdinary P (returned a) = P a
IsOrdinary P (thrown json_parse_error) = Unit
IsOrdinary P (thrown json_type_error) = Unit
IsOrdinary P (thrown json_out_of_range) = Unit
IsOrdinary P (thrown invalid) = Unit
IsOrdinary P (thrown logic_error) = ⊥

abbrev pub Any : {A : Type 0} → A → Type 0
Any a = Unit

-- What the JSON library documents: reading throws its own exceptions only, of any of its classes.
pub record IsJsonLibrary {J : Type 0} (json : JsonLibrary J) : Type 0 where
  pub parse : (s : List ℕ) → IsOrdinary Any (json.parse s)
  pub get : (j : J) (key : List ℕ) → IsOrdinary Any (json.get j key)
  pub as_string : (j : J) → IsOrdinary Any (json.as_string j)
  pub as_id : (j : J) → IsOrdinary Any (json.as_id j)
  pub as_int64 : (j : J) → IsOrdinary Any (json.as_int64 j)

module _ {A B : Type 0} (P : A → Type 0) (Q : B → Type 0) where
  pub and_then-IsOrdinary :
      (r : Result A) (f : A → Result B)
      → IsOrdinary P r
      → ((a : A) → P a → IsOrdinary Q (f a))
      → IsOrdinary Q (and_then r f)
  and_then-IsOrdinary (returned a) f h k = k a h
  and_then-IsOrdinary (thrown json_parse_error) f h k = tt
  and_then-IsOrdinary (thrown json_type_error) f h k = tt
  and_then-IsOrdinary (thrown json_out_of_range) f h k = tt
  and_then-IsOrdinary (thrown invalid) f h k = tt
  and_then-IsOrdinary (thrown logic_error) f h k = absurd h

-- An input whose id leads to an input.
abbrev pub IsKnown : InputMap → AbstractInput → Type 0
IsKnown m input = is_accepted (some input.spec.id) m ≡ true

-- What an id leads to has this id.
id_of :
    (id : ℕ) (m : InputMap) (input : AbstractInput)
    → IsMap m
    → get_input_by_id id m ≡ some input
    → input.spec.id ≡ id
unfolding get_input_by_id
id_of id [] input h e = cc
id_of id ((key, value) ∷ m) input (hk, above, h) e = elim (Bool-cases (key == id)) [
  | inl same ↦ ground (arith, hk)
  | inr other ↦ id_of id m input h (ground arith)
]

IsKnown-by_name :
    (name : List ℕ) (m : InputMap) (o : Option AbstractInput)
    → IsMap m
    → get_input_by_name name m ≡ o
    → IsOrdinary (IsKnown m) (or_unknown o)
unfolding is_accepted
IsKnown-by_name name m none h e = tt
IsKnown-by_name name m (some input) h e = ap has_value (named_id name m input h e)

IsKnown-by_id :
    (id : ℕ) (m : InputMap) (o : Option AbstractInput)
    → IsMap m
    → get_input_by_id id m ≡ o
    → IsOrdinary (IsKnown m) (or_unknown o)
unfolding is_accepted
IsKnown-by_id id m none h e = tt
IsKnown-by_id id m (some input) h e = let same = id_of id m input h e in rw same (ap has_value e)

get_input_by_ref-IsOrdinary :
    (ref : InputRef) (m : InputMap) → IsMap m → IsOrdinary (IsKnown m) (get_input_by_ref ref m)
unfolding get_input_by_ref
get_input_by_ref-IsOrdinary (by_name name) m h = IsKnown-by_name name m _ h refl
get_input_by_ref-IsOrdinary (by_id id) m h = IsKnown-by_id id m _ h refl

module _ {J : Type 0} (json : JsonLibrary J) (laws : IsJsonLibrary json) where
  parse_input_ref-IsOrdinary : (args : J) → IsOrdinary Any (parse_input_ref json args)
  unfolding parse_input_ref
  parse_input_ref-IsOrdinary args =
      if-elim (IsOrdinary Any) (json.find args name_word)
        (and_then-IsOrdinary Any Any (json.get args name_word) _ (laws.get args name_word)
          (λ v _. and_then-IsOrdinary Any Any (json.as_string v) _ (laws.as_string v) (λ n _. tt)))
        (if-elim (IsOrdinary Any) (json.find args id_word)
          (and_then-IsOrdinary Any Any (json.get args id_word) _ (laws.get args id_word)
            (λ v _. and_then-IsOrdinary Any Any (json.as_id v) _ (laws.as_id v) (λ n _. tt)))
          tt)

  module _ (ctx : Context) (h : IsMap ctx.input_manager.inputs) where
    pub get_input_by_json-IsOrdinary :
        (args : J) → IsOrdinary (IsKnown ctx.input_manager.inputs) (get_input_by_json json ctx args)
    unfolding get_input_by_json
    get_input_by_json-IsOrdinary args =
        and_then-IsOrdinary Any (IsKnown ctx.input_manager.inputs) (parse_input_ref json args) _
          (parse_input_ref-IsOrdinary args)
          (λ ref _. get_input_by_ref-IsOrdinary ref ctx.input_manager.inputs h)

    -- One kind's id that the manager accepts.
    abbrev pub IsAccepted : Option ℕ → Type 0
    IsAccepted id = is_accepted id ctx.input_manager.inputs ≡ true

    abbrev pub BothAccepted : Inputs (Option ℕ) → Type 0
    BothAccepted changeset = IsAccepted changeset.sei × IsAccepted changeset.scte

    kind_id-IsOrdinary :
        (args : J) (word : List ℕ) → IsOrdinary IsAccepted (kind_id json ctx args word)
    unfolding kind_id is_accepted
    kind_id-IsOrdinary args word =
        if-elim (IsOrdinary IsAccepted) (json.find args word)
          (and_then-IsOrdinary Any IsAccepted (json.get args word) _ (laws.get args word) (λ v _.
            and_then-IsOrdinary (IsKnown ctx.input_manager.inputs) IsAccepted
              (get_input_by_json json ctx v) _ (get_input_by_json-IsOrdinary v) (λ input k. k)))
          refl

    pub changeset_of-IsOrdinary : (args : J) → IsOrdinary BothAccepted (changeset_of json ctx args)
    unfolding changeset_of
    changeset_of-IsOrdinary args =
        if-elim (IsOrdinary BothAccepted) (json.find args id_word || json.find args name_word)
          (and_then-IsOrdinary (IsKnown ctx.input_manager.inputs) BothAccepted
            (get_input_by_json json ctx args) _ (get_input_by_json-IsOrdinary args)
            (λ input k. (k, k)))
          (and_then-IsOrdinary IsAccepted BothAccepted (kind_id json ctx args closed_caption_word) _
            (kind_id-IsOrdinary args closed_caption_word)
            (λ sei k.
              and_then-IsOrdinary IsAccepted BothAccepted (kind_id json ctx args ad_marker_word) _
                (kind_id-IsOrdinary args ad_marker_word) (λ scte l. (k, l))))
