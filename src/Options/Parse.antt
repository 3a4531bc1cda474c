-- ===== src/Options/Parse.antt =====
-- The specifications that the options of a command line and a file add up to.
use metamix.Base.{
  ℕ, suc, ◌+◌, List, [], ◌∷◌, ◌++◌, ◌≡◌, refl, ap, Bool, false, arith, All, Option, none, some,
  length, Bool-cases, inl, inr,
}
use metamix.Binary.Outcome.{ok, bind-eq-ok}
use metamix.InputManager.{InputSpec, same_string}
use metamix.Options.{
  ParsedOption, contains_name, new_spec, get_input_spec_or_create, set_param, param_set,
  set_input_param, add_input_option, add_options, input_prefix,
}

abbrev pub Label : Type 0
Label = ℕ × List ℕ

-- The ids and names of specifications.
abbrev pub labels : List InputSpec → List Label
labels [] = []
labels (is ∷ specs) = (is.id, is.name) ∷ labels specs

-- Ids in sequence from `id`, and no name of an earlier one.
abbrev pub IsNumbered : ℕ → List Label → Type 0
IsNumbered id [] = Unit
IsNumbered id ((n, name) ∷ rest) =
    (n ≡ id)
    × All (λ (later, other). same_string name other ≡ false) rest
    × IsNumbered (suc id) rest

IsNumbered-end :
    (id : ℕ) (ls : List Label) (name : List ℕ)
    → IsNumbered id ls
    → All (λ (n, other). same_string other name ≡ false) ls
    → IsNumbered id (ls ++ ((id + length ls, name) ∷ []))
IsNumbered-end id [] name h new = (omega arith, tt, tt)
IsNumbered-end id ((n, other) ∷ ls) name (e, h, hs) (new, news) =
    let same : suc id + length ls ≡ id + suc (length ls) = omega arith in
    (
      e,
      All-end other ls (id + suc (length ls), name) h new,
      rw same at (IsNumbered-end (suc id) ls name hs news),
    )
  where
    All-end :
        (other : List ℕ) (ls : List Label) (l : Label)
        → All (λ (later, x). same_string other x ≡ false) ls
        → same_string other l.1 ≡ false
        → All (λ (later, x). same_string other x ≡ false) (ls ++ (l ∷ []))
    All-end other [] l h new = (new, tt)
    All-end other (x ∷ ls) l (hx, h) new = (hx, All-end other ls l h new)

not-contains_name :
    (name : List ℕ) (specs : List InputSpec)
    → contains_name name specs ≡ false
    → All (λ (n, other). same_string other name ≡ false) (labels specs)
unfolding contains_name
not-contains_name name [] h = tt
not-contains_name name (is ∷ specs) h = (ground arith, not-contains_name name specs (ground arith))

labels-append :
    (specs : List InputSpec) (is : InputSpec)
    → labels (specs ++ (is ∷ [])) ≡ labels specs ++ ((is.id, is.name) ∷ [])
labels-append [] is = refl
labels-append (x ∷ specs) is = ap (λ ls. (x.id, x.name) ∷ ls) (labels-append specs is)

length-labels : (specs : List InputSpec) → length (labels specs) ≡ length specs
length-labels [] = refl
length-labels (is ∷ specs) = ap suc (length-labels specs)

get_input_spec_or_create-IsNumbered :
    (name : List ℕ) (specs : List InputSpec)
    → IsNumbered 0 (labels specs)
    → IsNumbered 0 (labels (get_input_spec_or_create name specs))
unfolding get_input_spec_or_create
get_input_spec_or_create-IsNumbered name specs h = elim (Bool-cases (contains_name name specs)) [
  | inl e ↦ rw (e, get_input_spec_or_create) h
  | inr e ↦
      let same : 0 + length (labels specs) ≡ length specs = omega (arith, length-labels specs) in
      rw (e, get_input_spec_or_create, labels-append specs (new_spec (length specs) name))
        (rw same at (IsNumbered-end 0 (labels specs) name h (not-contains_name name specs e)))
]

labels-set_param :
    (param value : List ℕ) (is is' : InputSpec)
    → set_param param value is ≡ some is'
    → (is'.id ≡ is.id) × (is'.name ≡ is.name)
unfolding set_param
labels-set_param param value is is' e = ground arith

labels-param_set :
    (is : InputSpec) (specs r : List InputSpec) (o : Option InputSpec)
    → ((is' : InputSpec) → o ≡ some is' → (is'.id ≡ is.id) × (is'.name ≡ is.name))
    → param_set specs o ≡ ok r
    → labels r ≡ labels (is ∷ specs)
labels-param_set is specs r none h e = cc
labels-param_set is specs r (some is') h e =
    let kept = h is' refl in let same : is' ∷ specs ≡ r = cc in rw (← same, kept.0, kept.1)

labels-set_input_param :
    (name param value : List ℕ) (specs : List InputSpec) (r : List InputSpec)
    → set_input_param name param value specs ≡ ok r
    → labels r ≡ labels specs
unfolding set_input_param
labels-set_input_param name param value [] r e = cc
labels-set_input_param name param value (is ∷ specs) r e =
    elim (Bool-cases (same_string is.name name)) [
      | inl same ↦
          labels-param_set is specs r (set_param param value is) (labels-set_param param value is)
            (rw (same, set_input_param) at e)
      | inr other ↦
          let (rest, found, last) =
            bind-eq-ok (set_input_param name param value specs) _
              (rw (other, set_input_param) at e) in
          let e' : is ∷ rest ≡ r = cc in
          rw (← e', labels-set_input_param name param value specs rest found)
    ]

add_input_option-IsNumbered :
    (parts values : List (List ℕ)) (specs r : List InputSpec)
    → IsNumbered 0 (labels specs)
    → add_input_option parts values specs ≡ ok r
    → IsNumbered 0 (labels r)
unfolding add_input_option
add_input_option-IsNumbered [] values specs r h e = cc
add_input_option-IsNumbered (p ∷ []) values specs r h e = cc
add_input_option-IsNumbered (p ∷ n ∷ []) values specs r h e = cc
add_input_option-IsNumbered (p ∷ n ∷ x ∷ y ∷ parts) values specs r h e = cc
add_input_option-IsNumbered (p ∷ n ∷ x ∷ []) [] specs r h e = cc
add_input_option-IsNumbered (p ∷ n ∷ x ∷ []) (v ∷ w ∷ values) specs r h e = cc
add_input_option-IsNumbered (p ∷ n ∷ x ∷ []) (v ∷ []) specs r h e =
    rw (labels-set_input_param n x v (get_input_spec_or_create n specs) r e)
      (get_input_spec_or_create-IsNumbered n specs h)

module _ (starts_with : List ℕ → List ℕ → Bool) (split : List ℕ → List (List ℕ)) where
  add_options-kept :
      (opts : List ParsedOption) (specs r : List InputSpec)
      → IsNumbered 0 (labels specs)
      → add_options starts_with split opts specs ≡ ok r
      → IsNumbered 0 (labels r)
  unfolding add_options
  add_options-kept [] specs r h e = let same : specs ≡ r = cc in rw (← same) h
  add_options-kept (opt ∷ opts) specs r h e =
      elim (Bool-cases (starts_with opt.string_key input_prefix)) [
        | inl taken ↦
            let (next, found, last) =
              bind-eq-ok (add_input_option (split opt.string_key) opt.value specs) _
                (rw (taken, add_options) at e) in
            add_options-kept opts next r
              (add_input_option-IsNumbered (split opt.string_key) opt.value specs next h found) last
        | inr passed ↦ add_options-kept opts specs r h (rw (passed, add_options) at e)
      ]

  -- If the loop over the options throws nothing, the inputs that it gives are numbered from 0 and no
  -- two of them have one name, however often and in whatever order their options came.
  pub add_options-IsNumbered :
      (opts : List ParsedOption) (specs : List InputSpec)
      → add_options starts_with split opts [] ≡ ok specs
      → IsNumbered 0 (labels specs)
  add_options-IsNumbered opts specs e = add_options-kept opts [] specs tt e
