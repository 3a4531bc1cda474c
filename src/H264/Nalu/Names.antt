-- ===== src/H264/Nalu/Names.antt =====
-- The names of NALU types in src/h264/nalu.cpp. boost::to_upper is a parameter.
use Prim.Native.String.{String}
use text.Mathlib.Text.{◌==◌}
use text.Mathlib.TextEquality.{eq_iff}
use metamix.Base.{
  ℕ, zero, suc, ◌+◌, List, [], ◌∷◌, ◌≡◌, ◌↔◌, sym, refl, ap, ◌∙◌, Bool, true, false, Option, none,
  some, arith, if◌then◌else◌, Bool-cases, inl, inr,
}

-- NALU_TYPE_STR
abbrev pub nalu_type_str : List String
nalu_type_str =
    "UNSPECIFIED" ∷ "SLICE" ∷ "DPA" ∷ "DPB" ∷ "DPC" ∷ "IDR_SLICE" ∷ "SEI" ∷ "SPS" ∷ "PPS" ∷ "AUD"
    ∷ "END_SEQUENCE" ∷ "END_STREAM" ∷ "FILLER_DATA" ∷ "SPS_EXT" ∷ "PREFIX" ∷ "SUB_SPS" ∷ "DPS"
    ∷ "RESERVED17" ∷ "RESERVED18" ∷ "AUXILIARY_SLICE" ∷ "EXTEN_SLICE" ∷ "DEPTH_EXTEN_SLICE"
    ∷ "RESERVED22" ∷ "RESERVED23" ∷ "UNSPECIFIED24" ∷ "UNSPECIFIED25" ∷ "UNSPECIFIED26"
    ∷ "UNSPECIFIED27" ∷ "UNSPECIFIED28" ∷ "UNSPECIFIED29" ∷ "UNSPECIFIED30" ∷ "UNSPECIFIED31" ∷ []

unfoldable pub name_at : List String → ℕ → Option String
name_at [] i = none
name_at (name ∷ names) zero = some name
name_at (name ∷ names) (suc i) = name_at names i

-- nalu_type_to_string, on the number of the type; a number that is no type is undefined behaviour.
unfoldable pub nalu_type_to_string : ℕ → Option String
nalu_type_to_string ty = name_at nalu_type_str ty

-- The loop of string_to_nalu_type from number `i` on, over the names left.
unfoldable pub find_name : String → ℕ → List String → Option ℕ
find_name upper i [] = none
find_name upper i (name ∷ names) =
    let later = find_name upper (suc i) names in if upper == name then some i else later

unfoldable pub string_to_nalu_type : (String → String) → String → Option ℕ
string_to_nalu_type to_upper str = find_name (to_upper str) 0 nalu_type_str

-- No name stands twice in the list.
is_new : String → List String → Bool
is_new name [] = true
is_new name (other ∷ names) = if name == other then false else is_new name names

are_new : List String → Bool
are_new [] = true
are_new (name ∷ names) = if is_new name names then are_new names else false

table-are_new : are_new nalu_type_str ≡ true
unfolding are_new is_new
table-are_new = refl

-- A name that is new is none of the list.
new-ne :
    (name : String) (names : List String) (k : ℕ) (u : String)
    → is_new name names ≡ true
    → name_at names k ≡ some u
    → (u == name) ≡ false
unfolding is_new name_at
new-ne name [] k u h e = cc
new-ne name (other ∷ names) zero u h e = ground (arith, eq_iff name other, eq_iff u name)
new-ne name (other ∷ names) (suc k) u h e =
    new-ne name names k u (ground (arith, eq_iff name other)) e

find_name-found :
    (u : String) (i : ℕ) (names : List String) (ty : ℕ)
    → find_name u i names ≡ some ty
    → (k : ℕ) × (ty ≡ i + k) × (name_at names k ≡ some u)
unfolding find_name name_at
find_name-found u i [] ty e = cc
find_name-found u i (name ∷ names) ty e = elim (Bool-cases (u == name)) [
  | inl same ↦ (0, ground arith, ground (arith, eq_iff u name))
  | inr other ↦
      let (k, n, at_k) = find_name-found u (suc i) names ty (ground arith) in
      (suc k, omega arith, at_k)
]

name_at-found :
    (u : String) (i : ℕ) (names : List String) (k : ℕ)
    → are_new names ≡ true
    → name_at names k ≡ some u
    → find_name u i names ≡ some (i + k)
unfolding find_name name_at are_new
name_at-found u i [] k h e = cc
name_at-found u i (name ∷ names) zero h e =
    let same : name ≡ u = cc in rw ((eq_iff u name).1 (sym same)) (ground arith)
name_at-found u i (name ∷ names) (suc k) h e = elim (Bool-cases (is_new name names)) [
  | inl new ↦
      rw (new-ne name names k u new e)
        (name_at-found u (suc i) names k (ground arith) e ∙ ap some (omega arith))
  | inr old ↦ cc (rw old at h)
]

-- string_to_nalu_type gives a type exactly if its name is the text in upper case, as to_upper gives
-- it; so it gives no type for a text that is no name.
pub string_to_nalu_type_iff :
    (to_upper : String → String) (str : String) (ty : ℕ)
    → (string_to_nalu_type to_upper str ≡ some ty) ↔ (nalu_type_to_string ty ≡ some (to_upper str))
unfolding string_to_nalu_type nalu_type_to_string
string_to_nalu_type_iff to_upper str ty = (
  λ e.
      let (k, n, at_k) = find_name-found (to_upper str) 0 nalu_type_str ty e in
      let same : ty ≡ k = omega arith in rw same at_k,
  λ e. name_at-found (to_upper str) 0 nalu_type_str ty table-are_new e ∙ ap some (omega arith),
)
