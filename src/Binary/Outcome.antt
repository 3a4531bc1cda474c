-- ===== src/Binary/Outcome.antt =====
-- How a call ends: the exceptions of src/binary_parser.h as values, and readers over them.
use metamix.Base.{ℕ, List, ◌≡◌, refl, Bool, true, false}

-- The texts of the exceptions that the parsers throw, without the numbers formatted into them.
pub data Message : Type 0 where
  expected_bytes condition_failed : Message
  nalu_length_size nalu_empty nalu_too_large nalu_overflow : Message
  malformed_sei : Message
  unknown_descriptor unsupported_command encrypted_packet command_length crc_mismatch : Message

pub record BinaryParseError : Type 0 where
  pub what : Message
  pub bytes_consumed : ℕ
  pub bytes_left : ℕ

-- `runtime_error` is an exception that is no BinaryParseError. `fault` is no value of the program:
-- the call read outside its buffer or dereferenced an empty optional (undefined behaviour).
pub data Outcome {ℓ} (A : Type ℓ) : Type ℓ where
  ok : A → Outcome A
  parse_error : BinaryParseError → Outcome A
  runtime_error : Outcome A
  fault : Outcome A

-- throw BinaryParseError(msg): the positions are filled in by BinaryParser::next.
abbrev pub throw {ℓ} : {A : Type ℓ} → Message → Outcome A
throw m = parse_error (record { what = m; bytes_consumed = 0; bytes_left = 0 })

abbrev pub bind {ℓ κ} : {A : Type ℓ} {B : Type κ} → Outcome A → (A → Outcome B) → Outcome B
bind (ok a) f = f a
bind (parse_error e) f = parse_error e
bind runtime_error f = runtime_error
bind fault f = fault

abbrev pub Reader {ℓ} : Type ℓ → Type ℓ
Reader A = List ℕ → Outcome (A × List ℕ)

abbrev pub pure {ℓ} : {A : Type ℓ} → A → Reader A
pure a s = ok (a, s)

module _ {ℓ κ} {A : Type ℓ} {B : Type κ} where
  infixl 1 ◌>>=◌ ◌>>◌
  abbrev pub ◌>>=◌ : Reader A → (A → Reader B) → Reader B
  p >>= f = λ s. bind (p s) λ (a, rest). f a rest

  abbrev pub ◌>>◌ : Reader A → Reader B → Reader B
  p >> q = p >>= λ _. q

-- The macro TEST_CONST of src/scte35/parser.cpp: the condition holds, or the parser throws.
abbrev pub test_const : Bool → Reader (Unit {0})
test_const true s = ok (tt, s)
test_const false s = throw Message.condition_failed

-- A chain that succeeds has run its first call with success.
pub bind-eq-ok {ℓ κ} :
    {A : Type ℓ} {B : Type κ} (m : Outcome A) (f : A → Outcome B) {b : B}
    → bind m f ≡ ok b
    → (a : A) × (m ≡ ok a) × (f a ≡ ok b)
bind-eq-ok (ok a) f e = (a, refl, e)
bind-eq-ok (parse_error x) f e = cc
bind-eq-ok runtime_error f e = cc
bind-eq-ok fault f e = cc

-- A chain gives no such result if none of its first call's results leads to it.
pub bind-refused {ℓ κ} :
    {A : Type ℓ} {B : Type κ} (m : Outcome A) (f : A → Outcome B) {b : B}
    → ((a : A) → m ≡ ok a → ¬ (f a ≡ ok b))
    → ¬ (bind m f ≡ ok b)
bind-refused m f none h = let (a, e, r) = bind-eq-ok m f h in none a e r
