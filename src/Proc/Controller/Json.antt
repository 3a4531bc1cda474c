-- ===== src/Proc/Controller/Json.antt =====
-- What src/proc/controller.cpp uses of the JSON library, its words, and the exceptions that it
-- tells apart.
use metamix.Base.{ℕ, List, [], ◌∷◌, Bool}
use metamix.Base.Int.{ℤ}

-- The exceptions that a handler can throw: those of the JSON library, std::invalid_argument and
-- another std::logic_error (std::out_of_range). json::out_of_range is what the library throws for a
-- number that no double holds; it is no std::logic_error.
pub data Thrown : Type 0 where
  json_parse_error json_type_error json_out_of_range invalid logic_error : Thrown

pub data Result (A : Type 0) : Type 0 where
  returned : A → Result A
  thrown : Thrown → Result A

abbrev pub and_then : {A B : Type 0} → Result A → (A → Result B) → Result B
and_then (returned a) f = f a
and_then (thrown e) f = thrown e

-- The library on its values J. `find` is the test of a key, `get` is operator[], and `pushed` is what
-- push_back makes of null. `dump` says whether dump() can write a value, which it refuses with a
-- type_error for strings that are not UTF-8, and `dump_error` whether it can write the text of an
-- exception, for a request with this body.
pub record JsonLibrary (J : Type 0) : Type 0 where
  pub parse : List ℕ → Result J
  pub find : J → List ℕ → Bool
  pub get : J → List ℕ → Result J
  pub as_string : J → Result (List ℕ)
  pub as_id : J → Result ℕ
  pub as_int64 : J → Result ℤ
  pub of_id : ℕ → J
  pub of_int : ℤ → J
  pub of_bool : Bool → J
  pub of_string : List ℕ → J
  pub object : List (List ℕ × J) → J
  pub pushed : List J → J
  pub dump : J → Bool
  pub dump_error : List ℕ → Thrown → Bool

-- Keys and targets.
abbrev pub name_word : List ℕ
name_word = b'n' ∷ b'a' ∷ b'm' ∷ b'e' ∷ []

abbrev pub id_word : List ℕ
id_word = b'i' ∷ b'd' ∷ []

abbrev pub ad_marker_word : List ℕ
ad_marker_word = b'a' ∷ b'd' ∷ b'M' ∷ b'a' ∷ b'r' ∷ b'k' ∷ b'e' ∷ b'r' ∷ []

abbrev pub closed_caption_word : List ℕ
closed_caption_word =
    b'c' ∷ b'l' ∷ b'o' ∷ b's' ∷ b'e' ∷ b'd' ∷ b'C' ∷ b'a' ∷ b'p' ∷ b't' ∷ b'i' ∷ b'o' ∷ b'n' ∷ []

abbrev pub queue_size_word : List ℕ
queue_size_word = b'q' ∷ b'u' ∷ b'e' ∷ b'u' ∷ b'e' ∷ b'S' ∷ b'i' ∷ b'z' ∷ b'e' ∷ []

abbrev pub clock_now_word : List ℕ
clock_now_word = b'c' ∷ b'l' ∷ b'o' ∷ b'c' ∷ b'k' ∷ b'N' ∷ b'o' ∷ b'w' ∷ []

abbrev pub source_word : List ℕ
source_word = b's' ∷ b'o' ∷ b'u' ∷ b'r' ∷ b'c' ∷ b'e' ∷ []

abbrev pub sink_word : List ℕ
sink_word = b's' ∷ b'i' ∷ b'n' ∷ b'k' ∷ []

abbrev pub source_format_word : List ℕ
source_format_word =
    b's' ∷ b'o' ∷ b'u' ∷ b'r' ∷ b'c' ∷ b'e' ∷ b'F' ∷ b'o' ∷ b'r' ∷ b'm' ∷ b'a' ∷ b't' ∷ []

abbrev pub sink_format_word : List ℕ
sink_format_word = b's' ∷ b'i' ∷ b'n' ∷ b'k' ∷ b'F' ∷ b'o' ∷ b'r' ∷ b'm' ∷ b'a' ∷ b't' ∷ []

abbrev pub is_virtual_word : List ℕ
is_virtual_word = b'i' ∷ b's' ∷ b'V' ∷ b'i' ∷ b'r' ∷ b't' ∷ b'u' ∷ b'a' ∷ b'l' ∷ []

abbrev pub caps_word : List ℕ
caps_word = b'c' ∷ b'a' ∷ b'p' ∷ b's' ∷ []

abbrev pub ts_adjustment_word : List ℕ
ts_adjustment_word =
    b't' ∷ b's' ∷ b'A' ∷ b'd' ∷ b'j' ∷ b'u' ∷ b's' ∷ b't' ∷ b'm' ∷ b'e' ∷ b'n' ∷ b't' ∷ []

abbrev pub ok_word : List ℕ
ok_word = b'o' ∷ b'k' ∷ []

abbrev pub stats_target : List ℕ
stats_target = b'/' ∷ b's' ∷ b't' ∷ b'a' ∷ b't' ∷ b's' ∷ []

abbrev pub input_target : List ℕ
input_target = b'/' ∷ b'i' ∷ b'n' ∷ b'p' ∷ b'u' ∷ b't' ∷ []

abbrev pub current_target : List ℕ
current_target =
    b'/' ∷ b'i' ∷ b'n' ∷ b'p' ∷ b'u' ∷ b't' ∷ b'/' ∷ b'c' ∷ b'u' ∷ b'r' ∷ b'r' ∷ b'e' ∷ b'n' ∷ b't'
    ∷ []

abbrev pub restart_target : List ℕ
restart_target =
    b'/' ∷ b'i' ∷ b'n' ∷ b'p' ∷ b'u' ∷ b't' ∷ b'/' ∷ b'r' ∷ b'e' ∷ b's' ∷ b't' ∷ b'a' ∷ b'r' ∷ b't'
    ∷ []

abbrev pub config_target : List ℕ
config_target = b'/' ∷ b'c' ∷ b'o' ∷ b'n' ∷ b'f' ∷ b'i' ∷ b'g' ∷ []
