-- ===== src/Proc/Controller/Tests.antt =====
-- Requests in a context of the clear input and one user input, with objects of numbers for JSON.
use metamix.Base.{All, ◌≢◌}
use metamix.Base.{
  ℕ, List, [], ◌∷◌, ◌≡◌, refl, Bool, true, false, ◌||◌, ◌==◌, none, arith, if◌then◌else◌,
}
use metamix.Base.Int.{ℤ, pos}
use metamix.InputManager.{InputSpec, same_string, create, assign, assign_all, get_input_by_id}
use metamix.Inputs.{new_clear_input, new_user_defined_input}
use metamix.Proc.Controller.{Context}
use metamix.Proc.Controller.Json.{
  json_parse_error, json_type_error, json_out_of_range, Result, returned, thrown, JsonLibrary,
  id_word, current_target,
}
use metamix.Proc.Controller.Requests.{Request, status, post, is_post, handle_request}
use metamix.Proc.Controller.Session.{
  Accept, connection, accept_failed, received, do_accept, do_accept-IsServed,
}
use metamix.Proc.Controller.Status.{handle_request-lem, if-elim}
use metamix.Proc.Controller.Valid.{IsOrdinary, Any, IsJsonLibrary}
use metamix.Proc.Controller.Operable.{IsKept}

abbrev Members : Type 0
Members = List (List ℕ × ℕ)

abbrev find : Members → List ℕ → Bool
find [] key = false
find ((k, v) ∷ j) key = same_string k key || find j key

abbrev at : Members → List ℕ → Result Members
at [] key = thrown json_type_error
at ((k, v) ∷ j) key =
    let rest = at j key in if same_string k key then returned ((k, v) ∷ []) else rest

abbrev number : Members → Result ℕ
number [] = thrown json_type_error
number ((k, v) ∷ j) = returned v

abbrev text : Members → Result (List ℕ)
text j = thrown json_type_error

abbrev int : Members → Result ℤ
int [] = thrown json_type_error
int ((k, v) ∷ j) = returned (pos v)

-- The first number of a body is an id, and 9 is too large for a number.
abbrev parsed : List ℕ → Result Members
parsed [] = thrown json_parse_error
parsed (id ∷ s) = if id == 9 then thrown json_out_of_range else returned ((id_word, id) ∷ [])

abbrev members : JsonLibrary Members
members = record {
  parse = parsed;
  find = find;
  get = at;
  as_string = text;
  as_id = number;
  as_int64 = int;
  of_id = λ n. (id_word, n) ∷ [];
  of_int = λ x. [];
  of_bool = λ b. [];
  of_string = λ s. [];
  object = λ ms. [];
  pushed = λ js. [];
  dump = λ j. true;
  dump_error = λ body e. true;
}

at-IsOrdinary : (j : Members) (key : List ℕ) → IsOrdinary Any (at j key)
at-IsOrdinary [] key = tt
at-IsOrdinary ((k, v) ∷ j) key =
    chosen (same_string k key) ((k, v) ∷ []) (at j key) (at-IsOrdinary j key)
  where
    chosen :
        (b : Bool) (m : Members) (r : Result Members)
        → IsOrdinary Any r
        → IsOrdinary Any (if b then returned m else r)
    chosen true m r h = tt
    chosen false m r h = h

parsed-IsOrdinary : (s : List ℕ) → IsOrdinary Any (parsed s)
parsed-IsOrdinary [] = tt
parsed-IsOrdinary (id ∷ s) = if-elim (IsOrdinary Any) (id == 9) tt tt

number-IsOrdinary : (j : Members) → IsOrdinary Any (number j)
number-IsOrdinary [] = tt
number-IsOrdinary (m ∷ j) = tt

int-IsOrdinary : (j : Members) → IsOrdinary Any (int j)
int-IsOrdinary [] = tt
int-IsOrdinary (m ∷ j) = tt

members-IsJsonLibrary : IsJsonLibrary members
members-IsJsonLibrary = record {
  parse = parsed-IsOrdinary;
  get = at-IsOrdinary;
  as_string = λ j. tt;
  as_id = number-IsOrdinary;
  as_int64 = int-IsOrdinary;
}

abbrev no_dots : List ℕ → Bool
no_dots target = false

abbrev news : InputSpec
news = record {
  id = 1;
  name = b'n' ∷ [];
  source = [];
  sink = [];
  source_format = none;
  sink_format = none;
  is_virtual = false;
}

abbrev context : Context
context = record {
  input_manager = create (new_clear_input 0 ∷ new_user_defined_input news ∷ []);
  meta_queue = record { sei = []; scte = [] };
  clock = pos 7;
  ts_adjustment = pos 0;
  restarts = [];
}

-- Ids 1 and 5, of which the second one is of no input.
abbrev set_to : ℕ → Request
set_to id = record { method = post; target = current_target; body = id ∷ [] }

handle_request-lem_example :
    (status (handle_request members no_dots (set_to 5) context).0 ≢ 200
      → (handle_request members no_dots (set_to 5) context).1 ≡ context)
    × (is_post post ≡ false → (handle_request members no_dots (set_to 5) context).1 ≡ context)
handle_request-lem_example = handle_request-lem members no_dots (set_to 5) context

-- A connection with two requests, of which one fails, another one with a request that ends the
-- controller, and one that is not accepted any more.
abbrev accepts : List Accept
accepts =
    connection (received (set_to 1) false false ∷ received (set_to 5) true false ∷ [])
    ∷ accept_failed
    ∷ connection (received (set_to 9) false false ∷ [])
    ∷ connection (received (set_to 0) false false ∷ [])
    ∷ []

do_accept-IsServed_example :
    All (λ response. status response ≢ 500) (do_accept members no_dots accepts context).0
    × IsKept context (do_accept members no_dots accepts context).1
unfolding create assign assign_all get_input_by_id new_clear_input new_user_defined_input
do_accept-IsServed_example =
    do_accept-IsServed members no_dots members-IsJsonLibrary accepts context
      ((refl, (omega arith, tt), (refl, tt, tt)), (refl, refl))
