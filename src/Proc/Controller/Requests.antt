-- ===== src/Proc/Controller/Requests.antt =====
-- handle_request of src/proc/controller.cpp.
use metamix.Base.{ℕ, List, [], ◌∷◌, Bool, true, false, ◌&&◌, ◌||◌, not, ◌==◌, if◌then◌else◌}
use metamix.InputManager.{same_string}
use metamix.Proc.Controller.{
  Context, get_stats, get_all_inputs, get_current_input, set_current_input, restart_input,
  get_config, set_config, or_thrown,
}
use metamix.Proc.Controller.Json.{
  Thrown, json_parse_error, json_type_error, json_out_of_range, invalid, logic_error, Result,
  returned, thrown, and_then, JsonLibrary, stats_target, input_target, current_target,
  restart_target, config_target,
}

-- http::verb, as far as the routes tell verbs apart.
pub data Verb : Type 0 where
  get post other : Verb

pub record Request : Type 0 where
  pub method : Verb
  pub target : List ℕ
  pub body : List ℕ

-- A response: its status, and the JSON of its body or the error that its text describes.
-- Without a response: the exception that no catch block takes.
pub data Response (J : Type 0) : Type 0 where
  ok_response : J → Response J
  bad_request : Thrown → Response J
  illegal_target : Response J
  not_found : Response J
  server_error : Thrown → Response J
  escaped : Thrown → Response J

-- The status, and 0 for no response.
abbrev pub status : {J : Type 0} → Response J → ℕ
status (ok_response j) = 200
status (bad_request e) = 400
status illegal_target = 400
status not_found = 404
status (server_error e) = 500
status (escaped e) = 0

abbrev pub is_get : Verb → Bool
is_get get = true
is_get post = false
is_get other = false

abbrev pub is_post : Verb → Bool
is_post get = false
is_post post = true
is_post other = false

-- The calls that the conditions of handle_request choose from.
pub data Endpoint : Type 0 where
  stats all_inputs current_input set_current restart config change_config nothing : Endpoint

unfoldable pub endpoint : Request → Endpoint
endpoint req =
    if is_get req.method && same_string req.target stats_target
    then stats
    else if is_get req.method && same_string req.target input_target
    then all_inputs
    else if is_get req.method && same_string req.target current_target
    then current_input
    else if is_post req.method && same_string req.target current_target
    then set_current
    else if is_post req.method && same_string req.target restart_target
    then restart
    else if is_get req.method && same_string req.target config_target
    then config
    else if is_post req.method && same_string req.target config_target
    then change_config
    else nothing

-- req.target()[0] != '/', on a target that is not empty
abbrev pub is_absolute : List ℕ → Bool
is_absolute [] = false
is_absolute (c ∷ cs) = c == b'/'

-- json_response in a catch block: dumping the text may throw again.
abbrev pub dumped : {J : Type 0} → Bool → Response J → Response J
dumped true response = response
dumped false response = escaped json_type_error

-- The catch blocks, in their order; `dumps` says which texts can be dumped. No block takes
-- json::out_of_range.
abbrev pub respond : {J : Type 0} → (Thrown → Bool) → Result J × Context → Response J × Context
respond dumps (returned j, ctx) = (ok_response j, ctx)
respond dumps (thrown json_parse_error, ctx) =
    (dumped (dumps json_parse_error) (bad_request json_parse_error), ctx)
respond dumps (thrown json_type_error, ctx) =
    (dumped (dumps json_type_error) (bad_request json_type_error), ctx)
respond dumps (thrown json_out_of_range, ctx) = (escaped json_out_of_range, ctx)
respond dumps (thrown invalid, ctx) = (dumped (dumps invalid) (bad_request invalid), ctx)
respond dumps (thrown logic_error, ctx) =
    (dumped (dumps logic_error) (server_error logic_error), ctx)

module _ {J : Type 0} (json : JsonLibrary J) (has_dots : List ℕ → Bool) where
  abbrev pub with_body : Request → Context → (Context → J → Result J × Context) → Result J × Context
  with_body req ctx handler = or_thrown json ctx (json.parse req.body) (handler ctx)

  -- json_response for 200, for a body with strings of the inputs. The other bodies have numbers and
  -- words of ASCII only.
  abbrev pub written : Result J → Result J
  written r = and_then r (λ j. if json.dump j then returned j else thrown json_type_error)

  -- The call with its arguments, and the catch blocks.
  unfoldable pub serve : Endpoint → Request → Context → Response J × Context
  serve e req ctx =
      let dumps = json.dump_error req.body in
      elim e [
        | stats ↦ respond dumps (returned (get_stats json ctx), ctx)
        | all_inputs ↦ respond dumps (written (get_all_inputs json ctx), ctx)
        | current_input ↦ respond dumps (written (get_current_input json ctx), ctx)
        | set_current ↦ respond dumps (with_body req ctx (set_current_input json))
        | restart ↦ respond dumps (with_body req ctx (restart_input json))
        | config ↦ respond dumps (returned (get_config json ctx), ctx)
        | change_config ↦ respond dumps (with_body req ctx (set_config json))
        | nothing ↦ (not_found, ctx)
      ]

  unfoldable pub handle_request : Request → Context → Response J × Context
  handle_request req ctx =
      if not (is_absolute req.target) || has_dots req.target
      then (illegal_target, ctx)
      else serve (endpoint req) req ctx
