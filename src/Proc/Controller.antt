-- ===== src/Proc/Controller.antt =====
-- src/proc/controller.cpp: the handlers of the REST interface. The JSON library, and the search for
-- ".." in a target, are parameters. A response is its status and the JSON of its body, or what was
-- wrong. Sockets, HTTP framing and logging are not modelled.
pub mod Json
pub mod Requests
pub mod Status
pub mod Valid
pub mod Operable
pub mod Session
mod Tests
use metamix.Base.{ℕ, List, [], ◌∷◌, Bool, true, false, ◌&&◌, ◌||◌, not, ◌==◌, length}
use metamix.Base.{Option, none, some, if◌then◌else◌}
use metamix.Base.Int.{ℤ, pos}
use metamix.InputManager.{
  AbstractInput, InputClass, user_defined_input, clear_input, InputManager, InputMap, Inputs,
  InputCapabilities, SetError, out_of_range, invalid_argument, Effect, get_input_by_id,
  get_input_by_name, same_string, set_current_inputs,
}
use metamix.MetadataQueue.Group.{QueueGroup}
use metamix.Proc.Controller.Json.{
  Thrown, json_parse_error, json_type_error, invalid, logic_error, Result, returned, thrown,
  and_then, JsonLibrary,
}
use metamix.Proc.Controller.Json.{
  name_word, id_word, ad_marker_word, closed_caption_word, queue_size_word, clock_now_word,
  source_word, sink_word, source_format_word, sink_format_word, is_virtual_word, caps_word,
  ts_adjustment_word, ok_word, stats_target, input_target, current_target, restart_target,
  config_target,
}

-- What the handlers see of ApplicationContext, with the ids of the inputs whose restart is
-- scheduled.
pub record Context : Type 0 where
  pub input_manager : InputManager
  pub meta_queue : QueueGroup
  pub clock : ℤ
  pub ts_adjustment : ℤ
  pub restarts : List ℕ

-- std::variant<InputId, std::string>
pub data InputRef : Type 0 where
  by_id : ℕ → InputRef
  by_name : List ℕ → InputRef

abbrev pub or_unknown : Option AbstractInput → Result AbstractInput
or_unknown none = thrown invalid
or_unknown (some input) = returned input

unfoldable pub get_input_by_ref : InputRef → InputMap → Result AbstractInput
get_input_by_ref (by_name name) m = or_unknown (get_input_by_name name m)
get_input_by_ref (by_id id) m = or_unknown (get_input_by_id id m)

-- What set_current_inputs leaves of the context, and the exception that it throws.
abbrev pub changed : {J : Type 0} → J → Context → Effect → Result J × Context
changed j ctx (none, m) = (returned j, record ctx { input_manager = m })
changed j ctx (some out_of_range, m) = (thrown logic_error, record ctx { input_manager = m })
changed j ctx (some (invalid_argument name), m) = (thrown invalid, record ctx { input_manager = m })

-- schedule_restart of each class
unfoldable pub schedule_restart : AbstractInput → List ℕ → List ℕ
schedule_restart input restarts = elim input.input_class [
  | user_defined_input ↦ input.spec.id ∷ restarts
  | clear_input ↦ restarts
]

abbrev pub spec_id : AbstractInput → ℕ
spec_id input = input.spec.id

abbrev pub value_or_empty : Option (List ℕ) → List ℕ
value_or_empty none = []
value_or_empty (some s) = s

module _ {J : Type 0} (json : JsonLibrary J) where
  unfoldable pub parse_input_ref : J → Result InputRef
  parse_input_ref args =
      if json.find args name_word
      then and_then (json.get args name_word)
          (λ v. and_then (json.as_string v) (λ name. returned (by_name name)))
      else if json.find args id_word
      then and_then (json.get args id_word)
          (λ v. and_then (json.as_id v) (λ id. returned (by_id id)))
      else thrown invalid

  unfoldable pub get_input_by_json : Context → J → Result AbstractInput
  get_input_by_json ctx args =
      and_then (parse_input_ref args) (λ ref. get_input_by_ref ref ctx.input_manager.inputs)

  unfoldable pub get_stats : Context → J
  get_stats ctx = json.object (
      (
        queue_size_word,
        json.object (
            (closed_caption_word, json.of_id (length ctx.meta_queue.sei))
            ∷ (ad_marker_word, json.of_id (length ctx.meta_queue.scte))
            ∷ []),
      )
      ∷ (clock_now_word, json.of_int ctx.clock)
      ∷ [])

  -- The JSON of an input.
  unfoldable pub input_info : ℕ → AbstractInput → J
  input_info id input = json.object (
      (id_word, json.of_id id)
      ∷ (name_word, json.of_string input.spec.name)
      ∷ (source_word, json.of_string input.spec.source)
      ∷ (sink_word, json.of_string input.spec.sink)
      ∷ (source_format_word, json.of_string (value_or_empty input.spec.source_format))
      ∷ (sink_format_word, json.of_string (value_or_empty input.spec.sink_format))
      ∷ (is_virtual_word, json.of_bool input.spec.is_virtual)
      ∷ (
        caps_word,
        json.object (
            (closed_caption_word, json.of_bool input.caps.sei)
            ∷ (ad_marker_word, json.of_bool input.caps.scte)
            ∷ []),
      )
      ∷ [])

  unfoldable pub get_input_info : Context → ℕ → Result J
  get_input_info ctx id =
      and_then (or_unknown (get_input_by_id id ctx.input_manager.inputs))
        (λ input. returned (input_info id input))

  unfoldable pub get_current_input : Context → Result J
  get_current_input ctx =
      and_then (get_input_info ctx ctx.input_manager.current_inputs_ids.sei) λ sei.
        and_then (get_input_info ctx ctx.input_manager.current_inputs_ids.scte)
          λ scte. returned (json.object ((closed_caption_word, sei) ∷ (ad_marker_word, scte) ∷ []))

  -- The loop of get_all_inputs over the map.
  unfoldable pub all_infos : Context → InputMap → Result (List J)
  all_infos ctx [] = returned []
  all_infos ctx ((key, input) ∷ m) =
      and_then (get_input_info ctx input.spec.id)
        (λ info. and_then (all_infos ctx m) (λ infos. returned (info ∷ infos)))

  unfoldable pub get_all_inputs : Context → Result J
  get_all_inputs ctx =
      and_then (all_infos ctx ctx.input_manager.inputs) (λ infos. returned (json.pushed infos))

  unfoldable pub ok_json : J
  ok_json = json.object ((ok_word, json.of_bool true) ∷ [])

  -- One kind's part of the changeset.
  unfoldable pub kind_id : Context → J → List ℕ → Result (Option ℕ)
  kind_id ctx args api_name =
      if json.find args api_name
      then and_then (json.get args api_name)
          (λ v. and_then (get_input_by_json ctx v) (λ input. returned (some input.spec.id)))
      else returned none

  unfoldable pub changeset_of : Context → J → Result (Inputs (Option ℕ))
  changeset_of ctx args =
      if json.find args id_word || json.find args name_word
      then and_then (get_input_by_json ctx args)
          (λ input. returned (record { sei = some input.spec.id; scte = some input.spec.id }))
      else and_then (kind_id ctx args closed_caption_word) (λ sei.
        and_then (kind_id ctx args ad_marker_word)
          (λ scte. returned (record { sei = sei; scte = scte })))

  -- What a handler does with its result, or the exception that leaves it with the context as it is.
  abbrev pub or_thrown :
      {A : Type 0} → Context → Result A → (A → Result J × Context) → Result J × Context
  or_thrown ctx (returned a) f = f a
  or_thrown ctx (thrown e) f = (thrown e, ctx)

  unfoldable pub set_current_input : Context → J → Result J × Context
  set_current_input ctx args =
      or_thrown ctx (changeset_of ctx args)
        (λ changeset. changed ok_json ctx (set_current_inputs changeset ctx.input_manager))

  unfoldable pub restart_input : Context → J → Result J × Context
  restart_input ctx args =
      or_thrown ctx (get_input_by_json ctx args)
        λ input. (returned ok_json, record ctx { restarts = schedule_restart input ctx.restarts })

  unfoldable pub get_config : Context → J
  get_config ctx = json.object ((ts_adjustment_word, json.of_int ctx.ts_adjustment) ∷ [])

  unfoldable pub set_config : Context → J → Result J × Context
  set_config ctx args =
      if json.find args ts_adjustment_word
      then or_thrown ctx (and_then (json.get args ts_adjustment_word) json.as_int64)
          (λ value. (returned ok_json, record ctx { ts_adjustment = value }))
      else (returned ok_json, ctx)
