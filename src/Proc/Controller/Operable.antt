-- ===== src/Proc/Controller/Operable.antt =====
-- That requests keep the inputs operable, and that none of them is an internal server error.
use metamix.Base.{
  ℕ, List, [], ◌∷◌, ◌≡◌, ◌≢◌, refl, Bool, true, false, ◌||◌, not, arith, Option, none, some,
}
use metamix.InputManager.{
  AbstractInput, InputManager, InputMap, Inputs, Effect, out_of_range, invalid_argument,
  get_input_by_id, set_current_inputs,
}
use metamix.InputManager.Current.{IsValid, set_current_inputs-IsValid}
use metamix.InputManager.Lookup.{IsMap}
use metamix.Proc.Controller.{
  Context, or_unknown, changed, get_input_by_json, get_input_info, get_current_input, all_infos,
  get_all_inputs, ok_json, changeset_of, or_thrown, set_current_input, restart_input, set_config,
}
use metamix.Proc.Controller.Json.{
  Thrown, json_parse_error, json_type_error, json_out_of_range, invalid, logic_error, Result,
  returned, thrown, and_then, JsonLibrary, ts_adjustment_word,
}
use metamix.Proc.Controller.Requests.{
  Request, Response, status, is_absolute, bad_request, dumped, respond, with_body, written,
  Endpoint, stats, all_inputs, current_input, set_current, restart, config, change_config, nothing,
  endpoint, serve, handle_request,
}
use metamix.Proc.Controller.Status.{if-elim}
use metamix.Proc.Controller.Valid.{
  IsOrdinary, Any, IsJsonLibrary, IsKnown, BothAccepted, and_then-IsOrdinary,
  get_input_by_json-IsOrdinary, changeset_of-IsOrdinary,
}

-- Ids in order, each of its own input, and current inputs that exist.
abbrev pub IsOperable : InputManager → Type 0
IsOperable m = IsMap m.inputs × IsValid m

-- A context with the same inputs and no worse current ones.
abbrev pub IsKept : Context → Context → Type 0
IsKept ctx after =
    (after.input_manager.inputs ≡ ctx.input_manager.inputs) × IsOperable after.input_manager

module _ {J : Type 0} (json : JsonLibrary J) (has_dots : List ℕ → Bool)
    (laws : IsJsonLibrary json) where
  abbrev pub IsServed : Context → Response J × Context → Type 0
  IsServed ctx (r, after) = (status r ≢ 500) × IsKept ctx after

  -- The same of a handler's result.
  abbrev IsHandled : Context → Result J × Context → Type 0
  IsHandled ctx (r, after) = IsOrdinary Any r × IsKept ctx after

  dumped-status : (b : Bool) (e : Thrown) → status (dumped {J = J} b (bad_request e)) ≢ 500
  dumped-status true e = λ same. omega arith
  dumped-status false e = λ same. omega arith

  respond-IsServed :
      (ctx : Context) (dumps : Thrown → Bool) (r : Result J) (after : Context)
      → IsHandled ctx (r, after)
      → IsServed ctx (respond dumps (r, after))
  respond-IsServed ctx dumps (returned j) after (o, k) = (λ e. omega arith, k)
  respond-IsServed ctx dumps (thrown json_parse_error) after (o, k) =
      (dumped-status (dumps json_parse_error) json_parse_error, k)
  respond-IsServed ctx dumps (thrown json_type_error) after (o, k) =
      (dumped-status (dumps json_type_error) json_type_error, k)
  respond-IsServed ctx dumps (thrown json_out_of_range) after (o, k) = (λ e. omega arith, k)
  respond-IsServed ctx dumps (thrown invalid) after (o, k) =
      (dumped-status (dumps invalid) invalid, k)
  respond-IsServed ctx dumps (thrown logic_error) after (o, k) = absurd o

  module _ (ctx : Context) (h : IsOperable ctx.input_manager) where
    unchanged : IsKept ctx ctx
    unchanged = (refl, h)

    or_thrown-IsHandled :
        {A : Type 0} (P : A → Type 0) (r : Result A) (f : A → Result J × Context)
        → IsOrdinary P r
        → ((a : A) → P a → IsHandled ctx (f a))
        → IsHandled ctx (or_thrown json ctx r f)
    or_thrown-IsHandled P (returned a) f o k = k a o
    or_thrown-IsHandled P (thrown json_parse_error) f o k = (tt, unchanged)
    or_thrown-IsHandled P (thrown json_type_error) f o k = (tt, unchanged)
    or_thrown-IsHandled P (thrown json_out_of_range) f o k = (tt, unchanged)
    or_thrown-IsHandled P (thrown invalid) f o k = (tt, unchanged)
    or_thrown-IsHandled P (thrown logic_error) f o k = absurd o

    or_unknown-IsOrdinary : (o : Option AbstractInput) → IsOrdinary Any (or_unknown o)
    or_unknown-IsOrdinary none = tt
    or_unknown-IsOrdinary (some input) = tt

    get_input_info-IsOrdinary : (id : ℕ) → IsOrdinary Any (get_input_info json ctx id)
    unfolding get_input_info
    get_input_info-IsOrdinary id =
        and_then-IsOrdinary Any Any (or_unknown (get_input_by_id id ctx.input_manager.inputs)) _
          (or_unknown-IsOrdinary _) (λ input _. tt)

    all_infos-IsOrdinary : (m : InputMap) → IsOrdinary Any (all_infos json ctx m)
    unfolding all_infos
    all_infos-IsOrdinary [] = tt
    all_infos-IsOrdinary ((key, input) ∷ m) =
        and_then-IsOrdinary Any Any (get_input_info json ctx input.spec.id) _
          (get_input_info-IsOrdinary input.spec.id)
          (λ info _.
            and_then-IsOrdinary Any Any (all_infos json ctx m) _ (all_infos-IsOrdinary m)
              (λ infos _. tt))

    get_all_inputs-IsOrdinary : IsOrdinary Any (get_all_inputs json ctx)
    unfolding get_all_inputs
    get_all_inputs-IsOrdinary =
        and_then-IsOrdinary Any Any (all_infos json ctx ctx.input_manager.inputs) _
          (all_infos-IsOrdinary ctx.input_manager.inputs) (λ infos _. tt)

    get_current_input-IsOrdinary : IsOrdinary Any (get_current_input json ctx)
    unfolding get_current_input
    get_current_input-IsOrdinary =
        and_then-IsOrdinary Any Any
          (get_input_info json ctx ctx.input_manager.current_inputs_ids.sei) _
          (get_input_info-IsOrdinary _)
          (λ sei _.
            and_then-IsOrdinary Any Any
              (get_input_info json ctx ctx.input_manager.current_inputs_ids.scte) _
              (get_input_info-IsOrdinary _) (λ scte _. tt))

    written-IsOrdinary :
        (r : Result J) → IsOrdinary Any r → IsOrdinary Any (written json has_dots r)
    written-IsOrdinary r h =
        and_then-IsOrdinary Any Any r _ h (λ j _. if-elim (IsOrdinary Any) (json.dump j) tt tt)

    changed-IsHandled :
        (r : Effect)
        → r.0 ≡ none
        → r.1.inputs ≡ ctx.input_manager.inputs
        → IsValid r.1
        → IsHandled ctx (changed (ok_json json) ctx r)
    changed-IsHandled (none, m) e same valid = (tt, (same, (rw same h.0, valid)))
    changed-IsHandled (some out_of_range, m) e same valid = cc
    changed-IsHandled (some (invalid_argument name), m) e same valid = cc

    -- Ids that the manager accepts are set.
    accepted-IsHandled :
        (changeset : Inputs (Option ℕ))
        → BothAccepted json laws ctx h.0 changeset
        → IsHandled ctx
            (changed (ok_json json) ctx (set_current_inputs changeset ctx.input_manager))
    accepted-IsHandled changeset (sei, scte) =
        changed-IsHandled (set_current_inputs changeset ctx.input_manager)
          (unfold set_current_inputs in rw (sei, scte))
          (unfold set_current_inputs in rw (sei, scte))
          (set_current_inputs-IsValid changeset ctx.input_manager h.1)

    set_current_input-IsHandled : (args : J) → IsHandled ctx (set_current_input json ctx args)
    unfolding set_current_input
    set_current_input-IsHandled args =
        or_thrown-IsHandled (BothAccepted json laws ctx h.0) (changeset_of json ctx args) _
          (changeset_of-IsOrdinary json laws ctx h.0 args) accepted-IsHandled

    restart_input-IsHandled : (args : J) → IsHandled ctx (restart_input json ctx args)
    unfolding restart_input
    restart_input-IsHandled args =
        or_thrown-IsHandled (IsKnown ctx.input_manager.inputs) (get_input_by_json json ctx args) _
          (get_input_by_json-IsOrdinary json laws ctx h.0 args) (λ input k. (tt, unchanged))

    set_config-IsHandled : (args : J) → IsHandled ctx (set_config json ctx args)
    unfolding set_config
    set_config-IsHandled args =
        if-elim (IsHandled ctx) (json.find args ts_adjustment_word)
          (or_thrown-IsHandled Any (and_then (json.get args ts_adjustment_word) json.as_int64) _
            (and_then-IsOrdinary Any Any (json.get args ts_adjustment_word) json.as_int64
              (laws.get args ts_adjustment_word) (λ v _. laws.as_int64 v))
            (λ value _. (tt, unchanged)))
          (tt, unchanged)

    with_body-IsServed :
        (req : Request) (handler : Context → J → Result J × Context)
        → ((args : J) → IsHandled ctx (handler ctx args))
        → IsServed ctx
            (respond (json.dump_error req.body) (with_body json has_dots req ctx handler))
    with_body-IsServed req handler k = respond-IsServed ctx (json.dump_error req.body) _ _ (
        or_thrown-IsHandled Any (json.parse req.body) (handler ctx) (laws.parse req.body)
          (λ args _. k args))

    serve-IsServed : (e : Endpoint) (req : Request) → IsServed ctx (serve json has_dots e req ctx)
    unfolding serve
    serve-IsServed stats req = (λ e. omega arith, unchanged)
    serve-IsServed all_inputs req =
        respond-IsServed ctx (json.dump_error req.body) _ ctx
          (written-IsOrdinary _ get_all_inputs-IsOrdinary, unchanged)
    serve-IsServed current_input req =
        respond-IsServed ctx (json.dump_error req.body) _ ctx
          (written-IsOrdinary _ get_current_input-IsOrdinary, unchanged)
    serve-IsServed set_current req =
        with_body-IsServed req (set_current_input json) set_current_input-IsHandled
    serve-IsServed restart req = with_body-IsServed req (restart_input json) restart_input-IsHandled
    serve-IsServed config req = (λ e. omega arith, unchanged)
    serve-IsServed change_config req = with_body-IsServed req (set_config json) set_config-IsHandled
    serve-IsServed nothing req = (λ e. omega arith, unchanged)

  -- With a JSON library that throws its own exceptions only: in a context whose inputs stand under
  -- their own ids and whose current inputs exist, every request keeps the inputs and this state of
  -- them, and none is answered with an internal server error.
  pub handle_request-IsKept :
      (req : Request) (ctx : Context)
      → IsOperable ctx.input_manager
      → let (response, after) = handle_request json has_dots req ctx in
        (status response ≢ 500) × IsKept ctx after
  unfolding handle_request
  handle_request-IsKept req ctx h =
      if-elim (IsServed ctx) (not (is_absolute req.target) || has_dots req.target)
        (λ e. omega arith, unchanged ctx h) (serve-IsServed ctx h (endpoint req) req)
