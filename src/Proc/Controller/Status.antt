-- ===== src/Proc/Controller/Status.antt =====
-- What a response's status tells of the request's effect.
use metamix.Base.{◌≢◌}
use metamix.Base.{ℕ, List, ◌≡◌, refl, Bool, true, false, ◌||◌, not, arith, Option, if◌then◌else◌}
use metamix.InputManager.{Inputs, set_current_inputs}
use metamix.Proc.Controller.{
  Context, changed, get_input_by_json, get_current_input, get_all_inputs, ok_json, changeset_of,
  or_thrown, set_current_input, restart_input, set_config,
}
use metamix.Proc.Controller.Json.{
  Thrown, json_parse_error, json_type_error, json_out_of_range, invalid, logic_error, Result,
  returned, thrown, and_then, JsonLibrary, ts_adjustment_word,
}
use metamix.Proc.Controller.Requests.{bad_request, server_error, escaped, illegal_target, not_found}
use metamix.Proc.Controller.Requests.{status}
use metamix.Proc.Controller.Requests.{
  Request, Response, ok_response, is_post, is_absolute, dumped, respond, with_body, written,
  Endpoint, stats, all_inputs, current_input, set_current, restart, config, change_config, nothing,
  endpoint, serve, handle_request,
}

-- What holds of both branches.
pub if-elim :
    {A : Type 0} (P : A → Type 0) (b : Bool) {x y : A} → P x → P y → P (if b then x else y)
if-elim P true hx hy = hx
if-elim P false hx hy = hy

-- A handler's result: an exception leaves the context as it was.
abbrev pub IsAtomic : {A : Type 0} → Context → Result A × Context → Type 0
IsAtomic ctx (returned a, after) = Unit
IsAtomic ctx (thrown e, after) = after ≡ ctx

-- The endpoints of POST requests.
abbrev is_writing : Endpoint → Bool
is_writing stats = false
is_writing all_inputs = false
is_writing current_input = false
is_writing set_current = true
is_writing restart = true
is_writing config = false
is_writing change_config = true
is_writing nothing = false

get-reads : (req : Request) → is_post req.method ≡ false → is_writing (endpoint req) ≡ false
unfolding endpoint
get-reads req h = ground arith

module _ {J : Type 0} (json : JsonLibrary J) (has_dots : List ℕ → Bool) where
  -- A response that is not 200 comes with the context as it was.
  abbrev IsKeptUnlessOk : Context → Response J × Context → Type 0
  IsKeptUnlessOk ctx (ok_response j, after) = Unit
  IsKeptUnlessOk ctx (r, after) = after ≡ ctx

  dumped-kept :
      (ctx after : Context) (b : Bool) (r : Response J)
      → IsKeptUnlessOk ctx (r, after)
      → after ≡ ctx
      → IsKeptUnlessOk ctx (dumped b r, after)
  dumped-kept ctx after true r h k = h
  dumped-kept ctx after false r h k = k

  respond-kept :
      (ctx : Context) (dumps : Thrown → Bool) (r : Result J × Context)
      → IsAtomic ctx r
      → IsKeptUnlessOk ctx (respond dumps r)
  respond-kept ctx dumps (returned j, after) h = tt
  respond-kept ctx dumps (thrown json_parse_error, after) h =
      dumped-kept ctx after (dumps json_parse_error) (bad_request json_parse_error) h h
  respond-kept ctx dumps (thrown json_type_error, after) h =
      dumped-kept ctx after (dumps json_type_error) (bad_request json_type_error) h h
  respond-kept ctx dumps (thrown json_out_of_range, after) h = h
  respond-kept ctx dumps (thrown invalid, after) h =
      dumped-kept ctx after (dumps invalid) (bad_request invalid) h h
  respond-kept ctx dumps (thrown logic_error, after) h =
      dumped-kept ctx after (dumps logic_error) (server_error logic_error) h h

  or_thrown-IsAtomic :
      {A : Type 0} (ctx : Context) (r : Result A) (f : A → Result J × Context)
      → ((a : A) → IsAtomic ctx (f a))
      → IsAtomic ctx (or_thrown json ctx r f)
  or_thrown-IsAtomic ctx (returned a) f h = h a
  or_thrown-IsAtomic ctx (thrown e) f h = refl

  changed-IsAtomic :
      (ctx : Context) (changeset : Inputs (Option ℕ))
      → IsAtomic ctx (changed (ok_json json) ctx (set_current_inputs changeset ctx.input_manager))
  unfolding set_current_inputs
  changed-IsAtomic ctx changeset = ground arith

  set_current_input-IsAtomic :
      (ctx : Context) (args : J) → IsAtomic ctx (set_current_input json ctx args)
  unfolding set_current_input
  set_current_input-IsAtomic ctx args =
      or_thrown-IsAtomic ctx (changeset_of json ctx args) _ (changed-IsAtomic ctx)

  restart_input-IsAtomic : (ctx : Context) (args : J) → IsAtomic ctx (restart_input json ctx args)
  unfolding restart_input
  restart_input-IsAtomic ctx args =
      or_thrown-IsAtomic ctx (get_input_by_json json ctx args) _ (λ input. tt)

  set_config-IsAtomic : (ctx : Context) (args : J) → IsAtomic ctx (set_config json ctx args)
  unfolding set_config
  set_config-IsAtomic ctx args =
      if-elim (IsAtomic ctx) (json.find args ts_adjustment_word)
        (or_thrown-IsAtomic ctx (and_then (json.get args ts_adjustment_word) json.as_int64) _
          (λ value. tt))
        tt

  with_body-IsAtomic :
      (req : Request) (ctx : Context) (handler : Context → J → Result J × Context)
      → ((args : J) → IsAtomic ctx (handler ctx args))
      → IsAtomic ctx (with_body json has_dots req ctx handler)
  with_body-IsAtomic req ctx handler h =
      or_thrown-IsAtomic ctx (json.parse req.body) (handler ctx) h

  unchanged-IsAtomic : (ctx : Context) (r : Result J) → IsAtomic ctx (r, ctx)
  unchanged-IsAtomic ctx (returned j) = tt
  unchanged-IsAtomic ctx (thrown e) = refl

  serve-kept :
      (e : Endpoint) (req : Request) (ctx : Context)
      → IsKeptUnlessOk ctx (serve json has_dots e req ctx)
  unfolding serve
  serve-kept stats req ctx = tt
  serve-kept all_inputs req ctx =
      respond-kept ctx (json.dump_error req.body) _
        (unchanged-IsAtomic ctx (written json has_dots (get_all_inputs json ctx)))
  serve-kept current_input req ctx =
      respond-kept ctx (json.dump_error req.body) _
        (unchanged-IsAtomic ctx (written json has_dots (get_current_input json ctx)))
  serve-kept set_current req ctx =
      respond-kept ctx (json.dump_error req.body) _
        (with_body-IsAtomic req ctx (set_current_input json) (set_current_input-IsAtomic ctx))
  serve-kept restart req ctx =
      respond-kept ctx (json.dump_error req.body) _
        (with_body-IsAtomic req ctx (restart_input json) (restart_input-IsAtomic ctx))
  serve-kept config req ctx = tt
  serve-kept change_config req ctx =
      respond-kept ctx (json.dump_error req.body) _
        (with_body-IsAtomic req ctx (set_config json) (set_config-IsAtomic ctx))
  serve-kept nothing req ctx = refl

  pub respond-context : (dumps : Thrown → Bool) (r : Result J × Context) → (respond dumps r).1 ≡ r.1
  respond-context dumps (returned j, after) = refl
  respond-context dumps (thrown json_parse_error, after) = refl
  respond-context dumps (thrown json_type_error, after) = refl
  respond-context dumps (thrown json_out_of_range, after) = refl
  respond-context dumps (thrown invalid, after) = refl
  respond-context dumps (thrown logic_error, after) = refl

  serve-reads :
      (e : Endpoint) (req : Request) (ctx : Context)
      → is_writing e ≡ false
      → (serve json has_dots e req ctx).1 ≡ ctx
  unfolding serve
  serve-reads stats req ctx h = refl
  serve-reads all_inputs req ctx h =
      respond-context (json.dump_error req.body)
        (written json has_dots (get_all_inputs json ctx), ctx)
  serve-reads current_input req ctx h =
      respond-context (json.dump_error req.body)
        (written json has_dots (get_current_input json ctx), ctx)
  serve-reads set_current req ctx h = cc
  serve-reads restart req ctx h = cc
  serve-reads config req ctx h = refl
  serve-reads change_config req ctx h = cc
  serve-reads nothing req ctx h = refl

  unless_ok :
      (ctx : Context) (r : Response J × Context)
      → IsKeptUnlessOk ctx r
      → status r.0 ≢ 200
      → r.1 ≡ ctx
  unless_ok ctx (ok_response j, after) h n = absurd (n refl)
  unless_ok ctx (bad_request e, after) h n = h
  unless_ok ctx (illegal_target, after) h n = h
  unless_ok ctx (not_found, after) h n = h
  unless_ok ctx (server_error e, after) h n = h
  unless_ok ctx (escaped e, after) h n = h

  -- A request whose response is not 200, or that an exception leaves without a response, leaves the
  -- context as it was. A request that is no POST leaves it as it was whatever the response.
  pub handle_request-lem :
      (req : Request) (ctx : Context)
      → let (response, after) = handle_request json has_dots req ctx in
        (status response ≢ 200 → after ≡ ctx) × (is_post req.method ≡ false → after ≡ ctx)
  unfolding handle_request
  handle_request-lem req ctx =
      let illegal : Bool = not (is_absolute req.target) || has_dots req.target in
      let served = serve-kept (endpoint req) req ctx in
      (
        unless_ok ctx (handle_request json has_dots req ctx)
            (if-elim (IsKeptUnlessOk ctx) illegal refl served),
        λ h.
            if-elim (λ (r : Response J × Context). r.1 ≡ ctx) illegal refl
              (serve-reads (endpoint req) req ctx (get-reads req h)),
      )
