-- ===== src/System/Requests.antt =====
-- Every call of a thread is a path of atomic steps: the requests of the REST interface, and all calls.
use metamix.Base.{ℕ, List, ◌≡◌, Bool, true, ◌||◌, not, inl, inr, Option, none, some}
use metamix.Base.Int.{ℤ, pos, ◌+ℤ◌}
use metamix.H264.StdSeis.{build_cc_reset_metadata}
use metamix.Binary.Outcome.{ok}
use metamix.Clock.{TimeBase, tick}
use metamix.InputManager.{
  AbstractInput, get_input_by_id, Inputs, is_accepted, exchanged, set_current_inputs,
}
use metamix.InputManager.Current.{set_current_inputs-cases}
use metamix.MetadataQueue.Group.{StdHeaps, drop_id_all}
use metamix.Proc.Controller.{
  Context, changed, ok_json, changeset_of, set_current_input, get_input_by_json, restart_input,
  set_config, or_thrown,
}
use metamix.Proc.Controller.Json.{
  Thrown, Result, returned, thrown, and_then, JsonLibrary, ts_adjustment_word,
}
use metamix.Proc.Controller.Requests.{
  Request, Response, is_absolute, respond, with_body, Endpoint, stats, all_inputs, current_input,
  set_current, restart, config, change_config, nothing, endpoint, serve, handle_request,
}
use metamix.Proc.Controller.Status.{if-elim, respond-context}
use metamix.Proc.Extractor.{Extraction, extract_sei, extract_scte, post_exit}
use metamix.Proc.Injector.{Injection, Injected, inject_sei, Ticking, tick_clock}
use metamix.Proc.Packet.{Packet, stamp}
use metamix.Scte35.Parser.Descriptors.{Compiler}
use metamix.System.{
  is_user_id, with_current, push_caption, drop_captions, drop_markers, select_sei, select_scte,
  flag_restarts, adjust, advance, Steps, here, next,
}
use metamix.System.Calls.{
  requeue, extracted, Steps-trans, inject_sei-Steps, extract_sei-IsSteps, extract_scte-IsSteps,
}

module _ (heaps : StdHeaps) where
  select_sei-Steps :
      (ctx : Context) (id : Option ℕ)
      → is_accepted id ctx.input_manager.inputs ≡ true
      → Steps heaps ctx (
          with_current ctx (record {
            sei = exchanged id ctx.input_manager.current_inputs_ids.sei;
            scte = ctx.input_manager.current_inputs_ids.scte;
          }))
  unfolding is_accepted
  select_sei-Steps ctx none h = here
  select_sei-Steps ctx (some id) h = next here (select_sei ctx id h)

  select_scte-Steps :
      (ctx : Context) (id : Option ℕ)
      → is_accepted id ctx.input_manager.inputs ≡ true
      → Steps heaps ctx (
          with_current ctx (record {
            sei = ctx.input_manager.current_inputs_ids.sei;
            scte = exchanged id ctx.input_manager.current_inputs_ids.scte;
          }))
  unfolding is_accepted
  select_scte-Steps ctx none h = here
  select_scte-Steps ctx (some id) h = next here (select_scte ctx id h)

  changed-Steps :
      {J : Type 0} (j : J) (ctx : Context) (changeset : Inputs (Option ℕ))
      → Steps heaps ctx (changed j ctx (set_current_inputs changeset ctx.input_manager)).1
  changed-Steps j ctx changeset = elim (set_current_inputs-cases changeset ctx.input_manager) [
    | inl (sei, scte, e) ↦ rw e (
        Steps-trans heaps (select_sei-Steps ctx changeset.sei sei)
          (select_scte-Steps (with_current ctx _) changeset.scte scte))
    | inr (_, e) ↦ rw e here
  ]

  module _ {J : Type 0} (json : JsonLibrary J) (has_dots : List ℕ → Bool) (ctx : Context) where
    or_thrown-Steps :
        {A : Type 0} (r : Result A) (f : A → Result J × Context)
        → ((a : A) → Steps heaps ctx (f a).1)
        → Steps heaps ctx (or_thrown json ctx r f).1
    or_thrown-Steps (returned a) f h = h a
    or_thrown-Steps (thrown e) f h = here

    respond-Steps :
        (dumps : Thrown → Bool) (r : Result J × Context)
        → Steps heaps ctx r.1
        → Steps heaps ctx (respond dumps r).1
    respond-Steps dumps r h = rw (respond-context json has_dots dumps r) h

    with_body-Steps :
        (req : Request) (handler : Context → J → Result J × Context)
        → ((args : J) → Steps heaps ctx (handler ctx args).1)
        → Steps heaps ctx
            (respond (json.dump_error req.body) (with_body json has_dots req ctx handler)).1
    with_body-Steps req handler h =
        respond-Steps (json.dump_error req.body) _
          (or_thrown-Steps (json.parse req.body) (handler ctx) h)

    serve-Steps : (e : Endpoint) (req : Request) → Steps heaps ctx (serve json has_dots e req ctx).1
    unfolding serve set_current_input restart_input set_config
    serve-Steps stats req = here
    serve-Steps all_inputs req = respond-Steps (json.dump_error req.body) _ here
    serve-Steps current_input req = respond-Steps (json.dump_error req.body) _ here
    serve-Steps set_current req =
        with_body-Steps req (set_current_input json) (λ args.
          or_thrown-Steps (changeset_of json ctx args) _ (changed-Steps (ok_json json) ctx))
    serve-Steps restart req = with_body-Steps req (restart_input json) (λ args.
        or_thrown-Steps (get_input_by_json json ctx args) _
          (λ input. next here (flag_restarts ctx _)))
    serve-Steps config req = here
    serve-Steps change_config req = with_body-Steps req (set_config json) (λ args.
        if-elim (λ (r : Result J × Context). Steps heaps ctx r.1)
          (json.find args ts_adjustment_word)
          (or_thrown-Steps (and_then (json.get args ts_adjustment_word) json.as_int64) _
            (λ value. next here (adjust ctx value)))
          here)
    serve-Steps nothing req = here

    handle_request-Steps :
        (req : Request) → Steps heaps ctx (handle_request json has_dots req ctx).1
    unfolding handle_request
    handle_request-Steps req =
        if-elim (λ (r : Response J × Context). Steps heaps ctx r.1)
          (not (is_absolute req.target) || has_dots req.target) here
          (serve-Steps (endpoint req) req)

-- What the threads call, each with a state of its own that a call may be in: the extractors of a
-- user input on a packet and at their end, the injector and its ticker on a packet, and the
-- controller on a request.
pub data Call (av_rescale_q : ℤ → TimeBase → TimeBase → ℤ) (heaps : StdHeaps) {J : Type 0}
    (json : JsonLibrary J) (has_dots : List ℕ → Bool) : Context → Context → Type 0 where
  sei_extraction :
      (ctx : Context) (id : ℕ) (pkt : Packet) (st : Extraction) (input : AbstractInput)
      → is_user_id ctx.input_manager.inputs id ≡ true
      → get_input_by_id id ctx.input_manager.inputs ≡ some input
      → st.caps ≡ input.caps
      → st.queues ≡ ctx.meta_queue
      → Call av_rescale_q heaps json has_dots ctx
          (extracted ctx id (extract_sei av_rescale_q heaps id pkt st).1)
  scte_extraction :
      (ctx : Context) (id : ℕ) (pkt : Packet) (c : Compiler) (st : Extraction)
      (input : AbstractInput)
      → is_user_id ctx.input_manager.inputs id ≡ true
      → get_input_by_id id ctx.input_manager.inputs ≡ some input
      → st.caps ≡ input.caps
      → st.queues ≡ ctx.meta_queue
      → Call av_rescale_q heaps json has_dots ctx
          (extracted ctx id (extract_scte av_rescale_q heaps id pkt c st).1)
  exit :
      (ctx : Context) (id : ℕ)
      → is_user_id ctx.input_manager.inputs id ≡ true
      → Call av_rescale_q heaps json has_dots ctx
          (requeue ctx (post_exit heaps id ctx.clock ctx.meta_queue))
  injection :
      (ctx : Context) (pkt : Packet) (st : Injection) (r : Injected)
      → inject_sei av_rescale_q heaps pkt ctx.ts_adjustment ctx.input_manager st ctx.meta_queue
        ≡ ok r
      → Call av_rescale_q heaps json has_dots ctx (requeue ctx r.queues)
  clock_tick :
      (ctx : Context) (pkt : Packet) (st : Ticking)
      → st.ticker.clock ≡ ctx.clock
      → Call av_rescale_q heaps json has_dots ctx
          (record ctx { clock = (tick_clock av_rescale_q pkt st).ticker.clock })
  request :
      (ctx : Context) (req : Request)
      → Call av_rescale_q heaps json has_dots ctx (handle_request json has_dots req ctx).1

-- Every call of a thread is a path of atomic steps: an extractor's on a packet, whatever it throws, and
-- at its end, the injector's and its ticker's on a packet that they get through, and the controller's on
-- a request, whatever it answers.
pub Call-IsSteps :
    {av_rescale_q : ℤ → TimeBase → TimeBase → ℤ} {heaps : StdHeaps} {J : Type 0}
    {json : JsonLibrary J} {has_dots : List ℕ → Bool} {s t : Context}
    → Call av_rescale_q heaps json has_dots s t
    → Steps heaps s t
unfolding post_exit drop_id_all tick_clock tick build_cc_reset_metadata
Call-IsSteps {av_rescale_q} {heaps} (sei_extraction ctx id pkt st input user found caps same) =
    extract_sei-IsSteps heaps av_rescale_q id pkt ctx user st input found caps same
Call-IsSteps {av_rescale_q} {heaps} (scte_extraction ctx id pkt c st input user found caps same) =
    extract_scte-IsSteps heaps av_rescale_q id pkt ctx user c st input found caps same
Call-IsSteps {heaps = heaps} (exit ctx id user) =
    let dropped : Context = requeue ctx (drop_id_all id ctx.meta_queue).1 in
    next (next (next here (drop_captions ctx id)) (drop_markers _ id))
      (push_caption dropped (build_cc_reset_metadata id (stamp (ctx.clock +ℤ pos 1))) user)
Call-IsSteps {av_rescale_q} {heaps} (injection ctx pkt st r e) =
    inject_sei-Steps heaps av_rescale_q pkt st ctx r e
Call-IsSteps (clock_tick ctx pkt st same) = rw same (next here (advance ctx _))
Call-IsSteps {heaps = heaps} {json = json} {has_dots = has_dots} (request ctx req) =
    handle_request-Steps heaps json has_dots ctx req
