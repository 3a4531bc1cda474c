-- ===== src/System/Calls.antt =====
-- A call of a thread, run on the shared context, is a path of atomic steps.
use metamix.Base.{ℕ, List, [], ◌∷◌, ◌≡◌, true, not, ◌∙◌, Option, some, ◌++◌, ◌==◌}
use metamix.Base.Int.{ℤ, pos, ◌+ℤ◌, ◌-ℤ◌}
use metamix.Binary.Outcome.{Outcome, ok, parse_error, runtime_error, fault, bind-eq-ok}
use metamix.Clock.{TimeBase, TsRescaler, rescale_to_clock}
use metamix.H264.Nalu.{is_valid, nalu_type, sei_nalu}
use metamix.H264.Rbsp.{copy_ebsp_to_sodb}
use metamix.H264.Sei.{SeiPayload, user_data_registered}
use metamix.InputManager.{
  AbstractInput, InputClass, user_defined_input, clear_input, get_current_sei_input,
  get_input_by_id, InputCapabilities,
}
use metamix.Inputs.{query_sei, run_query_sei, or_empty, if_any, frame_end}
use metamix.MetadataQueue.{Metadata, pop_all}
use metamix.MetadataQueue.Group.{QueueGroup, StdHeaps, pop_all_sei}
use metamix.Proc.Controller.{Context}
use metamix.Proc.Injector.{
  Injection, Injected, inject, inject_sei, or_unchanged, remux, reset_if_changed,
}
use metamix.Proc.Controller.Status.{if-elim}
use metamix.Proc.Extractor.{
  Extraction, unless_thrown, tagged, push_captions, push_sodb, process_nalu, process_nalus,
  extract_sei, push_section, push_sections, extract_scte, post_exit,
}
use metamix.Proc.Extractor
use metamix.Scte35.Types.{SpliceInfoSection}
use metamix.Scte35.Parser.Descriptors.{Compiler}
use metamix.Proc.Packet.{Packet, stamp}
use metamix.System.Capabilities.{declared_again, is_user_id-declared, declared-found}
use metamix.System.{
  declared, with_inputs, with_sei_capability, with_scte_capability, declare_sei, declare_scte,
  is_user_id, push_caption, push_marker, pop_captions, Steps, here, next,
}

abbrev pub requeue : Context → QueueGroup → Context
requeue ctx g = record ctx { meta_queue = g }

-- What an extraction leaves of the context: the queues, and the capabilities of its input.
abbrev pub extracted : Context → ℕ → Extraction → Context
extracted ctx id st =
    requeue (with_inputs ctx (declared (λ _. st.caps) id ctx.input_manager.inputs)) st.queues

module _ (heaps : StdHeaps) where
  pub Steps-trans : {r s t : Context} → Steps heaps r s → Steps heaps s t → Steps heaps r t
  Steps-trans p here = p
  Steps-trans p (next q step) = next (Steps-trans p q) step

  pop-Steps :
      (s : Context) (id since until : ℕ) (r : List (Metadata SeiPayload) × QueueGroup)
      → pop_all_sei heaps id since until s.meta_queue ≡ ok r
      → Steps heaps s (requeue s r.1)
  unfolding pop_all_sei
  pop-Steps s id since until r e =
      let ((out, left), popped, same) =
        bind-eq-ok (pop_all heaps.sei id since until s.meta_queue.sei)
          (λ (out, left). ok (out, record s.meta_queue { sei = left })) e in
      let left-eq : record s.meta_queue { sei = left } ≡ r.1 = cc in
      rw (← left-eq) (next here (pop_captions s id since until popped))

  query-Steps :
      (c : InputClass) (s : Context) (input : AbstractInput) (since until : ℕ)
      (r : Option (List (Metadata SeiPayload)) × QueueGroup)
      → run_query_sei heaps c input.spec.id since until s.meta_queue ≡ ok r
      → Steps heaps s (requeue s r.1)
  unfolding run_query_sei
  query-Steps user_defined_input s input since until r e =
      let id : ℕ = input.spec.id in
      let ((v, left), popped, same) =
        bind-eq-ok (pop_all_sei heaps id since until s.meta_queue)
          (λ (v, left). ok (if_any v, left)) e in
      let left-eq : left ≡ r.1 = cc in rw (← left-eq) (pop-Steps s id since until (v, left) popped)
  query-Steps clear_input s input since until r e =
      let left-eq : s.meta_queue ≡ r.1 = cc in rw (← left-eq) here

  query_sei-Steps :
      (s : Context) (input : AbstractInput) (since until : ℕ)
      (r : List (Metadata SeiPayload) × QueueGroup)
      → query_sei heaps input since until s.meta_queue ≡ ok r
      → Steps heaps s (requeue s r.1)
  unfolding query_sei
  query_sei-Steps s input since until r e =
      let ((v, left), queried, same) =
        bind-eq-ok (run_query_sei heaps input.input_class input.spec.id since until s.meta_queue)
          (λ (v, left). ok (or_empty input.spec.id (frame_end since until) v, left)) e in
      let left-eq : left ≡ r.1 = cc in
      rw (← left-eq) (query-Steps input.input_class s input since until (v, left) queried)

  module _ (av_rescale_q : ℤ → TimeBase → TimeBase → ℤ) (pkt : Packet) (st : Injection)
      (s : Context) (r : Injected) where
    inject-Steps :
        (rescaled_pts : ℤ) (rescaler : TsRescaler) (input : AbstractInput)
        → inject av_rescale_q heaps pkt rescaled_pts rescaler st input s.meta_queue ≡ ok r
        → Steps heaps s (requeue s r.queues)
    unfolding inject
    inject-Steps rescaled_pts rescaler input e =
        let until : ℕ = stamp (rescaled_pts +ℤ pos 1) in
        let id : ℕ = input.spec.id in
        let ((queried, left), answered, done) =
          bind-eq-ok (query_sei heaps input st.prev_pts until s.meta_queue)
            (λ (queried, left). ok (record {
              bytes = or_unchanged pkt.bytes (
                  remux (reset_if_changed id (stamp rescaled_pts) st.prev_input_id ++ queried)
                    pkt.bytes);
              state = record { pts_rescaler = rescaler; prev_pts = until; prev_input_id = some id };
              queues = left;
            }))
            e in
        let left-eq : left ≡ r.queues = cc in
        rw (← left-eq) (query_sei-Steps s input st.prev_pts until (queried, left) answered)

    -- SeiInjector::process is the pop of its query, or no step.
    pub inject_sei-Steps :
        inject_sei av_rescale_q heaps pkt s.ts_adjustment s.input_manager st s.meta_queue ≡ ok r
        → Steps heaps s (requeue s r.queues)
    unfolding inject_sei
    inject_sei-Steps e =
        let rescaled_pts : ℤ =
          (rescale_to_clock av_rescale_q st.pts_rescaler pkt.pts).0 -ℤ s.ts_adjustment in
        let rescaler : TsRescaler = (rescale_to_clock av_rescale_q st.pts_rescaler pkt.pts).1 in
        let (input, current, injected) =
          bind-eq-ok (get_current_sei_input s.input_manager)
            (λ input. inject av_rescale_q heaps pkt rescaled_pts rescaler st input s.meta_queue)
            e in
        inject-Steps rescaled_pts rescaler input injected

  -- The pushes of an extractor, on an extraction whose queues are those of the context.
  module _ (av_rescale_q : ℤ → TimeBase → TimeBase → ℤ) (id : ℕ) (pkt : Packet) (s : Context)
      (user : is_user_id s.input_manager.inputs id ≡ true) where
    abbrev IsSteps : Extraction → Type 0
    IsSteps st = Steps heaps s (extracted s id st)

    user_after : (st : Extraction) → is_user_id (extracted s id st).input_manager.inputs id ≡ true
    user_after st = is_user_id-declared (λ _. st.caps) id s.input_manager.inputs id ∙ user

    push_caption-IsSteps :
        (order : ℕ) (sei : SeiPayload) (st : Extraction)
        → IsSteps st
        → IsSteps (Extractor.push_caption av_rescale_q heaps id pkt order sei st)
    unfolding Extractor.push_caption
    push_caption-IsSteps order sei st h =
        let caps : InputCapabilities = with_sei_capability st.caps in
        let declaring : Steps heaps s (extracted s id (record st { caps = caps })) =
          rw (declared_again with_sei_capability id st.caps s.input_manager.inputs) at
            (next h (declare_sei (extracted s id st) id)) in
        next declaring (
          push_caption (extracted s id (record st { caps = caps }))
            (tagged av_rescale_q heaps id pkt st order sei)
            (user_after (record st { caps = caps })))

    push_section-IsSteps :
        (section : SpliceInfoSection) (st : Extraction)
        → IsSteps st
        → IsSteps (push_section av_rescale_q heaps id pkt section st)
    unfolding push_section
    push_section-IsSteps section st h =
        let caps : InputCapabilities = with_scte_capability st.caps in
        let declaring : Steps heaps s (extracted s id (record st { caps = caps })) =
          rw (declared_again with_scte_capability id st.caps s.input_manager.inputs) at
            (next h (declare_scte (extracted s id st) id)) in
        next declaring (
          push_marker (extracted s id (record st { caps = caps }))
            (tagged av_rescale_q heaps id pkt st 0 section)
            (user_after (record st { caps = caps })))

    -- An extraction that has done nothing yet: the queues and the input's capabilities are those of
    -- the context.
    untouched :
        (st : Extraction) (input : AbstractInput)
        → get_input_by_id id s.input_manager.inputs ≡ some input
        → st.caps ≡ input.caps
        → st.queues ≡ s.meta_queue
        → IsSteps st
    untouched st input found caps same =
        rw (caps, same, declared-found id s.input_manager.inputs input found) here

    push_captions-IsSteps :
        (seis : List SeiPayload) (t : ℕ × Extraction)
        → IsSteps t.1
        → IsSteps (push_captions av_rescale_q heaps id pkt seis t).1
    unfolding push_captions
    push_captions-IsSteps [] t h = h
    push_captions-IsSteps (sei ∷ seis) (order, st) h = push_captions-IsSteps seis _ (
        if-elim (λ (t : ℕ × Extraction). IsSteps t.1) (sei.payload_type == user_data_registered)
          (push_caption-IsSteps order sei st h) h)

    push_sodb-IsSteps :
        (sodb : Outcome (List ℕ)) (order : ℕ) (st : Extraction)
        → IsSteps st
        → IsSteps (push_sodb av_rescale_q heaps id pkt sodb (order, st)).1.1
    unfolding push_sodb
    push_sodb-IsSteps (ok sodb) order st h = push_captions-IsSteps _ (order, st) h
    push_sodb-IsSteps (parse_error e) order st h = h
    push_sodb-IsSteps runtime_error order st h = h
    push_sodb-IsSteps fault order st h = h

    process_nalu-IsSteps :
        (nalu : List ℕ) (order : ℕ) (st : Extraction)
        → IsSteps st
        → IsSteps (process_nalu av_rescale_q heaps id pkt nalu (order, st)).1.1
    unfolding process_nalu
    process_nalu-IsSteps nalu order st h =
        if-elim (λ (r : Outcome (Unit {0}) × (ℕ × Extraction)). IsSteps r.1.1) (not (is_valid nalu))
          h
          (if-elim (λ (r : Outcome (Unit {0}) × (ℕ × Extraction)). IsSteps r.1.1)
            (nalu_type nalu == sei_nalu) (push_sodb-IsSteps (copy_ebsp_to_sodb nalu) order st h) h)

    unless_thrown-IsSteps :
        (r : Outcome (Unit {0}) × (ℕ × Extraction))
        (f : ℕ × Extraction → Outcome (Unit {0}) × (ℕ × Extraction))
        → IsSteps r.1.1
        → ((t : ℕ × Extraction) → IsSteps t.1 → IsSteps (f t).1.1)
        → IsSteps (unless_thrown r f).1.1
    unless_thrown-IsSteps (ok u, t) f h k = k t h
    unless_thrown-IsSteps (parse_error e, t) f h k = h
    unless_thrown-IsSteps (runtime_error, t) f h k = h
    unless_thrown-IsSteps (fault, t) f h k = h

    process_nalus-IsSteps :
        (nalus : List (List ℕ)) (ended : Outcome (Unit {0})) (t : ℕ × Extraction)
        → IsSteps t.1
        → IsSteps (process_nalus av_rescale_q heaps id pkt nalus ended t).1.1
    unfolding process_nalus
    process_nalus-IsSteps [] ended t h = h
    process_nalus-IsSteps (nalu ∷ nalus) ended (order, st) h =
        unless_thrown-IsSteps (process_nalu av_rescale_q heaps id pkt nalu (order, st)) _
          (process_nalu-IsSteps nalu order st h) (process_nalus-IsSteps nalus ended)

    -- SeiExtractor::process is a path of declarations and pushes, whatever it throws.
    pub extract_sei-IsSteps :
        (st : Extraction) (input : AbstractInput)
        → get_input_by_id id s.input_manager.inputs ≡ some input
        → st.caps ≡ input.caps
        → st.queues ≡ s.meta_queue
        → IsSteps (extract_sei av_rescale_q heaps id pkt st).1
    unfolding extract_sei
    extract_sei-IsSteps st input found caps same =
        process_nalus-IsSteps _ _ (0, st) (untouched st input found caps same)

    push_sections-IsSteps :
        (sections : List SpliceInfoSection) (st : Extraction)
        → IsSteps st
        → IsSteps (push_sections av_rescale_q heaps id pkt sections st)
    unfolding push_sections
    push_sections-IsSteps [] st h = h
    push_sections-IsSteps (section ∷ sections) st h =
        push_sections-IsSteps sections (push_section av_rescale_q heaps id pkt section st)
          (push_section-IsSteps section st h)

    -- ScteExtractor::process is a path of declarations and pushes, whatever it throws.
    pub extract_scte-IsSteps :
        (c : Compiler) (st : Extraction) (input : AbstractInput)
        → get_input_by_id id s.input_manager.inputs ≡ some input
        → st.caps ≡ input.caps
        → st.queues ≡ s.meta_queue
        → IsSteps (extract_scte av_rescale_q heaps id pkt c st).1
    unfolding extract_scte
    extract_scte-IsSteps c st input found caps same =
        push_sections-IsSteps _ st (untouched st input found caps same)
