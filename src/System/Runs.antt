-- ===== src/System/Runs.antt =====
-- Runs of the program: every interleaving of its threads' steps from the context that main builds.
use metamix.Base.{◌<◌, ◌≡◌, refl, arith, some, none, []}
use metamix.Base.Int.{ℤ, pos, ◌+ℤ◌}
use metamix.Binary.Outcome.{ok}
use metamix.Clock.{TimeBase}
use metamix.InputManager.{AbstractInput, get_input_by_id, Effect}
use metamix.InputManager.Current.{IsValid}
use metamix.MetadataQueue.{comparator}
use metamix.MetadataQueue.Group.{StdHeaps}
use metamix.MetadataQueue.Heap.{IsStdHeap}
use metamix.Options.{ProgramOptions, start}
use metamix.Options.Start.{start-current}
use metamix.Proc.Controller.{Context}
use metamix.Proc.Injector.{Injection, Injected, inject_sei}
use metamix.Proc.Injector.Frames.{frame_time, IsServed, inject_sei-IsServed}
use metamix.Proc.Packet.{Packet, stamp}
use metamix.System.{main_context, started_context, Steps, IsTidy}
use metamix.System.Calls.{inject_sei-Steps}
use metamix.System.Soundness.{IsSound, IsQueued, Steps-IsSound, Steps-IsQueued}
use metamix.System.Capabilities.{uncapped, found_in_both}

-- main has started: the input manager has the inputs of the start and its current ones exist; the
-- queues are empty.
module _ (o : ProgramOptions) where
  begun :
      (effect : Effect) (first : Context)
      → IsValid effect.1
      → started_context o.output.ts_adjustment effect ≡ some first
      → IsSound first first × IsQueued first.input_manager.inputs first.meta_queue
  begun (some e, m) first valid started = cc
  begun (none, m) first valid started =
      let same : record {
        input_manager = m;
        meta_queue = record { sei = []; scte = [] };
        clock = pos 0;
        ts_adjustment = o.output.ts_adjustment;
        restarts = [];
      }
          ≡ first =
        cc in
      rw (← same) (
        record { same_inputs = refl; current = valid; forward = omega arith },
        record {
          sei_heap = λ i x y ex ey. cc;
          scte_heap = λ i x y ex ey. cc;
          sei_owned = refl;
          scte_owned = refl;
        },
      )

  main_begun :
      (first : Context)
      → main_context o ≡ some first
      → IsSound first first × IsQueued first.input_manager.inputs first.meta_queue
  unfolding main_context
  main_begun first started = begun (start o) first (start-current o) started

module _ (heaps : StdHeaps) (o : ProgramOptions) (first : Context)
    (started : main_context o ≡ some first) where
  pub run-IsSound : {s : Context} → Steps heaps first s → IsSound first s
  run-IsSound path = Steps-IsSound heaps (main_begun o first started).0 path

  module _ (sei_laws : IsStdHeap heaps.sei comparator)
      (scte_laws : IsStdHeap heaps.scte comparator) where
    -- With standard heap functions, and where main has started: whatever steps the threads interleave
    -- as long as each drop of an ended input's items happens to leave a heap, both queues are heaps,
    -- and every item in them is of a user input.
    pub run-IsQueued :
        {s : Context} (path : Steps heaps first s)
        → IsTidy path
        → IsQueued s.input_manager.inputs s.meta_queue
    run-IsQueued path tidy =
        Steps-IsQueued heaps sei_laws scte_laws path tidy (main_begun o first started).1

    -- With standard heap functions, and where main has started: in a context that the threads'
    -- interleaved steps lead to, where each drop of an ended input's items on the way happened to
    -- leave a heap, and on a packet whose adjusted time is not before the previous frame's end, the
    -- injector finds its current input, which is one of the start's, apart from capabilities, and
    -- serves the frame from it, as in Proc.Injector.Frames; and its call is a path of further steps.
    pub inject_sei-serves :
        (av_rescale_q : ℤ → TimeBase → TimeBase → ℤ) (pkt : Packet) (st : Injection) {s : Context}
        (path : Steps heaps first s)
        → IsTidy path
        → st.prev_pts < stamp (frame_time av_rescale_q heaps pkt s.ts_adjustment st +ℤ pos 1)
        → (input : AbstractInput) × (begin : AbstractInput) × (get_input_by_id
              s.input_manager.current_inputs_ids.sei s.input_manager.inputs
            ≡ some input)
          × (get_input_by_id s.input_manager.current_inputs_ids.sei first.input_manager.inputs
              ≡ some begin)
          × (uncapped begin ≡ uncapped input)
          × (r : Injected) × (inject_sei av_rescale_q heaps pkt s.ts_adjustment s.input_manager st
                s.meta_queue
              ≡ ok r)
          × IsServed av_rescale_q heaps pkt
              (stamp (frame_time av_rescale_q heaps pkt s.ts_adjustment st))
              (stamp (frame_time av_rescale_q heaps pkt s.ts_adjustment st +ℤ pos 1))
              input
              st
              s.meta_queue
              r
          × Steps heaps s (record s { meta_queue = r.queues })
    inject_sei-serves av_rescale_q pkt st {s} path tidy lt =
        let sound : IsSound first s = run-IsSound path in
        let queued = run-IsQueued path tidy in
        let (input, found, r, e, served) =
          inject_sei-IsServed av_rescale_q heaps sei_laws pkt s.ts_adjustment s.input_manager st
            s.meta_queue sound.current queued.sei_heap lt in
        let (begin, there, same) = found_in_both _ _ _ input sound.same_inputs found in
        (
          input,
          begin,
          found,
          there,
          same,
          r,
          e,
          served,
          inject_sei-Steps heaps av_rescale_q pkt st s r e,
        )
