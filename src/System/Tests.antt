-- ===== src/System/Tests.antt =====
-- A run of the threads: an input that is started with, a caption pushed, the clear input selected and
-- the clock advanced; then a frame is served, and the extractor's thread ends.
use metamix.Base.{true, ℕ, List, [], ◌∷◌, ◌≡◌, refl, Bool, false, none, some, arith}
use metamix.Base.Int.{ℤ, pos, ◌+ℤ◌, ◌-ℤ◌}
use metamix.Binary.Outcome.{ok}
use metamix.Clock.{TimeBase, clock_relative, rescale_to_clock}
use metamix.H264.Sei.{SeiPayload}
use metamix.InputManager.{
  InputSpec, AbstractInput, create, assign, assign_all, get_input_by_id, get_input_by_name, resolve,
  set_resolved, set_current_inputs, set_current_inputs_by_name, is_accepted, same_string,
}
use metamix.Inputs.{new_clear_input, new_user_defined_input}
use metamix.MetadataQueue.{Metadata, drop_id, remove_if}
use metamix.MetadataQueue.Group.{StdHeaps, push_sei}
use metamix.MetadataQueue.Sorted.{sorted_heap, sorted_heap-IsStdHeap}
use metamix.Options.{ProgramOptions, start, make_inputs, number_inputs, user_defined_inputs}
use metamix.Proc.Controller.{Context}
use metamix.Proc.Controller.Json.{JsonLibrary, returned}
use metamix.Proc.Extractor.{post_exit}
use metamix.Proc.Injector.{Injection, Injected, inject_sei}
use metamix.Proc.Injector.Frames.{frame_time, IsServed}
use metamix.Proc.Packet.{Packet, stamp}
use metamix.System.{main_context, push_caption, drop_captions, Steps, here, next, IsTidy}
use metamix.System.Calls.{requeue}
use metamix.System.Requests.{Call, exit, Call-IsSteps}
use metamix.System.Runs.{run-IsQueued, inject_sei-serves}
use metamix.System.Capabilities.{uncapped}
use metamix.System.Soundness.{IsQueued}

abbrev news : InputSpec
news = record {
  id = 0;
  name = b'n' ∷ [];
  source = b'u' ∷ [];
  sink = b'u' ∷ [];
  source_format = none;
  sink_format = none;
  is_virtual = false;
}

abbrev options : ProgramOptions
options = record {
  user_inputs = news ∷ [];
  output = record {
    source = b'o' ∷ [];
    sink = b'o' ∷ [];
    source_format = none;
    sink_format = none;
    ts_adjustment = pos 0;
  };
  start_input_name = some (b'n' ∷ []);
}

abbrev heaps : StdHeaps
heaps = record { sei = sorted_heap; scte = sorted_heap }

abbrev caption : Metadata SeiPayload
caption = record {
  input_id = 1;
  pts = stamp (pos 3);
  dts = stamp (pos 3);
  order = 2_147_483_648;
  val = record { payload_type = 4; bytes = 7 ∷ [] };
}

-- What main builds: the input that is started with is current for both kinds.
abbrev first : Context
first = record {
  input_manager = record {
    current_inputs_ids = record { sei = 1; scte = 1 };
    inputs = (0, new_clear_input 0) ∷ (1, new_user_defined_input (record news { id = 1 })) ∷ [];
  };
  meta_queue = record { sei = []; scte = [] };
  clock = pos 0;
  ts_adjustment = pos 0;
  restarts = [];
}

started : main_context options ≡ some first
unfolding main_context start make_inputs number_inputs user_defined_inputs new_clear_input
    new_user_defined_input create assign assign_all get_input_by_id get_input_by_name
    set_current_inputs_by_name resolve set_resolved set_current_inputs is_accepted same_string
started = refl

abbrev pushed : Context
pushed = record first { meta_queue = push_sei heaps first.meta_queue caption }

-- The items of input 1 are dropped, of which there are none, and then one is pushed.
pushed-Steps : Steps heaps first pushed
unfolding get_input_by_id new_user_defined_input drop_id remove_if
pushed-Steps = next (next here (drop_captions first 1)) (push_caption first caption refl)

pushed-IsTidy : IsTidy pushed-Steps
unfolding pushed-Steps drop_id remove_if
pushed-IsTidy = ((tt, λ i x y ex ey. cc), tt)

pushed-IsQueued : IsQueued pushed.input_manager.inputs pushed.meta_queue
pushed-IsQueued =
    run-IsQueued heaps options first started sorted_heap-IsStdHeap sorted_heap-IsStdHeap
      pushed-Steps pushed-IsTidy

abbrev same_base : ℤ → TimeBase → TimeBase → ℤ
same_base a bq cq = a

abbrev clock_base : TimeBase
clock_base = record { num = 1; den = 90_000 }

abbrev injection : Injection
injection = record {
  pts_rescaler = clock_relative (pos 0) clock_base clock_base;
  prev_pts = 0;
  prev_input_id = none;
}

abbrev packet : Packet
packet = record { bytes = []; pts = pos 7; dts = pos 7 }

inject_sei-serves_example :
    (input : AbstractInput) × (begin : AbstractInput) × (get_input_by_id 1
        pushed.input_manager.inputs
      ≡ some input)
    × (get_input_by_id 1 first.input_manager.inputs ≡ some begin)
    × (uncapped begin ≡ uncapped input)
    × (r : Injected) × (inject_sei same_base heaps packet pushed.ts_adjustment pushed.input_manager
          injection pushed.meta_queue
        ≡ ok r)
    × IsServed same_base heaps packet
        (stamp (frame_time same_base heaps packet pushed.ts_adjustment injection))
        (stamp (frame_time same_base heaps packet pushed.ts_adjustment injection +ℤ pos 1))
        input
        injection
        pushed.meta_queue
        r
    × Steps heaps pushed (record pushed { meta_queue = r.queues })
unfolding rescale_to_clock ◌+ℤ◌ ◌-ℤ◌
inject_sei-serves_example =
    inject_sei-serves heaps options first started sorted_heap-IsStdHeap sorted_heap-IsStdHeap
      same_base packet injection pushed-Steps pushed-IsTidy (omega arith)

abbrev numbers : JsonLibrary ℕ
numbers = record {
  parse = λ s. returned 1;
  find = λ j key. false;
  get = λ j key. returned j;
  as_string = λ j. returned [];
  as_id = λ j. returned j;
  as_int64 = λ j. returned (pos j);
  of_id = λ n. n;
  of_int = λ x. 0;
  of_bool = λ b. 0;
  of_string = λ s. 0;
  object = λ ms. 0;
  pushed = λ js. 0;
  dump = λ j. true;
  dump_error = λ body e. true;
}

abbrev no_dots : List ℕ → Bool
no_dots s = false

-- The extractor of the input ends with its caption in the queue.
ended :
    Call same_base heaps numbers no_dots pushed
      (requeue pushed (post_exit heaps 1 pushed.clock pushed.meta_queue))
unfolding get_input_by_id new_user_defined_input
ended = exit pushed 1 refl

Call-IsSteps_example :
    Steps heaps pushed (requeue pushed (post_exit heaps 1 pushed.clock pushed.meta_queue))
Call-IsSteps_example = Call-IsSteps ended
