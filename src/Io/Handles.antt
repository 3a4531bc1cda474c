-- ===== src/Io/Handles.antt =====
-- src/io/source_handle.cpp, sink_handle.cpp and io_handle.h, and how the threads of src/proc use the
-- handles: open both, copy the streams, classify, start, run the loop, and destroy the handles. FFmpeg
-- is a parameter over a state `W` of its own, with contexts `C`; its calls answer whether they
-- succeeded. A handle's `fmt_ctx` is null before it is opened.
pub mod Account
mod Opened
mod Opening
pub mod Settled
mod Tests
use metamix.Base.{ℕ, List, [], ◌∷◌, Bool, true, false, not, Option, none, some}
use metamix.Binary.Outcome.{Outcome, ok, parse_error, runtime_error, fault}
use metamix.Base.Int.{pos}
use metamix.Io.Streams.{StreamClassification, Codec, classify_streams, require}
use metamix.Io.RemuxLoop.{
  Read, Environment, LoopState, Ending, eof, user_break, thrown, Round, running, stopped, loop,
}

-- The calls of libavformat and libavcodec.
pub record Ffmpeg (W C : Type 0) : Type 0 where
  pub avformat_alloc_context : W → Option C × W
  pub av_find_input_format : List ℕ → W → Bool
  pub avformat_open_input : C → List ℕ → W → Bool × W
  pub avformat_find_stream_info : C → W → Bool × W
  pub avformat_alloc_output_context2 : Option (List ℕ) → List ℕ → W → Option C × W
  pub has_nofile_flag : C → W → Bool
  pub avio_open : C → List ℕ → W → Bool × W
  pub codecs : C → W → List Codec
  pub is_mpegts : C → W → Bool
  pub av_find_best_stream : C → W → Option ℕ
  pub avformat_new_stream : C → W → Bool × W
  pub avcodec_parameters_copy : Codec → C → W → Bool × W
  pub avformat_write_header : C → W → Bool × W
  pub av_write_trailer : C → W → W
  pub avformat_close_input : C → W → W

-- How a step of a thread ends; `in_loop` if the loop waits for more packets than the model was given.
pub data StepEnd : Type 0 where
  done threw in_loop : StepEnd

-- The two handles of a thread, FFmpeg's state, and the state of the processors.
pub record Session (W C P : Type 0) : Type 0 where
  pub source : Option C
  pub sink : Option C
  pub should_write_trailer : Bool
  pub world : W
  pub procs : P

-- A name, a URL and an optional format of InputSpec or OutputSpec, for each handle.
pub record Endpoints : Type 0 where
  pub source_url : List ℕ
  pub source_format : Option (List ℕ)
  pub sink_url : List ℕ
  pub sink_format : Option (List ℕ)

module _ {W C P : Type 0} where
  -- The next step, unless an exception leaves this one.
  abbrev pub then_step :
      StepEnd × Session W C P → (Session W C P → StepEnd × Session W C P) → StepEnd × Session W C P
  then_step (done, s) next = next s
  then_step (threw, s) next = (threw, s)
  then_step (in_loop, s) next = (in_loop, s)

  -- The end of a step that has opened `ctx` for a handle, or not.
  abbrev pub opened_source : Session W C P → C → Bool × W → StepEnd × Session W C P
  opened_source s ctx (true, w) = (done, record s { source = some ctx; world = w })
  opened_source s ctx (false, w) = (threw, record s { world = w })

  abbrev pub opened_sink : Session W C P → C → Bool × W → StepEnd × Session W C P
  opened_sink s ctx (true, w) = (done, record s { sink = some ctx; world = w })
  opened_sink s ctx (false, w) = (threw, record s { world = w })

  -- `e < 0` throws.
  abbrev pub unless_failed :
      Session W C P → Bool × W → (W → StepEnd × Session W C P) → StepEnd × Session W C P
  unless_failed s (true, w) next = next w
  unless_failed s (false, w) next = (threw, record s { world = w })

  abbrev pub checked : {A : Type 0} → Session W C P → Outcome A → StepEnd × Session W C P
  checked s (ok a) = (done, s)
  checked s (parse_error e) = (threw, s)
  checked s runtime_error = (threw, s)
  checked s fault = (threw, s)

  -- Handles that are not open yet.
  abbrev pub fresh : W → P → Session W C P
  fresh w p = record {
    source = none;
    sink = none;
    should_write_trailer = false;
    world = w;
    procs = p;
  }

  -- A step on the contexts of both handles. They are null only before `open`.
  abbrev pub with_contexts :
      (C → C → Session W C P → StepEnd × Session W C P)
      → Option C
      → Option C
      → Session W C P
      → StepEnd × Session W C P
  with_contexts f none sink s = (threw, s)
  with_contexts f (some source) none s = (threw, s)
  with_contexts f (some source) (some sink) s = f source sink s

  -- How remux_loop returns or throws.
  abbrev pub loop_end : Session W C P → Round W P → StepEnd × Session W C P
  loop_end s (running last) = (in_loop, record s { world = last.sink; procs = last.procs })
  loop_end s (stopped eof last) = (done, record s { world = last.sink; procs = last.procs })
  loop_end s (stopped user_break last) = (done, record s { world = last.sink; procs = last.procs })
  loop_end s (stopped thrown last) = (threw, record s { world = last.sink; procs = last.procs })

module _ {W C : Type 0} (ff : Ffmpeg W C) where
  -- Whether the format, if one is given, is known.
  abbrev pub is_known_format : Option (List ℕ) → W → Bool
  is_known_format none w = true
  is_known_format (some name) w = ff.av_find_input_format name w

  -- unique_ptr's destructor with AVFormatContextDeleter
  abbrev pub free_context : Option C → W → W
  free_context none w = w
  free_context (some ctx) w = ff.avformat_close_input ctx w

  -- The trailer of SinkHandle's destructor.
  abbrev pub write_trailer : Bool → Option C → W → W
  write_trailer true (some ctx) w = ff.av_write_trailer ctx w
  write_trailer true none w = w
  write_trailer false ctx w = w

module _ {W C P : Type 0} (ff : Ffmpeg W C) where
  unfoldable pub find_info : Session W C P → C → Bool × W → StepEnd × Session W C P
  find_info s ctx r =
      unless_failed s r λ w. opened_source s ctx (ff.avformat_find_stream_info ctx w)

  unfoldable pub open_allocated : Endpoints → Session W C P → Option C × W → StepEnd × Session W C P
  open_allocated ends s (none, w) = (threw, record s { world = w })
  open_allocated ends s (some ctx, w) = elim (is_known_format ff ends.source_format w) [
    | true ↦ find_info s ctx (ff.avformat_open_input ctx ends.source_url w)
    | false ↦ (threw, record s { world = w })
  ]

  -- SourceHandle::open
  unfoldable pub open_source : Endpoints → Session W C P → StepEnd × Session W C P
  open_source ends s = open_allocated ends s (ff.avformat_alloc_context s.world)

  unfoldable pub open_file : Endpoints → Session W C P → Option C × W → StepEnd × Session W C P
  open_file ends s (none, w) = (threw, record s { world = w })
  open_file ends s (some ctx, w) = elim (ff.has_nofile_flag ctx w) [
    | true ↦ (done, record s { sink = some ctx; world = w })
    | false ↦ opened_sink s ctx (ff.avio_open ctx ends.sink_url w)
  ]

  -- SinkHandle::open
  unfoldable pub open_sink : Endpoints → Session W C P → StepEnd × Session W C P
  open_sink ends s =
      open_file ends s (ff.avformat_alloc_output_context2 ends.sink_format ends.sink_url s.world)

  -- source.open and sink.open
  unfoldable pub open_handles : Endpoints → Session W C P → StepEnd × Session W C P
  open_handles ends s = then_step (open_source ends s) (open_sink ends)

  -- The loop of SinkHandle::init_remuxing over the source's streams.
  unfoldable pub copy_streams : C → List Codec → Session W C P → StepEnd × Session W C P
  copy_streams ctx [] s = (done, s)
  copy_streams ctx (codec ∷ codecs) s = unless_failed s (ff.avformat_new_stream ctx s.world) λ w.
      unless_failed s (ff.avcodec_parameters_copy codec ctx w)
        λ w'. copy_streams ctx codecs (record s { world = w' })

  -- SinkHandle::init_remuxing
  unfoldable pub init_remuxing : C → C → Session W C P → StepEnd × Session W C P
  init_remuxing source sink s = copy_streams sink (ff.codecs source s.world) s

  -- SinkHandle::start
  unfoldable pub start_sink : C → Session W C P → StepEnd × Session W C P
  start_sink sink s =
      unless_failed s (ff.avformat_write_header sink s.world)
        λ w. (done, record s { should_write_trailer = true; world = w })

  module _ (env : Environment W P) (reads : List Read) where
    -- remux_loop, on the packets that the source gives.
    unfoldable pub remux_loop : StreamClassification → Session W C P → StepEnd × Session W C P
    remux_loop sc s = loop_end s (
        loop env sc reads
          (record { read_trial = 0; remux_trial = 0; sink = s.world; procs = s.procs }))

    -- sc.require, sink.start and remux_loop.
    unfoldable pub run_classified :
        C → StreamClassification → Session W C P → StepEnd × Session W C P
    run_classified sink sc s =
        then_step (checked s (require sc.time_source))
          λ s. then_step (start_sink sink s) (remux_loop sc)

    unfoldable pub run_streams :
        C → Outcome StreamClassification → Session W C P → StepEnd × Session W C P
    run_streams sink (ok sc) s = run_classified sink sc s
    run_streams sink (parse_error e) s = (threw, s)
    run_streams sink runtime_error s = (threw, s)
    run_streams sink fault s = (threw, s)

    -- The steps from sink.init_remuxing on.
    unfoldable pub run_opened : C → C → Session W C P → StepEnd × Session W C P
    run_opened source sink s = then_step (init_remuxing source sink s) λ s.
        run_streams sink
          (classify_streams (ff.is_mpegts source s.world) (ff.codecs source s.world)
            (ff.av_find_best_stream source s.world))
          s

    -- The body of the functions extractor and injector, behind the handles' declarations.
    unfoldable pub run_session : Endpoints → Session W C P → StepEnd × Session W C P
    run_session ends s =
        then_step (open_handles ends s) λ s. with_contexts run_opened s.source s.sink s

  -- The destructors: of the source, which was declared last, and then of the sink.
  unfoldable pub destroy_handles : Session W C P → Session W C P
  destroy_handles s = record s {
    source = none;
    sink = none;
    should_write_trailer = false;
    world =
        free_context ff s.sink
          (write_trailer ff s.should_write_trailer s.sink (free_context ff s.source s.world));
  }

  abbrev pub closed : StepEnd × Session W C P → StepEnd × Session W C P
  closed (done, s) = (done, destroy_handles s)
  closed (threw, s) = (threw, destroy_handles s)
  closed (in_loop, s) = (in_loop, s)

  -- A thread's function from the declarations of its handles to their destructors.
  unfoldable pub session : Environment W P → List Read → Endpoints → W → P → StepEnd × Session W C P
  session env reads ends w p = closed (run_session env reads ends (fresh w p))
