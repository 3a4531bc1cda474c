-- ===== src/Io/Handles/Opened.antt =====
-- From open handles to the end of the loop: whatever throws, the handles hold all that is allocated.
use metamix.Base.{
  suc, List, [], ◌∷◌, ◌≡◌, ◌∙◌, Bool, true, false, Option, none, some, arith, if◌then◌else◌,
}
use metamix.Binary.Outcome.{Outcome, ok, parse_error, runtime_error, fault}
use metamix.Io.Streams.{StreamClassification, Codec, require}
use metamix.Io.RemuxLoop.{Read, Environment, eof, user_break, thrown, Round, running, stopped}
use metamix.Io.Handles.{
  Ffmpeg, StepEnd, done, threw, in_loop, Session, unless_failed, checked, then_step, copy_streams,
  init_remuxing, start_sink, loop_end, remux_loop, run_classified, run_streams, run_opened,
  with_contexts,
}
use metamix.Io.Handles.Account.{
  Account, flag, sink_of, IsBalanced, IsUnstarted, IsFfmpeg, loop-account,
}

module _ {W C P : Type 0} (ff : Ffmpeg W C) (env : Environment W P) (account : W → Account) where
  module _ (laws : IsFfmpeg ff env account) (base : Account) where
    then_step-After :
        (A B : Session W C P → Type 0) (r : StepEnd × Session W C P)
        (f : Session W C P → StepEnd × Session W C P)
        → A r.1
        → ((s : Session W C P) → A s → B s)
        → ((s : Session W C P) → A s → B (f s).1)
        → B (then_step r f).1
    then_step-After A B (done, s) f h out k = k s h
    then_step-After A B (threw, s) f h out k = out s h
    then_step-After A B (in_loop, s) f h out k = out s h

    balanced : (s : Session W C P) → IsUnstarted account base s → IsBalanced account 0 base s
    balanced s h = h.0

    -- A call that leaves the account alone.
    unless_failed-IsUnstarted :
        (s : Session W C P) (r : Bool × W) (f : W → StepEnd × Session W C P)
        → IsUnstarted account base s
        → account r.1 ≡ account s.world
        → ((w : W) → account w ≡ account s.world → IsUnstarted account base (f w).1)
        → IsUnstarted account base (unless_failed s r f).1
    unless_failed-IsUnstarted s (true, w) f h e k = k w e
    unless_failed-IsUnstarted s (false, w) f h e k = rw e h

    copy_streams-IsUnstarted :
        (sink : C) (codecs : List Codec) (s : Session W C P)
        → IsUnstarted account base s
        → IsUnstarted account base (copy_streams ff sink codecs s).1
    unfolding copy_streams
    copy_streams-IsUnstarted sink [] s h = h
    copy_streams-IsUnstarted sink (codec ∷ codecs) s h =
        unless_failed-IsUnstarted s (ff.avformat_new_stream sink s.world) _ h
          (laws.new_stream sink s.world)
          (λ w e.
            unless_failed-IsUnstarted s (ff.avcodec_parameters_copy codec sink w) _ h
              (laws.parameters_copy codec sink w ∙ e)
              (λ w' e'. copy_streams-IsUnstarted sink codecs (record s { world = w' }) (rw e' h)))

    -- The header: from then on the sink has a trailer to write.
    started :
        (s : Session W C P) (r : Bool × W)
        → IsUnstarted account base s
        → account r.1
          ≡ (if r.0 then ((account s.world).0, suc (account s.world).1) else account s.world)
        → IsBalanced account 0 base
            (unless_failed s r (λ w. (done, record s { should_write_trailer = true; world = w }))).1
    started s (true, w) ((live, waiting, le), own, new) e =
        let idle : flag s.should_write_trailer ≡ 0 = rw new in rw e (live, omega arith, omega arith)
    started s (false, w) (h, own, new) e = rw e h

    loop_end-IsBalanced :
        (s : Session W C P) (r : Round W P)
        → IsBalanced account 0 base s
        → account (sink_of r) ≡ account s.world
        → IsBalanced account 0 base (loop_end s r).1
    loop_end-IsBalanced s (running last) h e = rw e h
    loop_end-IsBalanced s (stopped eof last) h e = rw e h
    loop_end-IsBalanced s (stopped user_break last) h e = rw e h
    loop_end-IsBalanced s (stopped thrown last) h e = rw e h

    checked-IsUnstarted :
        {A : Type 0} (s : Session W C P) (r : Outcome A)
        → IsUnstarted account base s
        → IsUnstarted account base (checked s r).1
    checked-IsUnstarted s (ok a) h = h
    checked-IsUnstarted s (parse_error e) h = h
    checked-IsUnstarted s runtime_error h = h
    checked-IsUnstarted s fault h = h

    run_classified-IsBalanced :
        (reads : List Read) (sink : C) (sc : StreamClassification) (s : Session W C P)
        → IsUnstarted account base s
        → IsBalanced account 0 base (run_classified ff env reads sink sc s).1
    unfolding run_classified start_sink remux_loop
    run_classified-IsBalanced reads sink sc s h =
        then_step-After (IsUnstarted account base) (IsBalanced account 0 base)
          (checked s (require sc.time_source)) _ (checked-IsUnstarted s (require sc.time_source) h)
          balanced
          λ s h.
            then_step-After (IsBalanced account 0 base) (IsBalanced account 0 base)
              (start_sink ff sink s) (remux_loop ff env reads sc)
              (started s (ff.avformat_write_header sink s.world) h (laws.write_header sink s.world))
              (λ s h. h)
              λ s h. loop_end-IsBalanced s _ h (loop-account ff env account laws sc reads _)

    run_streams-IsBalanced :
        (reads : List Read) (sink : C) (r : Outcome StreamClassification) (s : Session W C P)
        → IsUnstarted account base s
        → IsBalanced account 0 base (run_streams ff env reads sink r s).1
    unfolding run_streams
    run_streams-IsBalanced reads sink (ok sc) s h = run_classified-IsBalanced reads sink sc s h
    run_streams-IsBalanced reads sink (parse_error e) s h = h.0
    run_streams-IsBalanced reads sink runtime_error s h = h.0
    run_streams-IsBalanced reads sink fault s h = h.0

    run_opened-IsBalanced :
        (reads : List Read) (source sink : C) (s : Session W C P)
        → IsUnstarted account base s
        → IsBalanced account 0 base (run_opened ff env reads source sink s).1
    unfolding run_opened init_remuxing
    run_opened-IsBalanced reads source sink s h =
        then_step-After (IsUnstarted account base) (IsBalanced account 0 base)
          (init_remuxing ff source sink s) _
          (copy_streams-IsUnstarted sink (ff.codecs source s.world) s h) balanced
          (λ s h. run_streams-IsBalanced reads sink _ s h)

    pub with_contexts-IsBalanced :
        (reads : List Read) (source sink : Option C) (s : Session W C P)
        → IsUnstarted account base s
        → IsBalanced account 0 base (with_contexts (run_opened ff env reads) source sink s).1
    with_contexts-IsBalanced reads none sink s h = h.0
    with_contexts-IsBalanced reads (some source) none s h = h.0
    with_contexts-IsBalanced reads (some source) (some sink) s h =
        run_opened-IsBalanced reads source sink s h
