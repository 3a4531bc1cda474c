-- ===== src/Io/Handles/Account.antt =====
-- What FFmpeg's calls do to the contexts and headers that are accounted for, and that the loop leaves
-- both alone.
use metamix.Base.{
  ℕ, suc, ◌+◌, ◌-◌, ◌≤◌, List, [], ◌∷◌, ◌≡◌, refl, ap, ◌∙◌, Bool, true, false, Option, none, some,
  if◌then◌else◌, Bool-cases, inl, inr, ◌||◌, ltb,
}
use metamix.Io.Streams.{StreamClassification, Codec}
use metamix.Io.RemuxLoop.{
  StreamPacket, packet, end_of_stream, failed_read, Read, Environment, LoopState, Round, running,
  stopped, Processed, proc_threw, proc_done, is_non_mono, is_pts_lt_dts, max_retry, process_all,
  break_or_go, remux_packet, after_remux, after_process, on_packet, round, loop, and_go,
}
use metamix.Io.Handles.{Ffmpeg, Session}

-- The contexts that are allocated, and the headers written whose trailer is not.
abbrev pub Account : Type 0
Account = ℕ × ℕ

abbrev pub held : {C : Type 0} → Option C → ℕ
held none = 0
held (some ctx) = 1

abbrev pub flag : Bool → ℕ
flag false = 0
flag true = 1

abbrev pub sink_of : {W P : Type 0} → Round W P → W
sink_of (running last) = last.sink
sink_of (stopped e last) = last.sink

module _ {W C P : Type 0} (account : W → Account) where
  -- Besides what `base` counted, the account has the contexts that the handles hold and `leaked`
  -- more, and a header that waits for its trailer if the sink is to write one.
  abbrev pub IsBalanced : ℕ → Account → Session W C P → Type 0
  IsBalanced leaked base s =
      ((account s.world).0 ≡ base.0 + held s.source + held s.sink + leaked)
      × ((account s.world).1 ≡ base.1 + flag s.should_write_trailer)
      × (flag s.should_write_trailer ≤ held s.sink)

  -- Balanced, with handles that are open and not started.
  abbrev pub IsUnstarted : Account → Session W C P → Type 0
  IsUnstarted base s = IsBalanced 0 base s × (held s.sink ≡ 1) × (s.should_write_trailer ≡ false)

module _ {W C P : Type 0} (ff : Ffmpeg W C) (env : Environment W P) (account : W → Account) where
  -- What FFmpeg documents of its calls, on this account: allocation, and on failure the release by
  -- avformat_open_input; header and trailer; avformat_close_input. No other call allocates or frees.
  pub record IsFfmpeg : Type 0 where
    pub alloc_none :
        (w : W)
        → (ff.avformat_alloc_context w).0 ≡ none
        → account (ff.avformat_alloc_context w).1 ≡ account w
    pub alloc_some :
        (w : W) (ctx : C)
        → (ff.avformat_alloc_context w).0 ≡ some ctx
        → account (ff.avformat_alloc_context w).1 ≡ (suc (account w).0, (account w).1)
    pub output_none :
        (format : Option (List ℕ)) (url : List ℕ) (w : W)
        → (ff.avformat_alloc_output_context2 format url w).0 ≡ none
        → account (ff.avformat_alloc_output_context2 format url w).1 ≡ account w
    pub output_some :
        (format : Option (List ℕ)) (url : List ℕ) (w : W) (ctx : C)
        → (ff.avformat_alloc_output_context2 format url w).0 ≡ some ctx
        → account (ff.avformat_alloc_output_context2 format url w).1
          ≡ (suc (account w).0, (account w).1)
    pub open_input :
        (ctx : C) (url : List ℕ) (w : W)
        → account (ff.avformat_open_input ctx url w).1 ≡ (
            if (ff.avformat_open_input ctx url w).0
            then account w
            else ((account w).0 - 1, (account w).1))
    pub find_stream_info :
        (ctx : C) (w : W) → account (ff.avformat_find_stream_info ctx w).1 ≡ account w
    pub avio_open :
        (ctx : C) (url : List ℕ) (w : W) → account (ff.avio_open ctx url w).1 ≡ account w
    pub new_stream : (ctx : C) (w : W) → account (ff.avformat_new_stream ctx w).1 ≡ account w
    pub parameters_copy :
        (codec : Codec) (ctx : C) (w : W)
        → account (ff.avcodec_parameters_copy codec ctx w).1 ≡ account w
    pub write_header :
        (ctx : C) (w : W)
        → account (ff.avformat_write_header ctx w).1 ≡ (
            if (ff.avformat_write_header ctx w).0
            then ((account w).0, suc (account w).1)
            else account w)
    pub write_trailer :
        (ctx : C) (w : W) → account (ff.av_write_trailer ctx w) ≡ ((account w).0, (account w).1 - 1)
    pub close_input :
        (ctx : C) (w : W)
        → account (ff.avformat_close_input ctx w) ≡ ((account w).0 - 1, (account w).1)
    pub write_frame : (pkt : StreamPacket) (w : W) → account (env.write_frame pkt w).1 ≡ account w

  module _ (laws : IsFfmpeg) (sc : StreamClassification) where
    break_or_go-sink :
        (brk : Bool) (st : LoopState W P) → sink_of (break_or_go env sc brk st) ≡ st.sink
    break_or_go-sink true st = refl
    break_or_go-sink false st = refl

    after_remux-account :
        (brk : Bool) (r : Bool × W) (st : LoopState W P)
        → account (sink_of (after_remux env sc brk r st)) ≡ account r.1
    unfolding after_remux
    after_remux-account brk (false, w) st = ap account (break_or_go-sink brk _)
    after_remux-account brk (true, w) st = elim (Bool-cases (ltb st.remux_trial max_retry)) [
      | inl e ↦ rw (e, after_remux) (ap account (break_or_go-sink brk _))
      | inr e ↦ rw (e, after_remux) refl
    ]

    after_process-account :
        (r : Processed × P) (st : LoopState W P)
        → account (sink_of (after_process env sc r st)) ≡ account st.sink
    unfolding after_process remux_packet
    after_process-account (proc_threw, procs) st = refl
    after_process-account (proc_done brk pkt, procs) st =
        after_remux-account brk (env.write_frame (env.rescale_ts pkt) st.sink)
          (record st { procs = procs })
        ∙ laws.write_frame (env.rescale_ts pkt) st.sink

    round-account :
        (r : Read) (st : LoopState W P) → account (sink_of (round env sc r st)) ≡ account st.sink
    unfolding round on_packet
    round-account (packet pkt) st =
        elim (Bool-cases
          (is_non_mono (env.get_stream pkt.stream_index st.sink) pkt.dts || is_pts_lt_dts pkt)) [
            | inl e ↦ rw e refl
            | inr e ↦ rw e (
                after_process-account (process_all env sc pkt st.procs)
                  (record st { read_trial = 0 }))
          ]
    round-account end_of_stream st = refl
    round-account failed_read st = elim (Bool-cases (ltb st.read_trial max_retry)) [
      | inl e ↦ rw (e, round) refl
      | inr e ↦ rw (e, round) refl
    ]

    and_go-account :
        (o : Round W P) (more : LoopState W P → Round W P)
        → ((st : LoopState W P) → account (sink_of (more st)) ≡ account st.sink)
        → account (sink_of (and_go o more)) ≡ account (sink_of o)
    and_go-account (running next) more h = h next
    and_go-account (stopped end last) more h = refl

    pub loop-account :
        (reads : List Read) (st : LoopState W P)
        → account (sink_of (loop env sc reads st)) ≡ account st.sink
    unfolding loop
    loop-account [] st = refl
    loop-account (r ∷ reads) st =
        and_go-account (round env sc r st) (loop env sc reads) (loop-account reads)
        ∙ round-account r st
