-- ===== src/Io/RemuxLoop.antt =====
-- remux_loop of src/io/remux_loop.cpp, as a step function on what the source gives next, and
-- SinkHandle::remux_packet of src/io/sink_handle.cpp. FFmpeg's muxer, its stream fields and its
-- rescaling are parameters, and so are the processors of src/proc, with a state of their own.
pub mod Trials
pub mod Order
mod Tests
use metamix.Base.{ℕ, ◌+◌, List, [], ◌∷◌, Bool, true, false, not, ◌&&◌, ◌||◌, Option, none, some}
use metamix.Base.{if◌then◌else◌, ltb, ◌==◌}
use metamix.Base.Int.{ℤ, pos, negsuc, above, below, leb_ℤ}
use metamix.Io.Streams.{StreamClassification, is_stream}

-- The fields of an AVPacket that the loop reads.
pub record StreamPacket : Type 0 where
  pub stream_index : ℕ
  pub pts : ℤ
  pub dts : ℤ
  pub bytes : List ℕ

-- source.read_packet: a packet, false at the end of the stream, or an exception.
pub data Read : Type 0 where
  packet : StreamPacket → Read
  end_of_stream failed_read : Read

-- What the loop reads of a stream of the sink, and of the sink's format.
pub record SinkStream : Type 0 where
  pub cur_dts : ℤ
  pub is_nonstrict : Bool
  pub is_data_or_subtitle : Bool

pub data Kind : Type 0 where
  time_source_kind sei_kind scte_kind : Kind

-- The call of a processor: an exception, or whether it asks for a break, with the packet it leaves.
pub data Processed : Type 0 where
  proc_threw : Processed
  proc_done : Bool → StreamPacket → Processed

-- Of the sink: its streams; av_packet_rescale_ts from the time base of a packet's stream in the
-- source to that of its stream in the sink; and av_interleaved_write_frame, with whether it fails. Of
-- the processors: their calls.
pub record Environment (S P : Type 0) : Type 0 where
  pub get_stream : ℕ → S → SinkStream
  pub rescale_ts : StreamPacket → StreamPacket
  pub write_frame : StreamPacket → S → Bool × S
  pub process : Kind → StreamPacket → P → Processed × P

pub record LoopState (S P : Type 0) : Type 0 where
  pub read_trial : ℕ
  pub remux_trial : ℕ
  pub sink : S
  pub procs : P

pub data Ending : Type 0 where
  eof user_break thrown : Ending

-- A round of the loop goes on or ends it.
pub data Round (S P : Type 0) : Type 0 where
  running : LoopState S P → Round S P
  stopped : Ending → LoopState S P → Round S P

-- MAX_RETRY
abbrev pub max_retry : ℕ
max_retry = 10

-- AV_NOPTS_VALUE
abbrev pub av_nopts_value : ℤ
av_nopts_value = negsuc 9_223_372_036_854_775_807

abbrev pub ltb_ℤ : ℤ → ℤ → Bool
ltb_ℤ x y = not (leb_ℤ y x)

abbrev pub same_ℤ : ℤ → ℤ → Bool
same_ℤ x y = leb_ℤ x y && leb_ℤ y x

-- The condition of the exception for a dts that does not increase.
unfoldable pub is_non_mono : SinkStream → ℤ → Bool
is_non_mono st dts =
    not (same_ℤ st.cur_dts (pos 0))
    && not (same_ℤ st.cur_dts av_nopts_value)
    && ((not st.is_nonstrict && not st.is_data_or_subtitle && leb_ℤ dts st.cur_dts)
        || ltb_ℤ dts st.cur_dts)

-- The condition of the exception for a pts before the dts.
unfoldable pub is_pts_lt_dts : StreamPacket → Bool
is_pts_lt_dts pkt =
    not (same_ℤ pkt.dts av_nopts_value)
    && not (same_ℤ pkt.pts av_nopts_value)
    && ltb_ℤ pkt.pts pkt.dts

-- What a processor's result is for the loop, when `brk` was asked for before.
abbrev pub or_break : {P : Type 0} → Bool → Processed × P → Processed × P
or_break brk (proc_threw, procs) = (proc_threw, procs)
or_break brk (proc_done my_brk pkt, procs) = (proc_done (my_brk || brk) pkt, procs)

abbrev pub and_go : {S P : Type 0} → Round S P → (LoopState S P → Round S P) → Round S P
and_go (running next) more = more next
and_go (stopped e last) more = stopped e last

module _ {S P : Type 0} (env : Environment S P) (sc : StreamClassification) where
  -- procf for one kind, behind what the kinds before it have left.
  unfoldable pub procf : Kind → Option ℕ → Processed × P → Processed × P
  procf kind index (proc_threw, procs) = (proc_threw, procs)
  procf kind index (proc_done brk pkt, procs) =
      if is_stream pkt.stream_index index
      then or_break brk (env.process kind pkt procs)
      else (proc_done brk pkt, procs)

  -- All processors, in the order of StreamClassPack.
  unfoldable pub process_all : StreamPacket → P → Processed × P
  process_all pkt procs =
      procf scte_kind sc.scte
        (procf sei_kind sc.sei (procf time_source_kind sc.time_source (proc_done false pkt, procs)))

  abbrev pub break_or_go : Bool → LoopState S P → Round S P
  break_or_go true st = stopped user_break st
  break_or_go false st = running st

  -- SinkHandle::remux_packet, with whether it threw. The position in the file that it resets is no
  -- part of a packet here.
  unfoldable pub remux_packet : StreamPacket → S → Bool × S
  remux_packet pkt sink = env.write_frame (env.rescale_ts pkt) sink

  -- The remuxing behind the processors, and its retries.
  unfoldable pub after_remux : Bool → Bool × S → LoopState S P → Round S P
  after_remux brk (false, sink) st = break_or_go brk (record st { remux_trial = 0; sink = sink })
  after_remux brk (true, sink) st =
      if ltb st.remux_trial max_retry
      then break_or_go brk (record st { remux_trial = st.remux_trial + 1; sink = sink })
      else stopped thrown (record st { sink = sink })

  unfoldable pub after_process : Processed × P → LoopState S P → Round S P
  after_process (proc_threw, procs) st = stopped thrown (record st { procs = procs })
  after_process (proc_done brk pkt, procs) st =
      after_remux brk (remux_packet pkt st.sink) (record st { procs = procs })

  -- A round on a packet that was read.
  unfoldable pub on_packet : StreamPacket → LoopState S P → Round S P
  on_packet pkt st =
      if is_non_mono (env.get_stream pkt.stream_index st.sink) pkt.dts || is_pts_lt_dts pkt
      then stopped thrown st
      else after_process (process_all pkt st.procs) st

  unfoldable pub round : Read → LoopState S P → Round S P
  round failed_read st =
      if ltb st.read_trial max_retry
      then running (record st { read_trial = st.read_trial + 1 })
      else stopped thrown st
  round end_of_stream st = stopped eof (record st { read_trial = 0 })
  round (packet pkt) st = on_packet pkt (record st { read_trial = 0 })

  -- for (;;), on the first reads.
  unfoldable pub loop : List Read → LoopState S P → Round S P
  loop [] st = running st
  loop (r ∷ rs) st = and_go (round r st) (loop rs)
