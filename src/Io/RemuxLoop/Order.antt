-- ===== src/Io/RemuxLoop/Order.antt =====
-- The order of the packets that pass the loop, in whose test the times of the source meet those that
-- the sink has written.
use metamix.Base.{
  ℕ, ◌+◌, ◌<◌, List, [], ◌∷◌, ◌≡◌, refl, ◌∙◌, arith, Bool, true, false, ◌||◌, All, Option,
  Bool-cases, inl, inr,
}
use metamix.Base.Int.{ℤ, pos, above, below}
use metamix.Io.Streams.{StreamClassification, is_stream}
use metamix.Io.RemuxLoop.{
  StreamPacket, Read, packet, SinkStream, Environment, LoopState, Round, running, stopped,
  Processed, proc_threw, proc_done, is_non_mono, is_pts_lt_dts, process_all, break_or_go,
  remux_packet, after_remux, after_process, on_packet, procf, or_break, Kind, time_source_kind,
  sei_kind, scte_kind, round, loop, and_go, same_ℤ, av_nopts_value,
}

abbrev pub IsLess : ℤ → ℤ → Type 0
IsLess x y = above x + below y < above y + below x

-- Packets of one stream, in the order in which the loop reads them.
abbrev pub reads : List StreamPacket → List Read
reads [] = []
reads (pkt ∷ pkts) = packet pkt ∷ reads pkts

-- Each dts is greater than the rescaled one of the packet before it.
abbrev pub IsIncreasing : (StreamPacket → StreamPacket) → ℤ → List StreamPacket → Type 0
IsIncreasing rescale last [] = Unit
IsIncreasing rescale last (pkt ∷ pkts) =
    IsLess last pkt.dts × IsIncreasing rescale (rescale pkt).dts pkts

-- A time other than those that stand for none.
abbrev pub IsTime : ℤ → Type 0
IsTime t = (same_ℤ t (pos 0) ≡ false) × (same_ℤ t av_nopts_value ≡ false)

-- A packet of the stream with a time, once rescaled.
abbrev pub IsTimed : ℕ → (StreamPacket → StreamPacket) → StreamPacket → Type 0
IsTimed idx rescale pkt = (pkt.stream_index ≡ idx) × IsTime (rescale pkt).dts

strict-IsLess :
    (st : SinkStream) (dts : ℤ)
    → st.is_nonstrict ≡ false
    → st.is_data_or_subtitle ≡ false
    → IsTime st.cur_dts
    → is_non_mono st dts ≡ false
    → IsLess st.cur_dts dts
unfolding is_non_mono
strict-IsLess st dts n d (h0, hn) e = ground arith

-- The packet that a processor leaves belongs to the same stream at the same time.
abbrev pub IsSameTime : StreamPacket → Processed → Type 0
IsSameTime pkt proc_threw = Unit
IsSameTime pkt (proc_done brk q) = (q.stream_index ≡ pkt.stream_index) × (q.dts ≡ pkt.dts)

-- A sink that takes every packet into one stream, whose format wants increasing times, and remembers
-- the last one written; a rescaling that depends on the dts alone for the dts, and leaves the stream;
-- and processors that leave times and stream numbers alone.
pub record IsOrderedSink {S P : Type 0} (env : Environment S P) (idx : ℕ) : Type 0 where
  pub nonstrict : (s : S) → (env.get_stream idx s).is_nonstrict ≡ false
  pub data_or_subtitle : (s : S) → (env.get_stream idx s).is_data_or_subtitle ≡ false
  pub taken : (pkt : StreamPacket) (s : S) → (env.write_frame pkt s).0 ≡ false
  pub remembered :
      (pkt : StreamPacket) (s : S)
      → pkt.stream_index ≡ idx
      → (env.get_stream idx (env.write_frame pkt s).1).cur_dts ≡ pkt.dts
  pub rescaled_stream : (pkt : StreamPacket) → (env.rescale_ts pkt).stream_index ≡ pkt.stream_index
  pub rescaled_dts :
      (pkt q : StreamPacket)
      → q.stream_index ≡ pkt.stream_index
      → q.dts ≡ pkt.dts
      → (env.rescale_ts q).dts ≡ (env.rescale_ts pkt).dts
  pub processed :
      (kind : Kind) (pkt : StreamPacket) (procs : P) → IsSameTime pkt (env.process kind pkt procs).0

or-false : (a b : Bool) → a || b ≡ false → a ≡ false
or-false true b e = cc
or-false false b e = refl

module _ {S P : Type 0} (env : Environment S P) (sc : StreamClassification) (idx : ℕ)
    (laws : IsOrderedSink env idx) where
  or_break-IsSameTime :
      (pkt q : StreamPacket) (brk : Bool) (r : Processed × P)
      → IsSameTime pkt (proc_done brk q)
      → IsSameTime q r.0
      → IsSameTime pkt (or_break brk r).0
  or_break-IsSameTime pkt q brk (proc_threw, procs) h k = tt
  or_break-IsSameTime pkt q brk (proc_done b p, procs) (hi, ht) (ki, kt) = (ki ∙ hi, kt ∙ ht)

  procf-IsSameTime :
      (kind : Kind) (index : Option ℕ) (pkt : StreamPacket) (r : Processed × P)
      → IsSameTime pkt r.0
      → IsSameTime pkt (procf env sc kind index r).0
  unfolding procf
  procf-IsSameTime kind index pkt (proc_threw, procs) h = tt
  procf-IsSameTime kind index pkt (proc_done brk q, procs) h =
      elim (Bool-cases (is_stream q.stream_index index)) [
        | inl e ↦
            rw (e, procf)
              (or_break-IsSameTime pkt q brk (env.process kind q procs) h
                (laws.processed kind q procs))
        | inr e ↦ rw (e, procf) h
      ]

  process_all-IsSameTime :
      (pkt : StreamPacket) (procs : P) → IsSameTime pkt (process_all env sc pkt procs).0
  unfolding process_all
  process_all-IsSameTime pkt procs = procf-IsSameTime scte_kind sc.scte pkt _ (
      procf-IsSameTime sei_kind sc.sei pkt _ (
        procf-IsSameTime time_source_kind sc.time_source pkt (proc_done false pkt, procs)
          (refl, refl)))

  -- What the stream of the sink remembers.
  abbrev pub last_dts : LoopState S P → ℤ
  last_dts st = (env.get_stream idx st.sink).cur_dts

  break_or_go-running :
      (brk : Bool) (st next : LoopState S P) → break_or_go env sc brk st ≡ running next → st ≡ next
  break_or_go-running true st next e = cc
  break_or_go-running false st next e = cc

  after_remux-running :
      (brk : Bool) (r : Bool × S) (st next : LoopState S P)
      → r.0 ≡ false
      → after_remux env sc brk r st ≡ running next
      → next.sink ≡ r.1
  unfolding after_remux
  after_remux-running brk (true, sink) st next taken e = cc
  after_remux-running brk (false, sink) st next taken e =
      let same = break_or_go-running brk (record st { remux_trial = 0; sink = sink }) next e in
      rw (← same) refl

  after_process-running :
      (pkt : StreamPacket) (r : Processed × P) (st next : LoopState S P)
      → pkt.stream_index ≡ idx
      → IsSameTime pkt r.0
      → after_process env sc r st ≡ running next
      → last_dts next ≡ (env.rescale_ts pkt).dts
  unfolding after_process remux_packet
  after_process-running pkt (proc_threw, procs) st next h k e = cc
  after_process-running pkt (proc_done brk q, procs) st next h (ki, kt) e =
      let sink =
        after_remux-running brk (env.write_frame (env.rescale_ts q) st.sink)
          (record st { procs = procs }) next (laws.taken (env.rescale_ts q) st.sink) e in
      rw sink (
        laws.remembered (env.rescale_ts q) st.sink (laws.rescaled_stream q ∙ ki ∙ h)
        ∙ laws.rescaled_dts pkt q ki kt)

  on_packet-running :
      (pkt : StreamPacket) (st next : LoopState S P)
      → IsTimed idx env.rescale_ts pkt
      → IsTime (last_dts st)
      → on_packet env sc pkt st ≡ running next
      → IsLess (last_dts st) pkt.dts × (last_dts next ≡ (env.rescale_ts pkt).dts)
  unfolding on_packet
  on_packet-running pkt st next (hi, ht) last e =
      elim (Bool-cases
        (is_non_mono (env.get_stream pkt.stream_index st.sink) pkt.dts || is_pts_lt_dts pkt)) [
          | inl refused ↦ let stop = rw (refused, on_packet) at e in cc
          | inr passed ↦
              let mono : is_non_mono (env.get_stream idx st.sink) pkt.dts ≡ false =
                rw (← hi) (or-false _ (is_pts_lt_dts pkt) passed) in
              (
                strict-IsLess (env.get_stream idx st.sink) pkt.dts (laws.nonstrict st.sink)
                    (laws.data_or_subtitle st.sink) last mono,
                after_process-running pkt (process_all env sc pkt st.procs) st next hi
                    (process_all-IsSameTime pkt st.procs) (rw (passed, on_packet) at e),
              )
        ]

  loop-running :
      (r : Round S P) (rs : List Read) (last : LoopState S P)
      → and_go r (loop env sc rs) ≡ running last
      → (next : LoopState S P) × (r ≡ running next) × (loop env sc rs next ≡ running last)
  loop-running (running next) rs last e = (next, refl, e)
  loop-running (stopped ending final) rs last e = cc

  -- With a sink that takes and remembers every packet written to one stream and whose format wants
  -- increasing times, a rescaling that leaves the stream and computes the dts from the dts alone, and
  -- processors that leave times alone: if the loop, from a sink that remembers a time, gets through
  -- packets of this stream whose rescaled dts are times, each has a dts, in the time base of the
  -- source, that is greater than the dts that the packet before it has been written with, in the time
  -- base of the sink.
  pub loop-IsIncreasing :
      (pkts : List StreamPacket) (st last : LoopState S P)
      → All (IsTimed idx env.rescale_ts) pkts
      → IsTime (last_dts st)
      → loop env sc (reads pkts) st ≡ running last
      → IsIncreasing env.rescale_ts (last_dts st) pkts
  unfolding loop round
  loop-IsIncreasing [] st last h t e = tt
  loop-IsIncreasing (pkt ∷ pkts) st last ((hi, ht), h) t e =
      let start : LoopState S P = record st { read_trial = 0 } in
      let (next, passed, more) = loop-running (on_packet env sc pkt start) (reads pkts) last e in
      let (less, now) = on_packet-running pkt start next (hi, ht) t passed in
      (less, rw now at (loop-IsIncreasing pkts next last h (rw now ht) more))
