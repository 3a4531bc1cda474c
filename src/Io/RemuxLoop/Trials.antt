-- ===== src/Io/RemuxLoop/Trials.antt =====
-- The retries of the loop: their bounds, and how many failures it takes to end it.
use metamix.Base.{
  ℕ, zero, suc, ◌+◌, ◌≤◌, ◌<◌, List, [], ◌∷◌, ◌≡◌, ◌⊎◌, inl, inr, ap, arith, Bool, true, false, ltb,
  Bool-cases, ◌||◌,
}
use metamix.Io.Streams.{StreamClassification}
use metamix.Io.RemuxLoop.{
  StreamPacket, Read, packet, end_of_stream, failed_read, Environment, LoopState, thrown, Round,
  running, stopped, Processed, proc_threw, proc_done, is_non_mono, is_pts_lt_dts, process_all,
  break_or_go, after_remux, after_process, on_packet, remux_packet, round, loop,
}

module _ {S P : Type 0} (env : Environment S P) (sc : StreamClassification) where
  -- Both counts of trials are at most MAX_RETRY.
  abbrev pub IsBounded : LoopState S P → Type 0
  IsBounded st = (st.read_trial ≤ 10) × (st.remux_trial ≤ 10)

  -- The states that the loop passes through.
  pub data Reachable : LoopState S P → LoopState S P → Type 0 where
    here : {st : LoopState S P} → Reachable st st
    then_round :
        {st next last : LoopState S P} (r : Read)
        → round env sc r st ≡ running next
        → Reachable next last
        → Reachable st last

  abbrev AfterRound : Round S P → Type 0
  AfterRound (running next) = IsBounded next
  AfterRound (stopped e last) = Unit

  break_or_go-bounded :
      (brk : Bool) (st : LoopState S P) → IsBounded st → AfterRound (break_or_go env sc brk st)
  break_or_go-bounded true st h = tt
  break_or_go-bounded false st h = h

  after_remux-bounded :
      (brk threw : Bool) (sink : S) (st : LoopState S P)
      → IsBounded st
      → AfterRound (after_remux env sc brk (threw, sink) st)
  unfolding after_remux
  after_remux-bounded brk false sink st (r, m) = break_or_go-bounded brk _ (r, omega arith)
  after_remux-bounded brk true sink st (r, m) = elim (Bool-cases (ltb st.remux_trial 10)) [
    | inl e ↦ rw (e, after_remux) (break_or_go-bounded brk _ (r, ground arith))
    | inr e ↦ rw (e, after_remux) tt
  ]

  after_process-bounded :
      (p : Processed) (procs : P) (st : LoopState S P)
      → IsBounded st
      → AfterRound (after_process env sc (p, procs) st)
  unfolding after_process
  after_process-bounded proc_threw procs st h = tt
  after_process-bounded (proc_done brk pkt) procs st h =
      after_remux-bounded brk (remux_packet env sc pkt st.sink).0
        (remux_packet env sc pkt st.sink).1 (record st { procs = procs }) h

  on_packet-bounded :
      (pkt : StreamPacket) (st : LoopState S P)
      → IsBounded st
      → AfterRound (on_packet env sc pkt st)
  unfolding on_packet
  on_packet-bounded pkt st h =
      elim (Bool-cases
        (is_non_mono (env.get_stream pkt.stream_index st.sink) pkt.dts || is_pts_lt_dts pkt)) [
          | inl e ↦ rw (e, on_packet) tt
          | inr e ↦
              rw (e, on_packet)
                (after_process-bounded (process_all env sc pkt st.procs).0
                  (process_all env sc pkt st.procs).1 st h)
        ]

  round-bounded : (r : Read) (st : LoopState S P) → IsBounded st → AfterRound (round env sc r st)
  unfolding round
  round-bounded failed_read st (r, m) = elim (Bool-cases (ltb st.read_trial 10)) [
    | inl e ↦ rw (e, round) (ground arith, m)
    | inr e ↦ rw (e, round) tt
  ]
  round-bounded end_of_stream st h = tt
  round-bounded (packet pkt) st (r, m) = on_packet-bounded pkt _ (omega arith, m)

  -- From a state with at most ten trials of each sort, as the loop starts, every state that it passes
  -- through has at most ten of each, whatever the source, the sink and the processors do.
  pub Reachable-IsBounded :
      {first last : LoopState S P} → IsBounded first → Reachable first last → IsBounded last
  Reachable-IsBounded h here = h
  Reachable-IsBounded h (then_round {st} {next} r e more) =
      Reachable-IsBounded (rw e at (round-bounded r st h)) more

  abbrev pub failures : ℕ → List Read
  failures zero = []
  failures (suc n) = failed_read ∷ failures n

  -- Reads that fail in a row: the loop goes on as long as the trials with them are at most ten; one
  -- more ends it with the exception.
  pub loop-failures :
      (n : ℕ) (st : LoopState S P)
      → st.read_trial ≤ 10
      → ((n + st.read_trial ≤ 10)
          × (loop env sc (failures n) st ≡ running (record st { read_trial = n + st.read_trial })))
        ⊎ ((10 < n + st.read_trial)
            × (loop env sc (failures n) st ≡ stopped thrown (record st { read_trial = 10 })))
  unfolding loop round
  loop-failures zero st h =
      let same : st.read_trial ≡ 0 + st.read_trial = omega arith in
      inl (omega arith, ap (λ t. running (record st { read_trial = t })) same)
  loop-failures (suc n) st h = elim (Bool-cases (ltb st.read_trial 10)) [
    | inl e ↦
        let same : n + (st.read_trial + 1) ≡ suc n + st.read_trial = omega arith in
        let rest = loop-failures n (record st { read_trial = st.read_trial + 1 }) (ground arith) in
        rw (e, loop, round) (rw same at rest)
    | inr e ↦
        let full : st.read_trial ≡ 10 = ground arith in
        inr (
          omega arith,
          rw (e, loop, round) (ap (λ t. stopped thrown (record st { read_trial = t })) full),
        )
  ]
