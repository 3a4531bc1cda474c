-- ===== src/Proc/Restart.antt =====
-- A scheduled restart: from the REST interface (src/proc/controller.cpp) over the flag of the input
-- (src/user_defined_input.h) and MaintenanceProcessor (src/proc/extractor.cpp) to the remuxing loop of
-- the input's thread. The processors of the other kinds are parameters.
mod Tests
use metamix.Base.{
  ℕ, List, [], ◌∷◌, ◌≡◌, ◌≢◌, refl, ap, ◌∙◌, Bool, true, false, ◌||◌, Option, none, some, arith,
  ◌==◌, ==_self, Bool-cases, inl, inr, if◌then◌else◌,
}
use metamix.InputManager.{AbstractInput, InputClass, user_defined_input, clear_input}
use metamix.Io.Streams.{StreamClassification, is_stream}
use metamix.Io.RemuxLoop.{
  StreamPacket, packet, SinkStream, Kind, time_source_kind, sei_kind, scte_kind, Processed,
  proc_threw, proc_done, Environment, LoopState, Ending, user_break, Round, running, stopped,
  is_non_mono, is_pts_lt_dts, or_break, procf, process_all, break_or_go, remux_packet, after_remux,
  after_process, on_packet, round,
}
use metamix.Proc.Controller.{Context, get_input_by_json, schedule_restart, restart_input, or_thrown}
use metamix.Proc.Controller.Json.{Result, returned, JsonLibrary}

-- UserDefinedInput::is_restart_scheduled, on the ids of the inputs whose restart is scheduled.
unfoldable pub is_restart_scheduled : ℕ → List ℕ → Bool
is_restart_scheduled id [] = false
is_restart_scheduled id (restart ∷ restarts) = (restart == id) || is_restart_scheduled id restarts

-- is_restart_scheduled(false), as the extractor's thread begins.
unfoldable pub clear_restart : ℕ → List ℕ → List ℕ
clear_restart id [] = []
clear_restart id (restart ∷ restarts) =
    let rest = clear_restart id restarts in if restart == id then rest else restart ∷ rest

-- MaintenanceProcessor::process
unfoldable pub maintain : ℕ → StreamPacket → List ℕ → Processed
maintain id pkt restarts = proc_done (is_restart_scheduled id restarts) pkt

module _ {S Q : Type 0} (id : ℕ) (get_stream : ℕ → S → SinkStream)
    (rescale : StreamPacket → StreamPacket) (write : StreamPacket → S → Bool × S)
    (extract : Kind → StreamPacket → Q → Processed × Q) where
  -- The three processors of the thread.
  abbrev pub processor : Kind → StreamPacket → List ℕ × Q → Processed × (List ℕ × Q)
  processor time_source_kind pkt (restarts, q) = (maintain id pkt restarts, (restarts, q))
  processor sei_kind pkt (restarts, q) = let (r, q') = extract sei_kind pkt q in (r, (restarts, q'))
  processor scte_kind pkt (restarts, q) =
      let (r, q') = extract scte_kind pkt q in (r, (restarts, q'))

  -- The remuxing loop's surroundings in the thread.
  abbrev pub thread_env : Environment S (List ℕ × Q)
  thread_env = record {
    get_stream = get_stream;
    rescale_ts = rescale;
    write_frame = write;
    process = processor;
  }

  -- A break was asked for, and nothing threw.
  abbrev IsBreaking : Processed → Type 0
  IsBreaking proc_threw = ⊥
  IsBreaking (proc_done brk pkt) = brk ≡ true

  -- The extractors throw nothing and the sink takes every packet.
  pub record IsQuiet : Type 0 where
    pub extracts : (kind : Kind) (pkt : StreamPacket) (q : Q) → (extract kind pkt q).0 ≢ proc_threw
    pub takes : (pkt : StreamPacket) (s : S) → (write pkt s).0 ≡ false

  module _ (sc : StreamClassification) (quiet : IsQuiet) where
    or_break-IsBreaking :
        (r : Processed × (List ℕ × Q)) → r.0 ≢ proc_threw → IsBreaking (or_break true r).0
    or_break-IsBreaking (proc_threw, procs) n = n refl
    or_break-IsBreaking (proc_done brk pkt, procs) n = ground arith

    procf-IsBreaking :
        (kind : Kind) (index : Option ℕ) (r : Processed × (List ℕ × Q))
        → ((pkt : StreamPacket) (procs : List ℕ × Q) → (processor kind pkt procs).0 ≢ proc_threw)
        → IsBreaking r.0
        → IsBreaking (procf thread_env sc kind index r).0
    unfolding procf
    procf-IsBreaking kind index (proc_threw, procs) n h = h
    procf-IsBreaking kind index (proc_done brk pkt, procs) n h =
        elim (Bool-cases (is_stream pkt.stream_index index)) [
          | inl e ↦ rw (e, procf, h) (or_break-IsBreaking (processor kind pkt procs) (n pkt procs))
          | inr e ↦ rw (e, procf) h
        ]

    -- The maintenance processor asks for the break, and the other ones keep it.
    process_all-IsBreaking :
        (pkt : StreamPacket) (procs : List ℕ × Q)
        → is_stream pkt.stream_index sc.time_source ≡ true
        → is_restart_scheduled id procs.0 ≡ true
        → IsBreaking (process_all thread_env sc pkt procs).0
    unfolding process_all
    process_all-IsBreaking pkt (restarts, q) mine flagged =
        let first : IsBreaking
            (procf thread_env sc time_source_kind sc.time_source
              (proc_done false pkt, (restarts, q))).0 =
          unfold procf maintain in rw (mine, flagged) in
        procf-IsBreaking scte_kind sc.scte _ (λ other procs. quiet.extracts scte_kind other procs.1)
          (procf-IsBreaking sei_kind sc.sei _ (λ other procs. quiet.extracts sei_kind other procs.1)
            first)

    after_remux-breaks :
        (r : Bool × S) (st : LoopState S (List ℕ × Q))
        → r.0 ≡ false
        → (last : LoopState S (List ℕ × Q)) × (after_remux thread_env sc true r st
            ≡ stopped user_break last)
    unfolding after_remux
    after_remux-breaks (true, sink) st h = cc
    after_remux-breaks (false, sink) st h = (record st { remux_trial = 0; sink = sink }, refl)

    after_process-breaks :
        (r : Processed × (List ℕ × Q)) (st : LoopState S (List ℕ × Q))
        → IsBreaking r.0
        → (last : LoopState S (List ℕ × Q)) × (after_process thread_env sc r st
            ≡ stopped user_break last)
    unfolding after_process remux_packet
    after_process-breaks (proc_threw, procs) st h = absurd h
    after_process-breaks (proc_done brk pkt, procs) st h = rw h (
        after_remux-breaks (write (rescale pkt) st.sink) (record st { procs = procs })
          (quiet.takes (rescale pkt) st.sink))

    on_packet-breaks :
        (pkt : StreamPacket) (st : LoopState S (List ℕ × Q))
        → (is_non_mono (get_stream pkt.stream_index st.sink) pkt.dts || is_pts_lt_dts pkt) ≡ false
        → is_stream pkt.stream_index sc.time_source ≡ true
        → is_restart_scheduled id st.procs.0 ≡ true
        → (last : LoopState S (List ℕ × Q)) × (on_packet thread_env sc pkt st
            ≡ stopped user_break last)
    unfolding on_packet
    on_packet-breaks pkt st e mine flagged = rw e (
        after_process-breaks (process_all thread_env sc pkt st.procs) st
          (process_all-IsBreaking pkt st.procs mine flagged))

    module _ {J : Type 0} (json : JsonLibrary J) where
      scheduled :
          (ctx : Context) (args : J) (input : AbstractInput)
          → get_input_by_json json ctx args ≡ returned input
          → input.input_class ≡ user_defined_input
          → is_restart_scheduled input.spec.id (restart_input json ctx args).1.restarts ≡ true
      unfolding restart_input schedule_restart is_restart_scheduled
      scheduled ctx args input found c = rw (found, c, ==_self input.spec.id)

      -- A request to restart a user input, once it is handled, stops the loop of the input's thread:
      -- if the flag is as the request left it, the extractors throw nothing and the sink takes every
      -- packet, then the next packet of the time source that passes the loop's checks ends the loop
      -- with a user break.
      pub restart_input-stops :
          (ctx : Context) (args : J) (input : AbstractInput) (pkt : StreamPacket)
          (st : LoopState S (List ℕ × Q))
          → get_input_by_json json ctx args ≡ returned input
          → input.input_class ≡ user_defined_input
          → input.spec.id ≡ id
          → st.procs.0 ≡ (restart_input json ctx args).1.restarts
          → (is_non_mono (get_stream pkt.stream_index st.sink) pkt.dts || is_pts_lt_dts pkt) ≡ false
          → is_stream pkt.stream_index sc.time_source ≡ true
          → (last : LoopState S (List ℕ × Q)) × (round thread_env sc (packet pkt) st
              ≡ stopped user_break last)
      unfolding round
      restart_input-stops ctx args input pkt st found c own flag passes mine =
          on_packet-breaks pkt (record st { read_trial = 0 }) passes mine
            (ap (is_restart_scheduled id) flag ∙ rw own at (scheduled ctx args input found c))
