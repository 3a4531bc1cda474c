-- ===== src/Io/RemuxLoop/Tests.antt =====
-- The loop with a sink that remembers the last dts, in a time base of half the ticks, and processors
-- that do nothing.
use metamix.Base.{ℕ, [], ◌∷◌, ◌≡◌, refl, ap, ◌/◌, Bool, false, arith}
use metamix.Base.Int.{ℤ, pos, negsuc}
use metamix.Io.Streams.{unclassified}
use metamix.Io.RemuxLoop.{
  StreamPacket, SinkStream, failed_read, Environment, LoopState, running, stopped, thrown, Kind,
  Processed, proc_done, is_non_mono, is_pts_lt_dts, procf, process_all, after_remux, after_process,
  remux_packet, on_packet, round, loop,
}
use metamix.Io.RemuxLoop.Trials.{IsBounded, Reachable, here, then_round, Reachable-IsBounded}
use metamix.Io.RemuxLoop.Order.{IsOrderedSink, IsIncreasing, reads, loop-IsIncreasing}

abbrev stream : ℕ → ℤ → SinkStream
stream idx s = record { cur_dts = s; is_nonstrict = false; is_data_or_subtitle = false }

abbrev write : StreamPacket → ℤ → Bool × ℤ
write pkt s = (false, pkt.dts)

abbrev idle : Kind → StreamPacket → ℕ → Processed × ℕ
idle kind pkt procs = (proc_done false pkt, procs)

abbrev half : ℤ → ℤ
half (pos n) = pos (n / 2)
half (negsuc n) = negsuc n

abbrev halved : StreamPacket → StreamPacket
halved pkt = record pkt { pts = half pkt.pts; dts = half pkt.dts }

abbrev env : Environment ℤ ℕ
env = record { get_stream = stream; rescale_ts = halved; write_frame = write; process = idle }

abbrev start : LoopState ℤ ℕ
start = record { read_trial = 3; remux_trial = 0; sink = pos 5; procs = 0 }

env-IsOrderedSink : IsOrderedSink env 0
env-IsOrderedSink = record {
  nonstrict = λ s. refl;
  data_or_subtitle = λ s. refl;
  taken = λ pkt s. refl;
  remembered = λ pkt s h. refl;
  rescaled_stream = λ pkt. refl;
  rescaled_dts = λ pkt q same e. ap half e;
  processed = λ kind pkt procs. (refl, refl);
}

abbrev frame : ℕ → StreamPacket
frame dts = record { stream_index = 0; pts = pos dts; dts = pos dts; bytes = [] }

abbrev after : LoopState ℤ ℕ
after = record { read_trial = 0; remux_trial = 0; sink = pos 4; procs = 0 }

passed : loop env unclassified (reads (frame 7 ∷ frame 8 ∷ [])) start ≡ running after
unfolding loop round on_packet is_non_mono is_pts_lt_dts process_all procf after_process after_remux
    remux_packet
passed = refl

restarted :
    loop env unclassified (reads (frame 7 ∷ frame 3 ∷ [])) start
    ≡ stopped thrown (record { read_trial = 0; remux_trial = 0; sink = pos 3; procs = 0 })
unfolding loop round on_packet is_non_mono is_pts_lt_dts process_all procf after_process after_remux
    remux_packet
restarted = refl

loop-IsIncreasing_example : IsIncreasing halved (pos 5) (frame 7 ∷ frame 8 ∷ [])
loop-IsIncreasing_example =
    loop-IsIncreasing env unclassified 0 env-IsOrderedSink (frame 7 ∷ frame 8 ∷ []) start after
      ((refl, (refl, refl)), ((refl, (refl, refl)), tt)) (refl, refl) passed

abbrev tried : LoopState ℤ ℕ
tried = record { read_trial = 4; remux_trial = 0; sink = pos 5; procs = 0 }

one_failure : Reachable env unclassified start tried
unfolding round
one_failure = then_round failed_read refl here

Reachable-IsBounded_example : IsBounded env unclassified tried
Reachable-IsBounded_example =
    Reachable-IsBounded env unclassified (omega arith, omega arith) one_failure
