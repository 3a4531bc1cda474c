-- ===== src/Proc/Restart/Tests.antt =====
-- A restart of input 1, with ids for JSON and extractors that do nothing.
use metamix.Base.{true, ℕ, List, [], ◌∷◌, ◌≡◌, refl, Bool, false, none, some}
use metamix.Base.Int.{ℤ, pos}
use metamix.InputManager.{InputSpec, same_string, create, assign, assign_all, get_input_by_id}
use metamix.Inputs.{new_clear_input, new_user_defined_input}
use metamix.Io.Streams.{StreamClassification}
use metamix.Io.RemuxLoop.{
  StreamPacket, packet, SinkStream, Kind, Processed, proc_done, LoopState, user_break, stopped,
  round, is_non_mono, is_pts_lt_dts,
}
use metamix.Proc.Controller.{
  Context, get_input_by_json, parse_input_ref, get_input_by_ref, restart_input,
}
use metamix.Proc.Controller.Json.{returned, JsonLibrary, id_word}
use metamix.Proc.Restart.{thread_env, IsQuiet, restart_input-stops}

abbrev ids : JsonLibrary ℕ
ids = record {
  parse = λ s. returned 1;
  find = λ j key. same_string key id_word;
  get = λ j key. returned j;
  as_string = λ j. returned [];
  as_id = λ j. returned j;
  as_int64 = λ j. returned (pos j);
  of_id = λ n. n;
  of_int = λ x. 0;
  of_bool = λ b. 0;
  of_string = λ s. 0;
  object = λ ms. 0;
  pushed = λ js. 0;
  dump = λ j. true;
  dump_error = λ body e. true;
}

abbrev news : InputSpec
news = record {
  id = 1;
  name = b'n' ∷ [];
  source = [];
  sink = [];
  source_format = none;
  sink_format = none;
  is_virtual = false;
}

abbrev context : Context
context = record {
  input_manager = create (new_clear_input 0 ∷ new_user_defined_input news ∷ []);
  meta_queue = record { sei = []; scte = [] };
  clock = pos 7;
  ts_adjustment = pos 0;
  restarts = [];
}

abbrev stream : ℕ → ℤ → SinkStream
stream idx s = record { cur_dts = s; is_nonstrict = false; is_data_or_subtitle = false }

abbrev halved : StreamPacket → StreamPacket
halved pkt = record pkt { dts = pos 3 }

abbrev write : StreamPacket → ℤ → Bool × ℤ
write pkt s = (false, pkt.dts)

abbrev idle : Kind → StreamPacket → ℕ → Processed × ℕ
idle kind pkt q = (proc_done false pkt, q)

idle-IsQuiet : IsQuiet 1 stream halved write idle
idle-IsQuiet = record { extracts = λ kind pkt q e. cc; takes = λ pkt s. refl }

abbrev video : StreamClassification
video = record { time_source = some 0; sei = some 0; scte = none }

abbrev frame : StreamPacket
frame = record { stream_index = 0; pts = pos 9; dts = pos 8; bytes = [] }

abbrev start : LoopState ℤ (List ℕ × ℕ)
start = record {
  read_trial = 0;
  remux_trial = 0;
  sink = pos 5;
  procs = ((restart_input ids context 1).1.restarts, 0);
}

restart_input-stops_example :
    (last : LoopState ℤ (List ℕ × ℕ)) × (round
        (thread_env 1 stream halved write idle)
        video
        (packet frame)
        start
      ≡ stopped user_break last)
unfolding get_input_by_json parse_input_ref get_input_by_ref same_string create assign assign_all
    get_input_by_id new_clear_input new_user_defined_input is_non_mono is_pts_lt_dts
restart_input-stops_example =
    restart_input-stops 1 stream halved write idle video idle-IsQuiet ids context 1
      (new_user_defined_input news) frame start refl refl refl refl refl refl
