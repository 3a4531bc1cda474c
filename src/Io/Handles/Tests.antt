-- ===== src/Io/Handles/Tests.antt =====
-- An FFmpeg that keeps the account itself: everything succeeds, on one H.264 stream. The loop reads a
-- packet and then the end of the stream.
use metamix.Base.{ℕ, suc, ◌-◌, List, [], ◌∷◌, refl, true, false, Option, none, some}
use metamix.Base.Int.{pos}
use metamix.Io.Streams.{h264}
use metamix.Io.RemuxLoop.{StreamPacket, packet, end_of_stream, Read, Environment, proc_done}
use metamix.Io.Handles.{Ffmpeg, Endpoints, open_handles, fresh, session}
use metamix.Io.Handles.Account.{Account, IsFfmpeg}
use metamix.Io.Handles.Settled.{IsSettled, session-IsSettled}

abbrev ffmpeg : Ffmpeg Account ℕ
ffmpeg = record {
  avformat_alloc_context = λ w. (some 7, (suc w.0, w.1));
  av_find_input_format = λ name w. false;
  avformat_open_input = λ ctx url w. (true, w);
  avformat_find_stream_info = λ ctx w. (true, w);
  avformat_alloc_output_context2 = λ format url w. (some 8, (suc w.0, w.1));
  has_nofile_flag = λ ctx w. false;
  avio_open = λ ctx url w. (true, w);
  codecs = λ ctx w. h264 ∷ [];
  is_mpegts = λ ctx w. false;
  av_find_best_stream = λ ctx w. none;
  avformat_new_stream = λ ctx w. (true, w);
  avcodec_parameters_copy = λ codec ctx w. (true, w);
  avformat_write_header = λ ctx w. (true, (w.0, suc w.1));
  av_write_trailer = λ ctx w. (w.0, w.1 - 1);
  avformat_close_input = λ ctx w. (w.0 - 1, w.1);
}

abbrev environment : Environment Account ℕ
environment = record {
  get_stream =
      λ idx w. record { cur_dts = pos 0; is_nonstrict = false; is_data_or_subtitle = false };
  rescale_ts = λ pkt. pkt;
  write_frame = λ pkt w. (false, w);
  process = λ kind pkt p. (proc_done false pkt, suc p);
}

ffmpeg-IsFfmpeg : IsFfmpeg ffmpeg environment (λ w. w)
ffmpeg-IsFfmpeg = record {
  alloc_none = λ w e. cc;
  alloc_some = λ w ctx e. refl;
  output_none = λ format url w e. cc;
  output_some = λ format url w ctx e. refl;
  open_input = λ ctx url w. refl;
  find_stream_info = λ ctx w. refl;
  avio_open = λ ctx url w. refl;
  new_stream = λ ctx w. refl;
  parameters_copy = λ codec ctx w. refl;
  write_header = λ ctx w. refl;
  write_trailer = λ ctx w. refl;
  close_input = λ ctx w. refl;
  write_frame = λ pkt w. refl;
}

abbrev frame : StreamPacket
frame = record { stream_index = 0; pts = pos 9; dts = pos 8; bytes = [] }

abbrev reads : List Read
reads = packet frame ∷ end_of_stream ∷ []

abbrev ends : Option (List ℕ) → Endpoints
ends format = record {
  source_url = b'u' ∷ [];
  source_format = format;
  sink_url = b'v' ∷ [];
  sink_format = none;
}

session-IsSettled_example :
    IsSettled
      (λ w. w)
      (open_handles {P = ℕ} ffmpeg (ends none) (fresh (0, 0) 0)).0
      (0, 0)
      (session ffmpeg environment reads (ends none) (0, 0) 0)
session-IsSettled_example =
    session-IsSettled ffmpeg environment (λ w. w) ffmpeg-IsFfmpeg reads (ends none) (0, 0) 0
