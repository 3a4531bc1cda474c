-- ===== src/Lib.antt =====
-- Verification of Metamix, which carries metadata between video streams: closed captions in the SEI
-- payloads of H.264 and ad markers in SCTE-35 sections. Extractors parse the packets of the input
-- streams and push what they find to a queue under the time of a shared clock; injectors pop from the
-- queue what belongs to the current input of each kind and write it into the output's packets. The
-- library models what these steps compute: binary formats, queue, clock and input selection.
--
-- Base: lists, Boolean tests, bits and integers over the native numbers, and the operators == that
--   types of the C++ library have (Base/Equality).
-- Binary: src/binary_parser_util.h (Binary/Read), src/binary_emitter_util.h (Binary/Write) and the
--   class template of src/binary_parser.h (Binary/Parser) over any format. A reader takes the bytes
--   from its pointer to the end and returns the bytes left. An Outcome is a value, a BinaryParseError,
--   another std::runtime_error, or a fault: undefined behaviour such as a read outside the range.
--   Binary/Parser/Drain is the loop `while (parser) { parser >> packet; … }`. Its fuel is the number
--   of bytes, which suffices since a round consumes a byte at least.
-- H264: src/h264/rbsp.h (H264/Rbsp), the NALUs of src/h264/nalu.h, nalu_parser.cpp and of the NALU
--   half of emitter.h (H264/Nalu), and the SEI payloads of src/h264/sei_parser.cpp and emitter.h
--   (H264/Sei). H264/Nalu/Names is nalu.cpp. H264/Sei/Extract joins them as SeiExtractor of src/proc/extractor.cpp does.
-- Scte35: the data of src/scte35/scte35.h (Scte35/Types), crc32.h and crc32.cpp (Scte35/Crc),
--   emitter.h (Scte35/Emitter) and parser.cpp (Scte35/Parser), and their round trips. Where C++
--   leaves the order of evaluation open, the order is a parameter (Compiler). Scte35/Equality is the
--   operators == of scte35.h.
-- MetadataQueue: src/metadata_queue.h and metadata.h. The standard heap functions are a parameter
--   with their documented behaviour (MetadataQueue/Heap); MetadataQueue/Sorted is one that behaves so.
--   MetadataQueue/Group is the group of the two queues. The fuel of pop is the size of the queue and
--   that of pop_all one more, since each round pops.
-- Clock: src/clock.h and clock.cpp, with av_rescale_q of FFmpeg as a parameter.
-- InputManager: src/input_manager.h, with what iospec.h and abstract_input.h say of an input.
-- Inputs: the queries of src/abstract_input.h, user_defined_input.cpp and clear_input.cpp, with the
--   payloads of src/h264/stdseis.cpp (H264/StdSeis).
-- Proc: src/proc. Proc/Extractor is SeiExtractor, ScteExtractor and post_exit of extractor.cpp,
--   Proc/Injector is ClockTicker and SeiInjector of injector.cpp, Proc/RoundTrip joins the two
--   on a packet, and Proc/Relay with the queue between them.
--   Proc/Restart follows a restart from the REST interface into the loop of an input's thread.
--   Proc/Controller is the handlers of controller.cpp over a JSON library that is a parameter
--   (Proc/Controller/Json); Proc/Controller/Requests is handle_request, and Proc/Controller/Session
--   the sessions and the accepting loop over what Boost reads and writes. An exception that no catch
--   block takes is a result without a response, which ends the session and the loop.
-- Options: the inputs of src/program_options.cpp, and what src/main.cpp builds of them. Boost's string
--   functions are parameters.
-- Io: src/io/remux_loop.cpp and SinkHandle::remux_packet, over FFmpeg's muxer and its rescaling and
--   over processors that are parameters, and the
--   classification of streams in stream_classification.h and io_handle.cpp. Io/Handles is
--   source_handle.cpp and sink_handle.cpp over an FFmpeg that is a parameter, and the sessions of
--   extractor.cpp and injector.cpp that open the handles, run the loop and destroy the handles.
-- Slice: the views of src/slice.h with their iterators.
-- Ffmpeg: AVPacketRef of src/ffmpeg.cpp and ffmpeg.h over FFmpeg's packets.
-- App: ApplicationContext::exit of src/application_context.cpp with its race, and src/supervisor.h.
-- System: the threads of src/main.cpp over the shared ApplicationContext. An atomic step of a thread
--   is an operation under the queue's mutex or on one atomic variable (System); the calls of the
--   threads are paths of such steps (System/Calls, System/Requests); a run is any interleaving of
--   them from the context that main builds, where the input manager throws nothing
--   (System/Soundness, System/Runs). An extractor's steps declare its input's capabilities
--   (System/Capabilities), push and drop. drop_id restores no heap: what holds of a run while every
--   drop happens to leave one is said of tidy runs.
--
-- A bool, an enumeration or an integer is a bool, a number or a number with its wrap-around written
-- out; bytes are numbers, and theorems say where they need them below 256. Assertions are off, as in
-- the release build of README.md. Not modelled: FFmpeg, sockets and HTTP framing, reading the
-- command line, and locks and threads themselves (calls of third-party code, with what the source
-- relies on as parameters), logging and stream output (text for people), and the vendored JSON library.
pub mod Base
pub mod Binary
pub mod H264
pub mod Scte35
pub mod MetadataQueue
pub mod Clock
pub mod InputManager
pub mod Inputs
pub mod Proc
pub mod Options
pub mod Io
pub mod System
pub mod App
pub mod Slice
pub mod Ffmpeg
