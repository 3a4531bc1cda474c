-- ===== src/Scte35/RoundTrip/Commands.antt =====
-- All commands: reading them back, and the length that the size hints announce.
use metamix.Base.{ℕ, ◌<◌, List, ◌++◌, ◌≡◌, refl, length, All}
use metamix.Binary.Outcome.{ok}
use metamix.Scte35.Types.{Command, command_type}
use metamix.Scte35.Types.{
  splice_null, splice_schedule, splice_insert, time_signal, bandwidth_reservation, private_command,
}
use metamix.Scte35.Emitter.{emit_command}
use metamix.Scte35.Parser.Section.{parse_command}
use metamix.Scte35.RoundTrip.Ranges.{InTime, InEvent, InInsert}
use metamix.Scte35.RoundTrip.Times.{parse-emit_splice_time}
use metamix.Scte35.RoundTrip.Insert.{parse-emit_insert}
use metamix.Scte35.RoundTrip.Schedule.{parse-emit_schedule}

-- The commands that parse_command reads back. A private command is none of them.
abbrev pub InCommand : Command → Type 0
InCommand splice_null = Unit {0}
InCommand (splice_schedule events) = (length events < 256) × All InEvent events
InCommand (splice_insert i) = InInsert i
InCommand (time_signal t) = InTime t
InCommand bandwidth_reservation = Unit {0}
InCommand (private_command identifier bytes) = ⊥

-- Every command but a private one whose fields are in range is read back by the parser that its type
-- selects, whatever length is announced and whatever follows it.
pub parse_command-emit_command :
    (c : Command) (size : ℕ) (s : List ℕ)
    → InCommand c
    → parse_command (command_type c) size (emit_command c ++ s) ≡ ok (c, s)
unfolding parse_command command_type emit_command
parse_command-emit_command splice_null size s h = refl
parse_command-emit_command (splice_schedule events) size s (hl, he) =
    parse-emit_schedule events s hl he
parse_command-emit_command (splice_insert i) size s h = rw (parse-emit_insert i s h)
parse_command-emit_command (time_signal t) size s h = rw (parse-emit_splice_time t s h)
parse_command-emit_command bandwidth_reservation size s h = refl
parse_command-emit_command (private_command identifier bytes) size s h = absurd h
