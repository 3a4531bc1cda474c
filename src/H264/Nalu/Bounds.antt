-- ===== src/H264/Nalu/Bounds.antt =====
-- The bounds that nalu_parser_next returns, and the extraction loop over them.
use metamix.Base.{ℕ, ◌+◌, ◌≤◌, ◌<◌, List, ◌≡◌, ◌≢◌, some, none, length, arith}
use metamix.Binary.Outcome.{ok}
use metamix.Binary.Parser.{IsBounded}
use metamix.Binary.Parser.Drain.{packets, packets-ne-none}
use metamix.H264.Nalu.{NaluBounds, nalu_parser_next, nalu_format, max_length}

-- The bounds that nalu_parser_next returns begin behind the four length bytes, are 1 to max_length
-- bytes long, and lie inside the buffer.
pub nalu_parser_next_bounds :
    (bytes : List ℕ) (b : NaluBounds)
    → nalu_parser_next bytes ≡ ok (some b)
    → (b.offset ≡ 4) × (0 < b.count) × (b.count ≤ max_length) × (b.offset + b.count ≤ length bytes)
unfolding nalu_parser_next
nalu_parser_next_bounds bytes b h = ground arith

pub nalu_format-IsBounded : IsBounded nalu_format
nalu_format-IsBounded = record {
  inside = λ bytes b h. (nalu_parser_next_bounds bytes b h).3;
  advances = λ bytes b h. omega (arith, nalu_parser_next_bounds bytes b h);
}

-- The loop over the NALUs of a packet ends on every input.
pub nalus-ne-none : (bytes : List ℕ) → (packets nalu_format bytes).1 ≢ none
nalus-ne-none bytes = packets-ne-none nalu_format nalu_format-IsBounded bytes
