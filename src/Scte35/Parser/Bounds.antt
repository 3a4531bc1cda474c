-- ===== src/Scte35/Parser/Bounds.antt =====
-- The bounds that scte35_parser_next returns, and the extraction loop over them.
use metamix.Base.{ℕ, ◌+◌, ◌≤◌, List, [], ◌∷◌, Bool, ◌≡◌, ◌≢◌, some, none, length, arith}
use metamix.Base.{if◌then◌else◌}
use metamix.Binary.Outcome.{ok, bind, bind-eq-ok}
use metamix.Binary.Read.{scan_8, read_8, scan_flag, read_12_low}
use metamix.Binary.Parser.{IsBounded}
use metamix.Binary.Parser.Drain.{packets, packets-ne-none}
use metamix.Scte35.Parser.Descriptors.{Compiler}
use metamix.Scte35.Parser.Section.{
  skip_pointer_field, read_until_length, SectionBounds, section_bounds, scte35_parser_next,
  section_format,
}

-- The bytes behind section_length, when it was read.
read_until_length-left :
    (bytes : List ℕ) (L : ℕ) (chopped : Bool) (s : List ℕ)
    → read_until_length bytes ≡ ok ((L, chopped), s)
    → (length bytes ≡ (if chopped then 1 else 0) + 3 + length s) × (L ≤ length s)
unfolding read_until_length skip_pointer_field scan_8 read_8 scan_flag read_12_low
read_until_length-left [] L chopped s h = ground arith
read_until_length-left (a ∷ []) L chopped s h = ground arith
read_until_length-left (a ∷ b ∷ []) L chopped s h = ground arith
read_until_length-left (a ∷ b ∷ c ∷ []) L chopped s h = ground arith
read_until_length-left (a ∷ b ∷ c ∷ d ∷ r) L chopped s h = ground arith

-- The bounds that scte35_parser_next returns begin at most one byte behind the start, are three bytes
-- long at least, and lie inside the buffer.
pub scte35_parser_next_bounds :
    (bytes : List ℕ) (b : SectionBounds)
    → scte35_parser_next bytes ≡ ok (some b)
    → (b.offset ≤ 1) × (3 ≤ b.count) × (b.offset + b.count ≤ length bytes)
unfolding scte35_parser_next section_bounds
scte35_parser_next_bounds bytes b e =
    let read : bind (read_until_length bytes) section_bounds ≡ ok (some b) = ground arith in
    let (((L, chopped), r), e₁, e₂) = bind-eq-ok (read_until_length bytes) section_bounds read in
    let (total, inside) = read_until_length-left bytes L chopped r e₁ in ground arith

pub section_format-IsBounded : (c : Compiler) → IsBounded (section_format c)
section_format-IsBounded c = record {
  inside = λ bytes b h. (scte35_parser_next_bounds bytes b h).2;
  advances = λ bytes b h. omega (arith, scte35_parser_next_bounds bytes b h);
}

-- The loop over the sections of a packet ends on every input.
pub sections-ne-none : (c : Compiler) (bytes : List ℕ) → (packets (section_format c) bytes).1 ≢ none
sections-ne-none c bytes = packets-ne-none (section_format c) (section_format-IsBounded c) bytes
