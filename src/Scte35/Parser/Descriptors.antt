-- ===== src/Scte35/Parser/Descriptors.antt =====
-- The descriptors of src/scte35/parser.cpp, and scan_48 of src/binary_parser_util.h.
use metamix.Base.{ℕ, zero, suc, ◌+◌, ◌-◌, ◌*◌, ◌/◌, ◌%◌, ◌^◌, List, [], ◌∷◌}
use metamix.Base.{length, take, drop, if◌then◌else◌, ltb, leb, ◌==◌}
use metamix.Binary.Outcome.{
  ok, fault, throw, bind, Reader, pure, ◌>>=◌, ◌>>◌, test_const, unknown_descriptor, expected_bytes,
  condition_failed,
}
use metamix.Binary.Read.{scan_8, read_8, read_16, read_32}
use metamix.Scte35.Types.{Descriptor, avail, dtmf, segmentation, time_descriptor, cuei}

-- C++ leaves the order open in which the operands of `+` and the arguments in parentheses are
-- evaluated, and both matter here: each read moves `ptr`.
pub data Order : Type 0 where
  left_to_right right_to_left : Order

pub record Compiler : Type 0 where
  pub operands : Order
  pub arguments : Order

-- read_48: scan_48 is (read_16(ptr) << 32) + scan_32(ptr), and its `ptr` is a copy.
unfoldable pub read_48 : Order → Reader ℕ
read_48 left_to_right (a ∷ b ∷ c ∷ d ∷ e ∷ f ∷ s) =
    ok ((a * 2 ^ 8 + b) * 2 ^ 32 + (c * 2 ^ 24 + d * 2 ^ 16 + e * 2 ^ 8 + f), s)
read_48 right_to_left (a ∷ b ∷ c ∷ d ∷ e ∷ f ∷ s) =
    ok ((a * 2 ^ 8 + b) * 2 ^ 32 + (a * 2 ^ 24 + b * 2 ^ 16 + c * 2 ^ 8 + d), s)
read_48 o _ = throw expected_bytes

unfoldable pub parse_avail_descriptor : ℕ → ℕ → Reader Descriptor
parse_avail_descriptor descriptor_length identifier = do
  test_const (descriptor_length == 8)
  test_const (identifier == cuei)
  id ← read_32
  pure (avail id)

-- A range of `size` bytes from `ptr`, and `ptr` behind it; the callers have tested the size.
unfoldable pub read_bytes : ℕ → Reader (List ℕ)
read_bytes size s = ok (take size s, drop size s)

-- endptr - ptr, with `ptr` unmoved
abbrev pub available : Reader ℕ
available s = ok (length s, s)

unfoldable pub parse_dtmf_descriptor : ℕ → ℕ → Reader Descriptor
parse_dtmf_descriptor descriptor_length identifier = do
  test_const (identifier == cuei)
  preroll ← read_8
  flags ← scan_8
  let dtmf_count = flags / 32 % 8
  _ ← read_8
  test_const (descriptor_length == 4 + 1 + dtmf_count)
  available_length ← available
  test_const (leb dtmf_count available_length)
  dtmf_chars ← read_bytes dtmf_count
  pure (dtmf preroll dtmf_chars)

-- endptr is ptr + descriptor_length - 4. In front of `ptr` it makes an impossible range.
unfoldable pub segmentation_bytes : ℕ → Reader (List ℕ)
segmentation_bytes descriptor_length s =
    if ltb (length s + 4) descriptor_length
    then throw condition_failed
    else if ltb descriptor_length 4
    then fault
    else read_bytes (descriptor_length - 4) s

unfoldable pub parse_segmentation_descriptor : ℕ → ℕ → Reader Descriptor
parse_segmentation_descriptor descriptor_length identifier = do
  test_const (identifier == cuei)
  bytes ← segmentation_bytes descriptor_length
  pure (segmentation bytes)

-- TimeDescriptor(read_48(ptr, endptr), read_32(ptr, endptr), read_16(ptr, endptr)), from either end;
-- the orders that begin with the middle argument are left out.
unfoldable pub read_time_fields : Compiler → Order → Reader Descriptor
read_time_fields c left_to_right = do
  seconds ← read_48 c.operands
  nanoseconds ← read_32
  offset ← read_16
  pure (time_descriptor seconds nanoseconds offset)
read_time_fields c right_to_left = do
  offset ← read_16
  nanoseconds ← read_32
  seconds ← read_48 c.operands
  pure (time_descriptor seconds nanoseconds offset)

unfoldable pub parse_time_descriptor : Compiler → ℕ → ℕ → Reader Descriptor
parse_time_descriptor c descriptor_length identifier = do
  test_const (descriptor_length == 16)
  test_const (identifier == cuei)
  read_time_fields c c.arguments

-- switch (splice_descriptor_tag); each case tests its tag once more, with success.
unfoldable pub parse_tagged : Compiler → ℕ → ℕ → ℕ → Reader Descriptor
parse_tagged c tag size identifier =
    if tag == 0x00
    then parse_avail_descriptor size identifier
    else if tag == 0x01
    then parse_dtmf_descriptor size identifier
    else if tag == 0x02
    then parse_segmentation_descriptor size identifier
    else if tag == 0x03
    then parse_time_descriptor c size identifier
    else λ s. throw unknown_descriptor

-- The body of the loop of parse_descriptors.
unfoldable pub parse_descriptor : Compiler → Reader Descriptor
parse_descriptor c = do
  tag ← read_8
  size ← read_8
  available_length ← available
  test_const (leb size available_length)
  identifier ← read_32
  parse_tagged c tag size identifier

-- while (ptr < endptr), on fuel: each round reads a byte at least, so that the number of bytes is
-- enough fuel, and the case `zero` is not reached.
unfoldable pub descriptor_loop : Compiler → ℕ → Reader (List Descriptor)
descriptor_loop c fuel [] = ok ([], [])
descriptor_loop c zero (b ∷ s) = fault
descriptor_loop c (suc fuel) (b ∷ s) =
    bind (parse_descriptor c (b ∷ s))
      λ (d, t). bind (descriptor_loop c fuel t) λ (ds, u). ok (d ∷ ds, u)
