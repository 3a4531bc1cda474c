-- ===== src/Scte35/RoundTrip/Section.antt =====
-- Whole sections.
use metamix.Base.{ℕ, ◌+◌, ◌-◌, ◌*◌, ◌/◌, ◌%◌, ◌^◌, ◌<◌, List, [], ◌∷◌, ◌++◌, true, false, ◌≡◌, refl}
use metamix.Base.{
  ◌⊎◌, inl, inr, length, length-append, take-append, drop-append, take, drop, All, ltb, ◌==◌,
  lt→ltb, arith, bit_or,
}
use metamix.Base.Bits.{agreeing, agree_below, or_zero}
use metamix.Binary.Outcome.{ok}
use metamix.Binary.Write.{write_8, write_12_pair, write_16}
use metamix.Binary.Read.{read_8, scan_12_high, read_12_low}
use metamix.Binary.RoundTrip.{read_8-write_8, read_16-write_16}
use metamix.Scte35.Types.{Command, Descriptor, command_type}
use metamix.Scte35.Emitter.{
  emit_all, emit_command, emit_descriptor, hint_command, hint_descriptor, hint_all,
}
use metamix.Scte35.Parser.Descriptors.{Compiler}
use metamix.Scte35.Parser.Section.{
  parse_sized_command, check_command_length, parse_descriptors, parse_descriptor_loop,
}
use metamix.Scte35.RoundTrip.Commands.{InCommand, parse_command-emit_command}
use metamix.Scte35.RoundTrip.Sizes.{type_range, uncounted, length-emit_command, length-emit_all}
use metamix.Scte35.RoundTrip.Descriptors.{
  InDescriptor, descriptor_loop-emit_all, length-emit_descriptor, hint_descriptor_pos,
}

-- The middle byte of write_12_pair: its upper half is the tier's lower half if the command is short
-- or the tier ends in ones, and its lower half is zero.
abbrev pub middle : ℕ → ℕ → ℕ
middle tier size = bit_or (tier % 16 * 16) (size / 16 % 16 * 16)

or_ones : (y : ℕ) → y < 16 → bit_or 240 (y * 16) ≡ 240
unfolding agreeing
or_ones = agree_below (λ y. bit_or 240 (y * 16)) (λ y. 240) 16 refl

or_low_table : (i : ℕ) → i < 256 → bit_or (i / 16 * 16) (i % 16 * 16) % 16 ≡ 0
unfolding agreeing
or_low_table = agree_below (λ i. bit_or (i / 16 * 16) (i % 16 * 16) % 16) (λ i. 0) 256 refl

middle_low : (tier size : ℕ) → middle tier size % 16 ≡ 0
middle_low tier size =
    let i : ℕ = tier % 16 * 16 + size / 16 % 16 in
    let hi : i / 16 ≡ tier % 16 = omega arith in
    let lo : i % 16 ≡ size / 16 % 16 = omega arith in rw (hi, lo) at (or_low_table i (omega arith))

middle_high : (tier size : ℕ) → (size < 16) ⊎ (tier % 16 ≡ 15) → middle tier size ≡ tier % 16 * 16
middle_high tier size (inl h) =
    let none : size / 16 % 16 ≡ 0 = omega arith in rw none (or_zero (tier % 16 * 16) (omega arith))
middle_high tier size (inr h) = rw h (or_ones (size / 16 % 16) (omega arith))

abbrev pub after_tier : ℕ → ℕ → List ℕ → List ℕ
after_tier tier size s = middle tier size ∷ (size % 256) ∷ s

-- scan_12_high, then read_8, on what write_12_pair wrote.
pub scan_12_high-write_12_pair :
    (tier size : ℕ) (s : List ℕ)
    → tier < 4096
    → (size < 16) ⊎ (tier % 16 ≡ 15)
    → scan_12_high (write_12_pair tier size ++ s) ≡ ok (tier, write_12_pair tier size ++ s)
unfolding scan_12_high write_12_pair
scan_12_high-write_12_pair tier size s ht h = ground (arith, middle_high tier size h)

pub read_8-write_12_pair :
    (tier size : ℕ) (s : List ℕ)
    → read_8 (write_12_pair tier size ++ s) ≡ ok (tier / 16 % 256, after_tier tier size s)
unfolding read_8 write_12_pair
read_8-write_12_pair tier size s = refl

read_12_low-after_tier :
    (tier size : ℕ) (s : List ℕ) → size < 256 → read_12_low (after_tier tier size s) ≡ ok (size, s)
unfolding read_12_low
read_12_low-after_tier tier size s h = ground (arith, middle_low tier size)

pub parse_sized_command-emit :
    (cmd : Command) (tier : ℕ) (s : List ℕ)
    → InCommand cmd
    → uncounted cmd ≡ 0
    → hint_command cmd < 256
    → 0 < length s
    → parse_sized_command
        (after_tier tier (hint_command cmd) (write_8 (command_type cmd) ++ (emit_command cmd ++ s)))
      ≡ ok (cmd, s)
unfolding parse_sized_command
parse_sized_command-emit cmd tier s h hu hs hl =
    let size : ℕ = hint_command cmd in
    let rest : List ℕ = emit_command cmd ++ s in
    let total : length rest ≡ size + length s =
      omega (arith, length-append (emit_command cmd) s, length-emit_command cmd) in
    let room : ltb size (length rest) ≡ true = lt→ltb size (length rest) (omega arith) in
    let short : (size == 0xfff) ≡ false = ground arith in
    let same : (size % 2 ^ 16 == size) ≡ true = ground arith in
    let consumed : length rest - length s ≡ size = omega arith in
    simp
      (
        read_12_low-after_tier tier size (write_8 (command_type cmd) ++ rest) hs,
        read_8-write_8 (command_type cmd) rest (type_range cmd),
        short,
        room,
        parse_command-emit_command cmd size s h,
        consumed,
      )
      (unfold check_command_length in simp (short, same))

pub parse_descriptor_loop-emit :
    (c : Compiler) (ds : List Descriptor) (tail : List ℕ)
    → All (InDescriptor c) ds
    → hint_all hint_descriptor ds < 2 ^ 16
    → 0 < length tail
    → parse_descriptor_loop c
        (write_16 (hint_all hint_descriptor ds) ++ (emit_all emit_descriptor ds ++ tail))
      ≡ ok (ds, tail)
unfolding parse_descriptor_loop
parse_descriptor_loop-emit c [] tail h hs hl = simp (read_16-write_16 0 tail (omega arith))
parse_descriptor_loop-emit c (d ∷ ds) tail h hs hl =
    let all : List Descriptor = d ∷ ds in
    let D : List ℕ = emit_all emit_descriptor all in
    let size : ℕ = hint_all hint_descriptor all in
    let sized : length D ≡ size =
      length-emit_all emit_descriptor hint_descriptor length-emit_descriptor all in
    let nonzero : (size == 0) ≡ false = ground (arith, hint_descriptor_pos d) in
    let room : ltb size (length (D ++ tail)) ≡ true =
      lt→ltb size (length (D ++ tail)) (omega (arith, length-append D tail)) in
    let front : take size (D ++ tail) ≡ D = rw (← sized) (take-append D tail) in
    let back : drop size (D ++ tail) ≡ tail = rw (← sized) (drop-append D tail) in
    simp (read_16-write_16 size (D ++ tail) hs, nonzero, room)
      (unfold parse_descriptors in
        simp (front, back, descriptor_loop-emit_all c size all h (omega arith)))
