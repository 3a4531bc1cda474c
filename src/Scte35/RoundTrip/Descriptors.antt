-- ===== src/Scte35/RoundTrip/Descriptors.antt =====
-- Descriptors, one and many.
use metamix.Base.{
  ℕ, zero, suc, ◌+◌, ◌-◌, ◌*◌, ◌/◌, ◌%◌, ◌≤◌, ◌^◌, ◌<◌, List, [], ◌∷◌, ◌++◌, true, false, ◌≡◌, refl,
  ◌∙◌, append_assoc,
}
use metamix.Base.{
  length, length-append, take-append, drop-append, All, leb, le→leb, le→ltb, arith, ◌==◌,
}
use metamix.Base.Bits.{IsByte}
use metamix.Binary.Outcome.{ok, throw, condition_failed, bind}
use metamix.Binary.Write.{write_8, write_16, write_32, write_48}
use metamix.Binary.Read.{scan_8, read_8}
use metamix.Binary.RoundTrip.{read_8-write_8, read_16-write_16, read_32-write_32}
use metamix.Scte35.Types.{Descriptor, avail, dtmf, segmentation, time_descriptor, cuei}
use metamix.Scte35.Emitter.{emit_all, emit_descriptor, emit_descriptor_header, hint_descriptor}
use metamix.Scte35.Parser.Descriptors.{
  Compiler, left_to_right, read_48, read_bytes, segmentation_bytes, read_time_fields,
}
use metamix.Scte35.Parser.Descriptors.{
  parse_avail_descriptor, parse_dtmf_descriptor, parse_segmentation_descriptor,
  parse_time_descriptor,
}
use metamix.Scte35.Parser.Descriptors.{parse_tagged, parse_descriptor, descriptor_loop}
use metamix.Scte35.RoundTrip.Sizes.{length-bytes}

-- The fields of a descriptor are in range. DTMF descriptors are left out. A time descriptor asks for
-- a compiler that evaluates from left to right.
abbrev pub InDescriptor : Compiler → Descriptor → Type 0
InDescriptor c (avail n) = n < 2 ^ 32
InDescriptor c (dtmf preroll chars) = ⊥
InDescriptor c (segmentation bytes) = (length bytes < 252) × All IsByte bytes
InDescriptor c (time_descriptor seconds nanoseconds offset) =
    (seconds < 2 ^ 48)
    × (nanoseconds < 2 ^ 32)
    × (offset < 2 ^ 16)
    × (c.operands ≡ left_to_right)
    × (c.arguments ≡ left_to_right)

emit_all-write_8 : (bytes : List ℕ) → All IsByte bytes → emit_all write_8 bytes ≡ bytes
unfolding write_8
emit_all-write_8 [] h = refl
emit_all-write_8 (b ∷ bs) (hb, hbs) =
    let same : b % 256 ≡ b = omega arith in rw (same, emit_all-write_8 bs hbs)

read_48-write_48 :
    (v : ℕ) (s : List ℕ) → v < 2 ^ 48 → read_48 left_to_right (write_48 v ++ s) ≡ ok (v, s)
unfolding read_48 write_48
read_48-write_48 v s h = ground arith

parse_avail :
    (n : ℕ) (s : List ℕ)
    → n < 2 ^ 32
    → parse_avail_descriptor 8 cuei (write_32 n ++ s) ≡ ok (avail n, s)
unfolding parse_avail_descriptor
parse_avail n s h = rw (read_32-write_32 n s h)

read_bytes-append : (bytes s : List ℕ) → read_bytes (length bytes) (bytes ++ s) ≡ ok (bytes, s)
unfolding read_bytes
read_bytes-append bytes s = rw (take-append bytes s, drop-append bytes s)

parse_segmentation :
    (bytes s : List ℕ)
    → parse_segmentation_descriptor (4 + length bytes) cuei (bytes ++ s)
      ≡ ok (segmentation bytes, s)
unfolding parse_segmentation_descriptor segmentation_bytes
parse_segmentation bytes s =
    let fits : 4 + length bytes ≤ length (bytes ++ s) + 4 = omega (arith, length-append bytes s) in
    let back : 4 + length bytes - 4 ≡ length bytes = omega arith in
    simp (
      le→ltb (length (bytes ++ s) + 4) (4 + length bytes) fits,
      le→ltb (4 + length bytes) 4 (omega arith),
      back,
      read_bytes-append bytes s,
    )

parse_time :
    (c : Compiler) (v n u : ℕ) (s : List ℕ)
    → v < 2 ^ 48
    → n < 2 ^ 32
    → u < 2 ^ 16
    → c.operands ≡ left_to_right
    → c.arguments ≡ left_to_right
    → parse_time_descriptor c 16 cuei (write_48 v ++ (write_32 n ++ (write_16 u ++ s)))
      ≡ ok (time_descriptor v n u, s)
unfolding parse_time_descriptor
parse_time c v n u s hv hn hu ho ha = rw ha (
    unfold read_time_fields in
    rw ho (
      simp (
        read_48-write_48 v (write_32 n ++ (write_16 u ++ s)) hv,
        read_32-write_32 n (write_16 u ++ s) hn,
        read_16-write_16 u s hu,
      )))

-- parse_descriptor behind the tag byte, when the payload is long enough.
parse_descriptor_header :
    (c : Compiler) (tag size : ℕ) (s : List ℕ)
    → tag < 256
    → size < 256
    → size ≤ 4 + length s
    → parse_descriptor c (write_8 tag ++ (write_8 size ++ (write_32 cuei ++ s)))
      ≡ parse_tagged c tag size cuei s
unfolding parse_descriptor
parse_descriptor_header c tag size s ht hs hl =
    let fits : leb size (length (write_32 cuei ++ s)) ≡ true =
      le→leb size (length (write_32 cuei ++ s)) (unfold write_32 in omega arith) in
    simp (
      read_8-write_8 tag (write_8 size ++ (write_32 cuei ++ s)) ht,
      read_8-write_8 size (write_32 cuei ++ s) hs,
      fits,
      read_32-write_32 cuei s (omega arith),
    )

-- A descriptor whose fields are in range and that is no DTMF descriptor is read back, whatever
-- follows it; a time descriptor if the compiler evaluates from left to right.
pub parse_descriptor-emit :
    (c : Compiler) (d : Descriptor) (s : List ℕ)
    → InDescriptor c d
    → parse_descriptor c (emit_descriptor d ++ s) ≡ ok (d, s)
unfolding emit_descriptor emit_descriptor_header parse_tagged
parse_descriptor-emit c (avail n) s h = simp append_assoc (
    parse_descriptor_header c 0x00 8 (write_32 n ++ s) (omega arith) (omega arith)
      (unfold write_32 in omega arith)
    ∙ parse_avail n s h)
parse_descriptor-emit c (dtmf preroll chars) s h = absurd h
parse_descriptor-emit c (segmentation bytes) s (hl, hb) =
    let size : 6 + length bytes - 2 ≡ 4 + length bytes = omega arith in
    simp (append_assoc, size, emit_all-write_8 bytes hb)
      (parse_descriptor_header c 0x02 (4 + length bytes) (bytes ++ s) (omega arith) (omega arith)
          (omega (arith, length-append bytes s))
        ∙ parse_segmentation bytes s)
parse_descriptor-emit c (time_descriptor v n u) s (hv, hn, hu, ho, ha) = simp append_assoc (
    parse_descriptor_header c 0x03 16 (write_48 v ++ (write_32 n ++ (write_16 u ++ s)))
      (omega arith) (omega arith) (unfold write_48 write_32 write_16 in omega arith)
    ∙ parse_time c v n u s hv hn hu ho ha)

dtmf_length :
    (preroll n : ℕ) (s : List ℕ)
    → n < 8
    → parse_dtmf_descriptor (6 + n) cuei ((preroll % 256) ∷ (n * 32 % 256) ∷ s)
      ≡ throw condition_failed
unfolding parse_dtmf_descriptor scan_8 read_8
dtmf_length preroll n s h =
    let count : n * 32 % 256 / 32 % 8 ≡ n = omega arith in
    let differ : (6 + n == 4 + 1 + n) ≡ false = ground arith in rw (count, differ)

-- Every DTMF descriptor that the emitter writes, of at most seven characters, is refused: the parser
-- asks for a descriptor_length that is one less than the emitter writes.
pub dtmf-refused :
    (c : Compiler) (preroll : ℕ) (chars s : List ℕ)
    → length chars < 8
    → parse_descriptor c (emit_descriptor (dtmf preroll chars) ++ s) ≡ throw condition_failed
unfolding emit_descriptor emit_descriptor_header parse_tagged
dtmf-refused c preroll chars s h =
    let size : 8 + length chars - 2 ≡ 6 + length chars = omega arith in
    let payload : List ℕ =
      write_8 preroll ++ (write_8 (length chars * 32) ++ (emit_all write_8 chars ++ s)) in
    let long : 6 + length chars ≤ 4 + length payload =
      unfold write_8 in
      omega (arith, length-append (emit_all write_8 chars) s, length-bytes chars) in
    simp (append_assoc, size)
      (parse_descriptor_header c 0x01 (6 + length chars) payload (omega arith) (omega arith) long
        ∙ unfold write_8 in dtmf_length preroll (length chars) (emit_all write_8 chars ++ s) h)

pub length-emit_descriptor : (d : Descriptor) → length (emit_descriptor d) ≡ hint_descriptor d
unfolding emit_descriptor hint_descriptor emit_descriptor_header write_8 write_16 write_32 write_48
length-emit_descriptor (avail n) = omega arith
length-emit_descriptor (dtmf preroll chars) = omega (arith, length-bytes chars)
length-emit_descriptor (segmentation bytes) = omega (arith, length-bytes bytes)
length-emit_descriptor (time_descriptor v n u) = omega arith

pub hint_descriptor_pos : (d : Descriptor) → 6 ≤ hint_descriptor d
unfolding hint_descriptor
hint_descriptor_pos (avail n) = omega arith
hint_descriptor_pos (dtmf preroll chars) = omega arith
hint_descriptor_pos (segmentation bytes) = omega arith
hint_descriptor_pos (time_descriptor v n u) = omega arith

descriptor_loop_step :
    (c : Compiler) (fuel : ℕ) (s : List ℕ)
    → 0 < length s
    → descriptor_loop c (suc fuel) s
      ≡ bind
          (parse_descriptor c s)
          λ (d, t). bind (descriptor_loop c fuel t) λ (ds, u). ok (d ∷ ds, u)
unfolding descriptor_loop
descriptor_loop_step c fuel [] h = absurd (omega arith)
descriptor_loop_step c fuel (b ∷ s) h = refl

-- The loop reads back a list of descriptors whose fields are in range; as many rounds as there are
-- bytes are enough.
pub descriptor_loop-emit_all :
    (c : Compiler) (fuel : ℕ) (ds : List Descriptor)
    → All (InDescriptor c) ds
    → length (emit_all emit_descriptor ds) ≤ fuel
    → descriptor_loop c fuel (emit_all emit_descriptor ds) ≡ ok (ds, [])
descriptor_loop-emit_all c fuel [] h hf = empty fuel
  where
    empty : (fuel : ℕ) → descriptor_loop c fuel [] ≡ ok ([], [])
    empty zero = unfold descriptor_loop in refl
    empty (suc fuel) = unfold descriptor_loop in refl
descriptor_loop-emit_all c zero (d ∷ ds) h hf = absurd (
    omega (
      arith,
      length-append (emit_descriptor d) (emit_all emit_descriptor ds),
      length-emit_descriptor d,
      hint_descriptor_pos d,
    ))
descriptor_loop-emit_all c (suc fuel) (d ∷ ds) (hd, hds) hf =
    let rest : List ℕ = emit_all emit_descriptor ds in
    let sizes : length (emit_descriptor d ++ rest) ≡ hint_descriptor d + length rest =
      omega (arith, length-append (emit_descriptor d) rest, length-emit_descriptor d) in
    descriptor_loop_step c fuel (emit_descriptor d ++ rest)
      (omega (arith, sizes, hint_descriptor_pos d))
    ∙ rw (parse_descriptor-emit c d rest hd)
        (rw (descriptor_loop-emit_all c fuel ds hds (omega (arith, sizes, hint_descriptor_pos d))))
