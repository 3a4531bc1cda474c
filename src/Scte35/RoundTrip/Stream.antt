-- ===== src/Scte35/RoundTrip/Stream.antt =====
-- Sections one behind the other, through the loop of the extractor.
use metamix.Base.{
  ℕ, zero, suc, ◌+◌, ◌≤◌, List, [], ◌∷◌, ◌++◌, ◌≡◌, refl, ap, sym, ltb, le→ltb, true, false, ◌∙◌,
  some, length, length-append, drop, take-append, drop-append, All, arith,
}
use metamix.Binary.Outcome.{ok}
use metamix.Binary.Parser.{Parser, create, has_next, packed, shift}
use metamix.Binary.Parser.Drain.{drain, packets, cons_packet, drain_packet, drain_end}
use metamix.Binary.Write.{write_8, write_12_prefix}
use metamix.Scte35.Types.{SpliceInfoSection, table_id}
use metamix.Scte35.Emitter.{emit_all}
use metamix.Scte35.Emitter.Section.{compute_section_length, emit_section}
use metamix.Scte35.Parser.Descriptors.{Compiler}
use metamix.Scte35.Parser.Section.{
  SectionBounds, section_bounds, scte35_parser_next, section_format, min_length,
}
use metamix.Scte35.RoundTrip.Layout.{
  IsReadable, behind_length, behind_length_size, emit_section_shape, read_until_length-emit,
  seventeen,
}
use metamix.Scte35.RoundTrip.Whole.{scte35_parser_pack-emit_section}

abbrev bounds_of : SpliceInfoSection → SectionBounds
bounds_of s = record { offset = 0; count = 3 + compute_section_length s }

length-emit_section :
    {c : Compiler} (s : SpliceInfoSection)
    → IsReadable c s
    → length (emit_section s) ≡ 3 + compute_section_length s
unfolding write_8 write_12_prefix
length-emit_section s h = rw (emit_section_shape s h) (omega (arith, behind_length_size s h))

scte35_parser_next-emit :
    {c : Compiler} (s : SpliceInfoSection) (rest : List ℕ)
    → IsReadable c s
    → scte35_parser_next (emit_section s ++ rest) ≡ ok (some (bounds_of s))
unfolding scte35_parser_next section_bounds
scte35_parser_next-emit s rest h =
    let L : ℕ = compute_section_length s in
    let behind : List ℕ = behind_length s ++ rest in
    let size : length behind ≡ L + length rest =
      omega (arith, length-append (behind_length s) rest, behind_length_size s h) in
    let shape : emit_section s ++ rest ≡ write_8 table_id ++ (write_12_prefix 3 L ++ behind) =
      rw (emit_section_shape s h) (unfold write_8 write_12_prefix in refl) in
    let read = read_until_length-emit L behind (omega arith) (seventeen s) h.section_length in
    let total : ℕ = length (write_8 table_id ++ (write_12_prefix 3 L ++ behind)) in
    let enough : ltb total min_length ≡ false =
      le→ltb total min_length (unfold write_8 write_12_prefix in omega (arith, seventeen s)) in
    rw shape (rw (enough, read))

remaining : List SpliceInfoSection → ℕ → Parser
remaining ss consumed = record { consumed = consumed; left = emit_all emit_section ss }

module _ (c : Compiler) (s : SpliceInfoSection) (h : IsReadable c s) (rest : List ℕ) where
  has_next-emit : (k : ℕ) → has_next (record { consumed = k; left = emit_section s ++ rest }) ≡ true
  unfolding has_next write_8
  has_next-emit k = rw (emit_section_shape s h)

  drop-emit_section : drop (0 + (3 + compute_section_length s)) (emit_section s ++ rest) ≡ rest
  drop-emit_section =
      let size : 0 + (3 + compute_section_length s) ≡ length (emit_section s) =
        omega (arith, length-emit_section s h) in
      rw size (drop-append (emit_section s) rest)

  packed-emit :
      (k : ℕ)
      → packed
          (section_format c)
          (record { consumed = k; left = emit_section s ++ rest })
          (bounds_of s)
        ≡ ok s
  unfolding packed
  packed-emit k =
      rw (sym (length-emit_section s h))
        (rw (take-append (emit_section s) rest) (scte35_parser_pack-emit_section c s h))

shift-emit :
    (c : Compiler) (s : SpliceInfoSection) (ss : List SpliceInfoSection) (k : ℕ)
    → IsReadable c s
    → shift (section_format c) (remaining (s ∷ ss) k) (bounds_of s)
      ≡ remaining ss (k + (0 + (3 + compute_section_length s)))
unfolding shift remaining
shift-emit c s ss k h =
    ap (λ left. record { consumed = k + (0 + (3 + compute_section_length s)); left = left })
      (drop-emit_section c s h (emit_all emit_section ss))

drain-emit :
    (c : Compiler) (ss : List SpliceInfoSection) (fuel consumed : ℕ)
    → All (IsReadable c) ss
    → length (emit_all emit_section ss) ≤ fuel
    → drain (section_format c) fuel (remaining ss consumed) ≡ (ss, some (ok tt))
drain-emit c [] fuel consumed h f =
    drain_end (section_format c) fuel (remaining [] consumed) (unfold has_next remaining in refl)
drain-emit c (s ∷ ss) zero consumed (hs, hss) f = absurd (
    omega
      (arith, length-append (emit_section s) (emit_all emit_section ss), length-emit_section s hs))
drain-emit c (s ∷ ss) (suc fuel) consumed (hs, hss) f =
    let rest : List ℕ = emit_all emit_section ss in
    drain_packet (section_format c) fuel (remaining (s ∷ ss) consumed) (bounds_of s) s
      (unfold remaining in has_next-emit c s hs rest consumed)
      (unfold remaining in scte35_parser_next-emit s rest hs)
      (unfold remaining in packed-emit c s hs rest consumed)
    ∙ rw (shift-emit c s ss consumed hs) (
        ap (cons_packet s) (
          drain-emit c ss fuel _ hss
            (omega (arith, length-append (emit_section s) rest, length-emit_section s hs))))

-- Sections written one behind the other, each readable on its own, are what the extraction loop hands
-- out, in order, and the loop ends with no error.
pub packets-emit_sections :
    (c : Compiler) (ss : List SpliceInfoSection)
    → All (IsReadable c) ss
    → packets (section_format c) (emit_all emit_section ss) ≡ (ss, some (ok tt))
unfolding packets create remaining
packets-emit_sections c ss h = drain-emit c ss (length (emit_all emit_section ss)) 0 h (omega arith)
