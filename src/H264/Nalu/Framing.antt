-- ===== src/H264/Nalu/Framing.antt =====
-- NALUs written one behind the other are read back.
use metamix.Base.{ℕ, zero, suc, ◌+◌, ◌≤◌, ◌<◌, List, [], ◌∷◌, ◌++◌, ◌≡◌, refl, ◌∙◌, ap}
use metamix.Base.{some, length, length-append, take-append, drop-append, drop-add, All, arith, drop}
use metamix.Binary.Outcome.{ok}
use metamix.Binary.Parser.{Parser, create, has_next, shift, packed}
use metamix.Binary.Parser.Drain.{drain, packets, cons_packet, drain_packet, drain_end}
use metamix.H264.Nalu.{NaluBounds, nalu_parser_next, nalu_format, max_length, emit_avcc_nalu}

-- A NALU that the length field can announce and the parser takes.
abbrev pub IsNalu : List ℕ → Type 0
IsNalu nalu = (0 < length nalu) × (length nalu ≤ max_length)

abbrev bounds_of : List ℕ → NaluBounds
bounds_of nalu = record { offset = 4; count = length nalu }

nalu_parser_next-emit :
    (nalu rest : List ℕ)
    → IsNalu nalu
    → nalu_parser_next (emit_avcc_nalu nalu ++ rest) ≡ ok (some (bounds_of nalu))
unfolding nalu_parser_next emit_avcc_nalu
nalu_parser_next-emit nalu rest h = ground (arith, length-append nalu rest)

abbrev pub emit_nalus : List (List ℕ) → List ℕ
emit_nalus [] = []
emit_nalus (n ∷ ns) = emit_avcc_nalu n ++ emit_nalus ns

remaining : List (List ℕ) → ℕ → Parser
remaining ns consumed = record { consumed = consumed; left = emit_nalus ns }

length-emit :
    (nalu rest : List ℕ) → length (emit_avcc_nalu nalu ++ rest) ≡ 4 + length (nalu ++ rest)
unfolding emit_avcc_nalu
length-emit nalu rest = omega arith

drop-emit : (nalu rest : List ℕ) → drop (4 + length nalu) (emit_avcc_nalu nalu ++ rest) ≡ rest
unfolding emit_avcc_nalu
drop-emit nalu rest = drop-add 4 (length nalu) _ ∙ drop-append nalu rest

packed-emit :
    (nalu : List ℕ) (ns : List (List ℕ)) (consumed : ℕ)
    → packed nalu_format (remaining (nalu ∷ ns) consumed) (bounds_of nalu) ≡ ok nalu
unfolding packed remaining emit_avcc_nalu
packed-emit nalu ns consumed = ap ok (take-append nalu (emit_nalus ns))

shift-emit :
    (nalu : List ℕ) (ns : List (List ℕ)) (consumed : ℕ)
    → shift nalu_format (remaining (nalu ∷ ns) consumed) (bounds_of nalu)
      ≡ remaining ns (consumed + (4 + length nalu))
unfolding shift remaining
shift-emit nalu ns consumed = rw (drop-emit nalu (emit_nalus ns))

drain-emit_nalus :
    (ns : List (List ℕ)) (fuel consumed : ℕ)
    → All IsNalu ns
    → length (emit_nalus ns) ≤ fuel
    → drain nalu_format fuel (remaining ns consumed) ≡ (ns, some (ok tt))
drain-emit_nalus [] fuel consumed h f =
    drain_end nalu_format fuel (remaining [] consumed) (unfold has_next remaining in refl)
drain-emit_nalus (n ∷ ns) zero consumed h f = absurd (omega (arith, length-emit n (emit_nalus ns)))
drain-emit_nalus (n ∷ ns) (suc fuel) consumed (hn, hns) f =
    drain_packet nalu_format fuel (remaining (n ∷ ns) consumed) (bounds_of n) n
      (unfold has_next remaining emit_avcc_nalu in refl)
      (unfold remaining in nalu_parser_next-emit n (emit_nalus ns) hn) (packed-emit n ns consumed)
    ∙ rw (shift-emit n ns consumed) (
        ap (cons_packet n) (
          drain-emit_nalus ns fuel (consumed + (4 + length n)) hns
            (omega (arith, length-emit n (emit_nalus ns), length-append n (emit_nalus ns)))))

-- The NALUs that emit_avcc_nalu writes one behind the other, each of 1 to max_length bytes, are what
-- the extraction loop hands out, in order, and the loop ends with no error.
pub packets-emit_nalus :
    (ns : List (List ℕ)) → All IsNalu ns → packets nalu_format (emit_nalus ns) ≡ (ns, some (ok tt))
unfolding packets create remaining
packets-emit_nalus ns h = drain-emit_nalus ns (length (emit_nalus ns)) 0 h (omega arith)
