-- ===== src/H264/Sei/Bounds.antt =====
-- The bounds that sei_parser_next returns, and the extraction loop over them.
use metamix.Base.{ℕ, ◌+◌, ◌%◌, ◌^◌, ◌≤◌, ◌<◌, List, [], ◌∷◌, ◌≡◌, ◌≢◌, some, none, length, arith}
use metamix.Binary.Outcome.{ok, bind-eq-ok, fault}
use metamix.Binary.Parser.{IsBounded}
use metamix.Binary.Parser.Drain.{packets, packets-ne-none}
use metamix.H264.Sei.{
  SeiBounds, sei_parser_next, sei_format, variadic_loop, sei_bounds, parse_variadic_length_int,
}

-- A number that was read took a byte at least.
variadic_loop_takes :
    (x : ℕ) (s : List ℕ) (n : ℕ) (t : List ℕ) → variadic_loop x s ≡ ok (n, t) → length t < length s
unfolding variadic_loop
variadic_loop_takes x [] n t e = cc
variadic_loop_takes x (b ∷ []) n t e = ground arith
variadic_loop_takes x (b ∷ c ∷ s) n t e =
    ground (arith, variadic_loop_takes ((x + 255) % 2 ^ 32) (c ∷ s) n t)

sei_bounds_inside :
    (total n k : ℕ) (s : List ℕ) (b : SeiBounds)
    → length s + 2 ≤ total
    → sei_bounds total n k s ≡ ok (some b)
    → (2 ≤ b.offset) × (b.offset + b.count ≤ total)
unfolding sei_bounds
sei_bounds_inside total n k s b h e = ground arith

-- The bounds that sei_parser_next returns begin behind two header bytes at least and lie inside the
-- buffer.
pub sei_parser_next_bounds :
    (bytes : List ℕ) (b : SeiBounds)
    → sei_parser_next bytes ≡ ok (some b)
    → (2 ≤ b.offset) × (b.offset + b.count ≤ length bytes)
unfolding sei_parser_next parse_variadic_length_int
sei_parser_next_bounds [] b e = cc
sei_parser_next_bounds (c ∷ s) b e =
    let ((n, s₁), e₁, rest) = bind-eq-ok (variadic_loop 0 (c ∷ s)) _ e in
    let ((k, s₂), e₂, last) = bind-eq-ok (variadic_loop 0 s₁) _ rest in
    sei_bounds_inside (length (c ∷ s)) n k s₂ b
      (omega (arith, variadic_loop_takes 0 (c ∷ s) n s₁ e₁, variadic_loop_takes 0 s₁ k s₂ e₂)) last

pub sei_format-IsBounded : IsBounded sei_format
sei_format-IsBounded = record {
  inside = λ bytes b h. (sei_parser_next_bounds bytes b h).1;
  advances = λ bytes b h. omega (arith, sei_parser_next_bounds bytes b h);
}

-- The loop over the payloads of an SODB ends on every input.
pub seis-ne-none : (bytes : List ℕ) → (packets sei_format bytes).1 ≢ none
seis-ne-none bytes = packets-ne-none sei_format sei_format-IsBounded bytes

-- A lone header byte below 255, as an SEI NALU of two bytes leaves behind its type byte, makes the
-- parser read behind the end of its buffer.
pub sei_parser_next_short : (b : ℕ) → b < 255 → sei_parser_next (b ∷ []) ≡ fault
unfolding sei_parser_next variadic_loop
sei_parser_next_short b h = ground arith
