-- ===== src/H264/Sei/Variadic.antt =====
-- The variable length integers of the SEI header, written and read.
use metamix.Base.{
  ℕ, zero, suc, ◌+◌, ◌*◌, ◌/◌, ◌%◌, ◌^◌, ◌≤◌, ◌<◌, List, [], ◌∷◌, ◌++◌, ◌≡◌, ◌↔◌, ◌⊎◌, refl, arith,
}
use metamix.Base.{inl, inr, length, length-append, ◌∙◌, ap}
use metamix.Base.Order.{lt_wf}
use metamix.Binary.Outcome.{ok}
use metamix.H264.Sei.{
  parse_variadic_length_int, variadic_loop, emit_variadic_loop, emit_variadic_length_int,
  quotient_shrinks,
}
use mathlib.Core.Logic.{dif_pos, dif_neg}
use mathlib.Core.WellFounded.{Acc}
use native.Mathlib.Decide.{dec_le}
use native.Mathlib.Bridge.{le_prop}

emit_last : (n : ℕ) (w : Acc ◌<◌ n) → n < 255 → emit_variadic_loop n w ≡ n ∷ []
unfolding emit_variadic_loop
emit_last n (Acc.intro _ smaller) h =
    dif_neg (dec_le 255 n) (λ q. omega arith) _ _ ∙ ap (λ m. m ∷ []) (omega arith)

emit_more :
    (n : ℕ) (w : Acc ◌<◌ n)
    → 255 ≤ n
    → (v : Acc ◌<◌ (n / 255)) × (emit_variadic_loop n w ≡ 0xFF ∷ emit_variadic_loop (n / 255) v)
unfolding emit_variadic_loop
emit_more n (Acc.intro _ smaller) h =
    (smaller _ (quotient_shrinks n h), dif_pos (dec_le 255 n) le_prop h _ _)

emit_pos : (n : ℕ) (w : Acc ◌<◌ n) → 0 < length (emit_variadic_loop n w)
emit_pos n w = elim (dec_le 255 n) [
  | yes h ↦ rw ((emit_more n w h).1) (omega arith)
  | no h ↦ rw (emit_last n w (omega arith)) (omega arith)
]

-- A number below 255 is one byte.
pub emit_small : (n : ℕ) → n < 255 → emit_variadic_length_int n ≡ n ∷ []
unfolding emit_variadic_length_int
emit_small n h = emit_last n (lt_wf.apply n) h

last_step :
    (x n : ℕ) (s : List ℕ) → n < 255 → x + n < 2 ^ 32 → variadic_loop x (n ∷ s) ≡ ok (x + n, s)
unfolding variadic_loop
last_step x n [] h k = ground arith
last_step x n (c ∷ s) h k = ground arith

more_step :
    (x : ℕ) (l : List ℕ)
    → 0 < length l
    → x + 255 < 2 ^ 32
    → variadic_loop x (0xFF ∷ l) ≡ variadic_loop (x + 255) l
unfolding variadic_loop
more_step x [] h k = absurd (omega arith)
more_step x (c ∷ l) h k =
    let sum : (x + 255) % 2 ^ 32 ≡ x + 255 = omega arith in ap (λ m. variadic_loop m (c ∷ l)) sum

-- What the parser makes of the number n, as far as the statements below need it.
Reading : ℕ → ℕ → Type 0
Reading n d = (d ≤ n + 1) × (n < 255 → d ≡ n) × ((d ≡ n) ↔ ((n < 255) ⊎ (n ≡ 256)))

Reading-more : (n d : ℕ) → 255 ≤ n → Reading (n / 255) d → Reading n (255 + d)
unfolding Reading
Reading-more n d h (low, small, same) = (
  elim (dec_le 255 (n / 255)) [ yes g ↦ omega arith | no g ↦ omega (arith, small (omega arith)) ],
  omega arith,
  (
    (λ e. elim (dec_le 255 (n / 255)) [
      | yes g ↦ absurd (omega arith)
      | no g ↦ inr (omega (arith, small (omega arith)))
    ]),
    (λ q. elim q [ inl g ↦ absurd (omega arith) | inr g ↦ omega (arith, small (omega arith)) ]),
  ),
)

read_back :
    (k n : ℕ)
    → n < k
    → (w : Acc ◌<◌ n) (x : ℕ) (s : List ℕ) → x + 2 * n + 2 < 2 ^ 32
    → (d : ℕ) × (variadic_loop x (emit_variadic_loop n w ++ s) ≡ ok (x + d, s)) × Reading n d
unfolding Reading
read_back zero n hk w x s h = absurd (omega arith)
read_back (suc k) n hk w x s h = elim (dec_le 255 n) [
  | no g ↦ (
    n,
    rw (emit_last n w (omega arith)) (last_step x n s (omega arith) (omega arith)),
    (omega arith, omega arith, (λ e. inl (omega arith), λ e. refl)),
  )
  | yes g ↦
      let (v, e) = emit_more n w g in
      let (d, r, spec) = read_back k (n / 255) (omega arith) v (x + 255) s (omega arith) in
      (
        255 + d,
        rw e (
            more_step x (emit_variadic_loop (n / 255) v ++ s)
              (omega
                (arith, length-append (emit_variadic_loop (n / 255) v) s, emit_pos (n / 255) v))
              (omega arith)
            ∙ rw r (ap (λ m. ok (m, s)) (omega arith))),
        Reading-more n d g spec,
      )
]

-- For n below 2 ^ 31 - 1, parse_variadic_length_int reads back the n that emit_variadic_length_int
-- wrote, leaving what follows, exactly when n is below 255 or n is 256.
pub parse_variadic-emit :
    (n : ℕ) (s : List ℕ)
    → n + 1 < 2 ^ 31
    → (parse_variadic_length_int (emit_variadic_length_int n ++ s) ≡ ok (n, s))
      ↔ ((n < 255) ⊎ (n ≡ 256))
unfolding parse_variadic_length_int emit_variadic_length_int Reading
parse_variadic-emit n s h =
    let (d, r, spec) = read_back (suc n) n (omega arith) (lt_wf.apply n) 0 s (omega arith) in
    rw r
      ((λ e. spec.2.0 (ground (arith, e))), (λ q. ap (λ m. ok (m, s)) (omega (arith, spec.2.1 q))))

pub read_small : (n : ℕ) (s : List ℕ) → n < 255 → parse_variadic_length_int (n ∷ s) ≡ ok (n, s)
unfolding parse_variadic_length_int
read_small n s h = last_step 0 n s h (omega arith) ∙ ap (λ m. ok (m, s)) (omega arith)
