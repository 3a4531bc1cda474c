-- ===== src/Binary/Parser/Drain.antt =====
-- The loop `while (parser) { parser >> packet; … }` of the extractors and the injector
-- (src/proc/extractor.cpp, src/proc/injector.cpp): the packets that it hands to its body, and how it
-- ends. On fuel; `none` means that the fuel ran out.
use metamix.Base.{ℕ, zero, suc, ◌+◌, ◌≤◌, ◌<◌, List, [], ◌∷◌, Option, none, some, ◌≡◌, ◌≢◌, refl}
use metamix.Base.{length, length-drop, true, false, arith, Bool-cases, inl, inr}
use metamix.Binary.Outcome.{Outcome, ok, parse_error, runtime_error, fault, BinaryParseError}
use metamix.Binary.Parser.{Format, IsBounded, Parser, create, has_next, extract, next}
use metamix.Binary.Parser.{after_bounds, shift, dereference, packed, inject}

abbrev pub Drained : Type 0 → Type 0
Drained Packet = List Packet × Option (Outcome (Unit {0}))

module _ {Packet : Type 0} where
  abbrev pub cons_packet : Packet → Drained Packet → Drained Packet
  cons_packet x (xs, r) = (x ∷ xs, r)

  -- An exception ends the loop; else it goes on with what `more` returns.
  unfoldable pub continue_with : Outcome Packet → Drained Packet → Drained Packet
  continue_with (ok x) more = cons_packet x more
  continue_with (parse_error e) more = ([], some (parse_error e))
  continue_with runtime_error more = ([], some runtime_error)
  continue_with fault more = ([], some fault)

module _ {Packet Bounds : Type 0} (F : Format Packet Bounds) where
  unfoldable pub drain : ℕ → Parser → Drained Packet
  unfolding continue_with
  drain zero p = elim (has_next p) [ true ↦ ([], none) | false ↦ ([], some (ok tt)) ]
  drain (suc fuel) p =
      let more = drain fuel (extract F p).0 in
      elim (has_next p) [ true ↦ continue_with (extract F p).1 more | false ↦ ([], some (ok tt)) ]

  -- A round consumes a byte at least, so the number of bytes is enough fuel.
  unfoldable pub packets : List ℕ → Drained Packet
  unfolding drain
  packets bytes = drain (length bytes) (create bytes)

  extract_step :
      (p : Parser) (r : Outcome (Option Bounds))
      → has_next p ≡ true
      → F.next_bounds p.left ≡ r
      → extract F p ≡ ((after_bounds F p r).0, dereference F (after_bounds F p r).1)
  unfolding extract next
  extract_step p r h e = rw (h, next) (rw e)

  -- One round of the loop: the bounds found are packed and handed out.
  pub drain_packet :
      (fuel : ℕ) (p : Parser) (b : Bounds) (x : Packet)
      → has_next p ≡ true
      → F.next_bounds p.left ≡ ok (some b)
      → packed F p b ≡ ok x
      → drain (suc fuel) p ≡ cons_packet x (drain fuel (shift F p b))
  unfolding drain after_bounds dereference
  drain_packet fuel p b x h e q =
      let step = extract_step p (ok (some b)) h e in rw (h, drain) (rw step (rw q))

  -- The last round, when no bounds are found because of an error.
  pub drain_refused :
      (fuel : ℕ) (p : Parser) (e : BinaryParseError)
      → has_next p ≡ true
      → F.next_bounds p.left ≡ parse_error e
      → (drain (suc fuel) p).0 ≡ []
  unfolding drain after_bounds dereference inject
  drain_refused fuel p e h r =
      let step = extract_step p (parse_error e) h r in rw (h, drain) (rw step)

  pub drain_end : (fuel : ℕ) (p : Parser) → has_next p ≡ false → drain fuel p ≡ ([], some (ok tt))
  unfolding drain
  drain_end zero p h = rw (h, drain)
  drain_end (suc fuel) p h = rw (h, drain)

  module _ (bounded : IsBounded F) where
    after_bounds_shorter :
        (p : Parser) (r : Outcome (Option Bounds)) {x : Packet}
        → F.next_bounds p.left ≡ r
        → dereference F (after_bounds F p r).1 ≡ ok x
        → length (after_bounds F p r).0.left < length p.left
    unfolding drain after_bounds dereference
    after_bounds_shorter p (ok (some b)) e h = omega (
      arith,
      length-drop (F.start b + F.size b) p.left,
      bounded.inside p.left b e,
      bounded.advances p.left b e,
    )
    after_bounds_shorter p (ok none) e h = cc
    after_bounds_shorter p (parse_error x) e h = cc
    after_bounds_shorter p runtime_error e h = cc
    after_bounds_shorter p fault e h = cc

    -- A packet that `>>` hands out has taken a byte at least.
    extract_shorter :
        (p : Parser) {x : Packet}
        → has_next p ≡ true
        → (extract F p).1 ≡ ok x
        → length (extract F p).0.left < length p.left
    extract_shorter p h e =
        let step = extract_step p (F.next_bounds p.left) h refl in
        rw step (after_bounds_shorter p (F.next_bounds p.left) refl (rw step at e))

    continue_with-ne-none :
        (r : Outcome Packet) (more : Drained Packet)
        → ((x : Packet) → r ≡ ok x → more.1 ≢ none)
        → (continue_with r more).1 ≢ none
    unfolding continue_with
    continue_with-ne-none (ok x) more h = h x refl
    continue_with-ne-none (parse_error e) more h = λ q. cc
    continue_with-ne-none runtime_error more h = λ q. cc
    continue_with-ne-none fault more h = λ q. cc

    no_bytes : (p : Parser) → has_next p ≡ true → 0 < length p.left
    unfolding has_next
    no_bytes p h = ground arith

    drain-ne-none : (fuel : ℕ) (p : Parser) → length p.left ≤ fuel → (drain fuel p).1 ≢ none
    unfolding drain
    drain-ne-none zero p h = elim (Bool-cases (has_next p)) [
      | inl e ↦ absurd (omega (arith, no_bytes p e))
      | inr e ↦ rw (e, drain) (λ q. cc)
    ]
    drain-ne-none (suc fuel) p h = elim (Bool-cases (has_next p)) [
      | inl e ↦
          rw (e, drain)
            (continue_with-ne-none (extract F p).1 _
              λ x q. drain-ne-none fuel (extract F p).0 (omega (arith, extract_shorter p e q)))
      | inr e ↦ rw (e, drain) (λ q. cc)
    ]

    -- The extraction loop ends on every input, for each format whose bounds are as asserted.
    pub packets-ne-none : (bytes : List ℕ) → (packets bytes).1 ≢ none
    unfolding packets create
    packets-ne-none bytes = drain-ne-none (length bytes) (create bytes) (omega arith)
