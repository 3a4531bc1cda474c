-- ===== src/Binary/Parser.antt =====
-- The class template BinaryParser of src/binary_parser.h, over any packet format: `Next` and `Pack`
-- are the fields of a record. Assertions are off, as in the Release build of the README; what they
-- assert of the bounds is a law that a format has to prove.
pub mod Drain
use metamix.Base.{ℕ, zero, suc, ◌+◌, ◌≤◌, ◌<◌, List, [], ◌∷◌, Option, none, some, ◌≡◌, refl, length}
use metamix.Base.{take, drop, Bool, true, false}
use metamix.Binary.Outcome.{Outcome, ok, parse_error, runtime_error, fault, BinaryParseError}

-- `next_bounds` is Next, on the bytes from startptr. `start` is how far the bounds begin behind
-- startptr and `size` their length. `pack` is Pack, on the bytes inside the bounds.
pub record Format (Packet Bounds : Type 0) : Type 0 where
  pub next_bounds : List ℕ → Outcome (Option Bounds)
  pub start : Bounds → ℕ
  pub size : Bounds → ℕ
  pub pack : Bounds → List ℕ → Outcome Packet

-- The assertions of BinaryParser::next on the bounds: inside the buffer, and past its start.
pub record IsBounded {Packet Bounds : Type 0} (F : Format Packet Bounds) : Type 0 where
  pub inside :
      (bytes : List ℕ) (b : Bounds)
      → F.next_bounds bytes ≡ ok (some b)
      → F.start b + F.size b ≤ length bytes
  pub advances :
      (bytes : List ℕ) (b : Bounds) → F.next_bounds bytes ≡ ok (some b) → 0 < F.start b + F.size b

-- `consumed` is m_data - m_start, and `left` are the bytes from m_data to m_end.
pub record Parser : Type 0 where
  pub consumed : ℕ
  pub left : List ℕ

-- BinaryParser::create
unfoldable pub create : List ℕ → Parser
create bytes = record { consumed = 0; left = bytes }

unfoldable pub bytes_consumed : Parser → ℕ
bytes_consumed p = p.consumed

unfoldable pub bytes_left : Parser → ℕ
bytes_left p = length p.left

-- m_data < m_end
unfoldable pub has_next : Parser → Bool
has_next p = elim p.left [ [] ↦ false | _ ∷ _ ↦ true ]

-- The catch block of BinaryParser::next: inject position information and rethrow.
unfoldable pub inject {ℓ} : {A : Type ℓ} → Parser → Outcome A → Outcome A
unfolding bytes_consumed bytes_left
inject p (parse_error e) =
    parse_error (record e { bytes_consumed = bytes_consumed p; bytes_left = bytes_left p })
inject p r = r

module _ {Packet Bounds : Type 0} (F : Format Packet Bounds) where
  -- m_data = bounds.startptr() + bounds.length()
  unfoldable pub shift : Parser → Bounds → Parser
  shift p b = record {
    consumed = p.consumed + (F.start b + F.size b);
    left = drop (F.start b + F.size b) p.left;
  }

  -- Pack on the bytes inside the bounds.
  unfoldable pub packed : Parser → Bounds → Outcome Packet
  packed p b = F.pack b (take (F.size b) (drop (F.start b) p.left))

  unfoldable pub present : Outcome Packet → Outcome (Option Packet)
  present (ok x) = ok (some x)
  present (parse_error e) = parse_error e
  present runtime_error = runtime_error
  present fault = fault

  -- The body of BinaryParser::next behind the call of Next.
  unfoldable pub after_bounds : Parser → Outcome (Option Bounds) → Parser × Outcome (Option Packet)
  unfolding shift packed present inject
  after_bounds p (ok (some b)) = (shift p b, inject (shift p b) (present (packed p b)))
  after_bounds p (ok none) = (p, ok none)
  after_bounds p (parse_error e) = (p, inject p (parse_error e))
  after_bounds p runtime_error = (p, runtime_error)
  after_bounds p fault = (p, fault)

  -- BinaryParser::next
  unfoldable pub next : Parser → Parser × Outcome (Option Packet)
  unfolding has_next after_bounds
  next p = elim (has_next p) [ true ↦ after_bounds p (F.next_bounds p.left) | false ↦ (p, ok none) ]

  -- operator>> dereferences what next returns without a test.
  unfoldable pub dereference : Outcome (Option Packet) → Outcome Packet
  dereference (ok (some x)) = ok x
  dereference (ok none) = fault
  dereference (parse_error e) = parse_error e
  dereference runtime_error = runtime_error
  dereference fault = fault

  unfoldable pub extract : Parser → Parser × Outcome Packet
  unfolding next dereference
  extract p = let (p', r) = next p in (p', dereference r)
