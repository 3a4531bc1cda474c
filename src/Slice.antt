-- ===== src/Slice.antt =====
-- src/slice.h: views on a range of bytes or other elements, with their iterators. A slice is the list
-- of the elements from data() on. Sizes and indices are size_t. The assertions are compiled out.
pub mod Traversal
use metamix.Base.{
  ℕ, zero, suc, ◌+◌, ◌-◌, ◌%◌, ◌^◌, ◌<◌, List, [], ◌∷◌, Bool, true, false, Option, none, some,
}
use metamix.Base.{◌==◌, leb, if◌then◌else◌, length}

-- A call's value, the exception std::out_of_range, or undefined behaviour.
pub data Access (T : Type 0) : Type 0 where
  accessed : T → Access T
  out_of_range : Access T
  undefined : Access T

-- IteratorImpl: its container, null at first, and its index.
pub record SliceIterator (T : Type 0) : Type 0 where
  pub container : Option (List T)
  pub idx : ℕ

module _ {T : Type 0} where
  -- operator[]: *(data() + idx)
  unfoldable pub subscript : List T → ℕ → Access T
  subscript [] idx = undefined
  subscript (x ∷ xs) zero = accessed x
  subscript (x ∷ xs) (suc idx) = subscript xs idx

  unfoldable pub at : List T → ℕ → Access T
  at xs idx = if leb (length xs) idx then out_of_range else subscript xs idx

  -- front and back: of an empty slice they are undefined.
  unfoldable pub slice_front : List T → Access T
  slice_front xs = subscript xs 0

  unfoldable pub back : List T → Access T
  back xs = subscript xs ((length xs + 2 ^ 64 - 1) % 2 ^ 64)

  abbrev pub begin : List T → SliceIterator T
  begin xs = record { container = some xs; idx = 0 }

  abbrev pub end : List T → SliceIterator T
  end xs = record { container = some xs; idx = length xs }

  unfoldable pub dereference : SliceIterator T → Access T
  dereference it = elim it.container [
    | none ↦ out_of_range
    | some xs ↦ if leb (length xs) it.idx then out_of_range else subscript xs it.idx
  ]

  unfoldable pub increment : SliceIterator T → SliceIterator T
  increment it = record { container = it.container; idx = (it.idx + 1) % 2 ^ 64 }

  unfoldable pub decrement : SliceIterator T → SliceIterator T
  decrement it = record { container = it.container; idx = (it.idx + 2 ^ 64 - 1) % 2 ^ 64 }

  -- distance_to, by its bit pattern.
  unfoldable pub distance_to : SliceIterator T → SliceIterator T → ℕ
  distance_to it other = (other.idx + 2 ^ 64 - it.idx) % 2 ^ 64

  abbrev pub prepended : Access T → Access (List T) → Access (List T)
  prepended (accessed x) (accessed xs) = accessed (x ∷ xs)
  prepended (accessed x) out_of_range = out_of_range
  prepended (accessed x) undefined = undefined
  prepended out_of_range rest = out_of_range
  prepended undefined rest = undefined

  -- What a loop over two iterators reads, as the standard defines it for std::copy: while they are
  -- not equal, the first one's element, and the first one is incremented. The fuel is a number of
  -- rounds.
  unfoldable pub traverse : ℕ → SliceIterator T → SliceIterator T → Access (List T)
  traverse zero it last = if it.idx == last.idx then accessed [] else undefined
  traverse (suc fuel) it last =
      let rest = traverse fuel (increment it) last in
      if it.idx == last.idx then accessed [] else prepended (dereference it) rest
