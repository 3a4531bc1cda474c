-- ===== src/Slice/Traversal.antt =====
-- Reading a slice by its indices and by its iterators.
use metamix.Base.{
  ℕ, zero, suc, ◌+◌, ◌-◌, ◌%◌, ◌^◌, ◌<◌, ◌≤◌, List, [], ◌∷◌, ◌++◌, ◌≡◌, refl, sym, ◌⊎◌, inl, inr,
  ◌∙◌, true, false, some, arith, length, length-append, append_assoc, leb, ◌==◌, Bool-cases, leb→le,
}
use metamix.Slice.{
  accessed, out_of_range, SliceIterator, subscript, at, begin, end, dereference, increment,
  decrement, distance_to, traverse, back,
}

module _ {T : Type 0} where
  subscript-middle :
      (before : List T) (x : T) (behind : List T)
      → subscript (before ++ (x ∷ behind)) (length before) ≡ accessed x
  unfolding subscript
  subscript-middle [] x behind = refl
  subscript-middle (y ∷ before) x behind = subscript-middle before x behind

  -- An element of a slice by its index.
  abbrev pub IsElement : List T → ℕ → T → Type 0
  IsElement xs idx x =
      (before behind : List T) × (xs ≡ before ++ (x ∷ behind)) × (length before ≡ idx)

  element : (xs : List T) (idx : ℕ) → idx < length xs → (x : T) × IsElement xs idx x
  element [] idx lt = absurd (omega arith)
  element (x ∷ xs) zero lt = (x, ([], xs, refl, refl))
  element (x ∷ xs) (suc idx) lt =
      let (y, (before, behind, e, n)) = element xs idx (omega arith) in
      (y, (x ∷ before, behind, rw e, omega arith))

  -- at throws std::out_of_range exactly for an index that is not below the size, and else it gives
  -- the element of the index; never is it undefined.
  pub at-lem :
      (xs : List T) (idx : ℕ)
      → ((length xs ≤ idx) × (at xs idx ≡ out_of_range))
        ⊎ ((idx < length xs) × (x : T) × IsElement xs idx x × (at xs idx ≡ accessed x))
  unfolding at
  at-lem xs idx = elim (Bool-cases (leb (length xs) idx)) [
    | inl e ↦ inl (leb→le _ _ e, rw e)
    | inr e ↦
        let lt : idx < length xs = ground arith in
        let (x, (before, behind, split, n)) = element xs idx lt in
        inr
          (lt, x, (before, behind, split, n), rw (e, split, ← n) (subscript-middle before x behind))
  ]

  -- The elements from an iterator on.
  traverse-from :
      (xs before behind : List T)
      → xs ≡ before ++ behind
      → length xs < 2 ^ 64
      → traverse (length behind) (record { container = some xs; idx = length before }) (end xs)
        ≡ accessed behind
  unfolding traverse increment dereference
  traverse-from xs before [] e small =
      let n : length xs ≡ length before + 0 = rw e (length-append before []) in
      let stop : (length before == length xs) ≡ true = ground arith in rw stop
  traverse-from xs before (x ∷ behind) e small =
      let n : length xs ≡ length before + suc (length behind) =
        rw e (length-append before (x ∷ behind)) in
      let go : (length before == length xs) ≡ false = ground arith in
      let inside : leb (length xs) (length before) ≡ false = ground arith in
      let found : subscript xs (length before) ≡ accessed x =
        rw e (subscript-middle before x behind) in
      let idx : (length before + 1) % 2 ^ 64 ≡ length (before ++ (x ∷ [])) =
        omega (arith, length-append before (x ∷ [])) in
      let rest : xs ≡ (before ++ (x ∷ [])) ++ behind =
        e ∙ sym (append_assoc before (x ∷ []) behind) in
      rw (go, inside, found, idx, traverse-from xs (before ++ (x ∷ [])) behind rest small)

  -- A loop from begin() to end() over a slice of fewer than 2 ^ 64 elements reads all of them in
  -- order, and throws nothing.
  pub traverse-begin :
      (xs : List T) → length xs < 2 ^ 64 → traverse (length xs) (begin xs) (end xs) ≡ accessed xs
  traverse-begin xs small = traverse-from xs [] xs refl small

  -- On indices below 2 ^ 64: an iterator that is incremented and decremented, in either order, is the
  -- iterator itself; and incremented it is at distance 1.
  pub increment-decrement :
      (it : SliceIterator T)
      → it.idx < 2 ^ 64
      → (decrement (increment it) ≡ it)
        × (increment (decrement it) ≡ it)
        × (distance_to it (increment it) ≡ 1)
  unfolding increment decrement distance_to
  increment-decrement it small = (ground arith, ground arith, omega arith)

  -- back gives the last element.
  pub back-append :
      (xs : List T) (x : T) → length xs + 1 < 2 ^ 64 → back (xs ++ (x ∷ [])) ≡ accessed x
  unfolding back
  back-append xs x small =
      let idx : (length (xs ++ (x ∷ [])) + 2 ^ 64 - 1) % 2 ^ 64 ≡ length xs =
        omega (arith, length-append xs (x ∷ [])) in
      rw idx (subscript-middle xs x [])
