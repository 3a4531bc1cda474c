-- ===== src/MetadataQueue/Sorted.antt =====
-- A standard heap for the tests: a vector kept in order.
use metamix.Base.{
  ℕ, zero, suc, ◌/◌, ◌<◌, List, [], ◌∷◌, ◌++◌, Bool, false, ◌≡◌, refl, ◌∙◌, some, inl, inr, arith,
}
use metamix.Base.{All, if◌then◌else◌, Bool-cases}
use metamix.MetadataQueue.{Metadata, StdHeap, comparator}
use metamix.MetadataQueue.Heap.{
  count, IsHeap, IsStdHeap, SameBag, get_elem?, All-map, comparator_trans, comparator_asym,
}

module _ {A : Type 0} (comp : A → A → Bool) where
  unfoldable pub insert : A → List A → List A
  insert x [] = x ∷ []
  insert x (y ∷ ys) = let rest = insert x ys in if comp x y then y ∷ rest else x ∷ y ∷ ys

  unfoldable pub sort : List A → List A
  sort [] = []
  sort (x ∷ xs) = insert x (sort xs)

  abbrev IsSorted : List A → Type 0
  IsSorted [] = Unit
  IsSorted (x ∷ xs) = All (λ y. comp x y ≡ false) xs × IsSorted xs

  unfoldable pub pop_first : List A → List A
  pop_first [] = []
  pop_first (x ∷ q) = sort q ++ (x ∷ [])

  insert-SameBag : (x : A) (q : List A) → SameBag (insert x q) (x ∷ q)
  unfolding insert
  insert-SameBag x [] p = refl
  insert-SameBag x (y ∷ ys) p = ground (arith, insert-SameBag x ys p)

  count-end : (p : A → Bool) (q : List A) (x : A) → count p (q ++ (x ∷ [])) ≡ count p (x ∷ q)
  count-end p [] x = refl
  count-end p (y ∷ q) x = omega (arith, count-end p q x)

  sort-SameBag : (q : List A) → SameBag (sort q) q
  unfolding sort
  sort-SameBag [] p = refl
  sort-SameBag (x ∷ q) p = omega (arith, insert-SameBag x (sort q) p, sort-SameBag q p)

  All-insert : (P : A → Type 0) (x : A) (q : List A) → P x → All P q → All P (insert x q)
  unfolding insert
  All-insert P x [] hx h = (hx, h)
  All-insert P x (y ∷ ys) hx h = elim (Bool-cases (comp x y)) [
    | inl e ↦ simp e (h.0, All-insert P x ys hx h.1)
    | inr e ↦ simp e (hx, h)
  ]

  All-at : (P : A → Type 0) (q : List A) (k : ℕ) (y : A) → All P q → get_elem? q k ≡ some y → P y
  All-at P [] k y h e = cc
  All-at P (x ∷ q) zero y h e = let same : x ≡ y = cc in rw (← same) h.0
  All-at P (x ∷ q) (suc k) y h e = All-at P q k y h.1 e

  IsSorted-at :
      (q : List A) (j k : ℕ) (x y : A)
      → IsSorted q
      → j < k
      → get_elem? q j ≡ some x
      → get_elem? q k ≡ some y
      → comp x y ≡ false
  IsSorted-at [] j k x y h lt ex ey = cc
  IsSorted-at (a ∷ q) j zero x y h lt ex ey = absurd (omega arith)
  IsSorted-at (a ∷ q) zero (suc k) x y h lt ex ey =
      let same : a ≡ x = cc in rw (← same) (All-at (λ b. comp a b ≡ false) q k y h.0 ey)
  IsSorted-at (a ∷ q) (suc j) (suc k) x y h lt ex ey = IsSorted-at q j k x y h.1 (omega arith) ex ey

  IsSorted-IsHeap : (q : List A) → IsSorted q → IsHeap comp q
  IsSorted-IsHeap q h i x y ex ey = IsSorted-at q (i / 2) (suc i) x y h (omega arith) ex ey

abbrev pub sorted_heap : {A : Type 0} → StdHeap A
sorted_heap = record { push_heap = sort; pop_heap = pop_first }

module _ {V : Type 0} where
  insert-IsSorted :
      (x : Metadata V) (q : List (Metadata V))
      → IsSorted comparator q
      → IsSorted comparator (insert comparator x q)
  unfolding insert
  insert-IsSorted x [] h = (tt, tt)
  insert-IsSorted x (y ∷ ys) h = elim (Bool-cases (comparator x y)) [
    | inl e ↦ simp e (
      All-insert comparator (λ z. comparator y z ≡ false) x ys (comparator_asym x y e) h.0,
      insert-IsSorted x ys h.1,
    )
    | inr e ↦ simp e (
      (
        refl,
        All-map (λ z. comparator y z ≡ false) (λ z. comparator x z ≡ false) ys
            (λ z. comparator_trans x y z e) h.0,
      ),
      h,
    )
  ]

  sort-IsSorted : (q : List (Metadata V)) → IsSorted comparator (sort comparator q)
  unfolding sort
  sort-IsSorted [] = tt
  sort-IsSorted (x ∷ q) = insert-IsSorted x (sort comparator q) (sort-IsSorted q)

  pub sorted_heap-IsStdHeap : IsStdHeap sorted_heap (comparator {V = V})
  unfolding pop_first
  sorted_heap-IsStdHeap = record {
    push_IsHeap = λ q x h.
        IsSorted-IsHeap comparator (sort comparator (q ++ (x ∷ [])))
          (sort-IsSorted (q ++ (x ∷ [])));
    push_SameBag =
        λ q x h p. sort-SameBag comparator (q ++ (x ∷ [])) p ∙ count-end comparator p q x;
    pop_split = λ x q h. (
      sort comparator q,
      refl,
      IsSorted-IsHeap comparator (sort comparator q) (sort-IsSorted q),
      sort-SameBag comparator q,
    );
  }
