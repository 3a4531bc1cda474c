-- ===== src/MetadataQueue/Heap.antt =====
-- What the standard documents of its heaps, and that the first element of one is never preceded.
use metamix.Base.{
  ℕ, zero, suc, ◌+◌, ◌/◌, ◌≤◌, List, [], ◌∷◌, ◌++◌, Bool, true, false, ◌≡◌, refl, Option, none,
  some, All, if◌then◌else◌, length, Bool-cases, inl, inr, ◌∙◌, arith,
}
use metamix.MetadataQueue.{Metadata, StdHeap, comparator}

module _ {A : Type 0} where
  abbrev pub get_elem? : List A → ℕ → Option A
  get_elem? [] i = none
  get_elem? (x ∷ xs) zero = some x
  get_elem? (x ∷ xs) (suc i) = get_elem? xs i

  abbrev pub count : (A → Bool) → List A → ℕ
  count p [] = 0
  count p (x ∷ xs) = (if p x then 1 else 0) + count p xs

  -- The same elements, each the same number of times.
  abbrev pub SameBag : List A → List A → Type 0
  SameBag q r = (p : A → Bool) → count p q ≡ count p r

  -- No element is preceded by its parent.
  abbrev pub IsHeap : (A → A → Bool) → List A → Type 0
  IsHeap comp q =
      (i : ℕ) (x y : A)
      → get_elem? q (i / 2) ≡ some x
      → get_elem? q (suc i) ≡ some y
      → comp x y ≡ false

  -- For a strict weak order: push_heap makes a heap of a heap and one more element; pop_heap moves
  -- the first element to the end and makes a heap of the rest.
  pub record IsStdHeap (heap : StdHeap A) (comp : A → A → Bool) : Type 0 where
    pub push_IsHeap :
        (q : List A) (x : A) → IsHeap comp q → IsHeap comp (heap.push_heap comp (q ++ (x ∷ [])))
    pub push_SameBag :
        (q : List A) (x : A) → IsHeap comp q → SameBag (heap.push_heap comp (q ++ (x ∷ []))) (x ∷ q)
    pub pop_split :
        (x : A) (q : List A)
        → IsHeap comp (x ∷ q)
        → (rest : List A) × (heap.pop_heap comp (x ∷ q) ≡ rest ++ (x ∷ []))
          × IsHeap comp rest
          × SameBag rest q

  get_elem?-below :
      (q : List A) (j k : ℕ) (y : A)
      → get_elem? q k ≡ some y
      → j ≤ k
      → (x : A) × (get_elem? q j ≡ some x)
  get_elem?-below [] j k y h le = cc
  get_elem?-below (x ∷ q) zero k y h le = (x, refl)
  get_elem?-below (x ∷ q) (suc j) zero y h le = absurd (omega arith)
  get_elem?-below (x ∷ q) (suc j) (suc k) y h le = get_elem?-below q j k y h (omega arith)

  All-of_get_elem? :
      (P : A → Type 0) (q : List A) → ((k : ℕ) (y : A) → get_elem? q k ≡ some y → P y) → All P q
  All-of_get_elem? P [] h = tt
  All-of_get_elem? P (x ∷ q) h = (h 0 x refl, All-of_get_elem? P q (λ k. h (suc k)))

  pub count-none : (p : A → Bool) (q : List A) → All (λ y. p y ≡ false) q → count p q ≡ 0
  count-none p [] h = refl
  count-none p (x ∷ q) (hx, h) = rw (hx, count-none p q h) (omega arith)

  All-of_count : (p : A → Bool) (q : List A) → count p q ≡ 0 → All (λ y. p y ≡ false) q
  All-of_count p [] h = tt
  All-of_count p (x ∷ q) h = elim (Bool-cases (p x)) [
    | inl e ↦ absurd (ground arith)
    | inr e ↦ (e, All-of_count p q (omega arith))
  ]

  -- What no element of a list has, no element of the same bag has.
  pub All-SameBag :
      (p : A → Bool) (q r : List A)
      → SameBag r q
      → All (λ y. p y ≡ false) q
      → All (λ y. p y ≡ false) r
  All-SameBag p q r same h = All-of_count p r (same p ∙ count-none p q h)

  pub count-congr : (p r : A → Bool) (q : List A) → All (λ y. p y ≡ r y) q → count p q ≡ count r q
  count-congr p r [] h = refl
  count-congr p r (x ∷ q) (hx, h) = rw (hx, count-congr p r q h)

  pub All-map : (P R : A → Type 0) (q : List A) → ((y : A) → P y → R y) → All P q → All R q
  All-map P R [] f h = tt
  All-map P R (x ∷ q) f (hx, h) = (f x hx, All-map P R q f h)

  pub count-append : (p : A → Bool) (q r : List A) → count p (q ++ r) ≡ count p q + count p r
  count-append p [] r = omega arith
  count-append p (x ∷ q) r = omega (arith, count-append p q r)

  pub count-length : (q : List A) → count (λ y. true) q ≡ length q
  count-length [] = refl
  count-length (x ∷ q) = omega (arith, count-length q)

module _ {V : Type 0} where
  pub comparator_self : (x : Metadata V) → comparator x x ≡ false
  unfolding comparator
  comparator_self x = ground arith

  pub comparator_asym : (x y : Metadata V) → comparator x y ≡ true → comparator y x ≡ false
  unfolding comparator
  comparator_asym x y h = ground arith

  pub comparator_trans :
      (x y z : Metadata V)
      → comparator x y ≡ false
      → comparator y z ≡ false
      → comparator x z ≡ false
  unfolding comparator
  comparator_trans x y z = ground arith

  pub pts-le : (x y : Metadata V) → comparator x y ≡ false → x.pts ≤ y.pts
  unfolding comparator
  pts-le x y h = ground arith

  first_below :
      (top : Metadata V) (q : List (Metadata V))
      → IsHeap comparator (top ∷ q)
      → (n k : ℕ) (y : Metadata V) → k ≤ n
      → get_elem? (top ∷ q) k ≡ some y
      → comparator top y ≡ false
  first_below top q h n zero y le e = let same : top ≡ y = cc in rw same (comparator_self y)
  first_below top q h zero (suc k) y le e = absurd (omega arith)
  first_below top q h (suc n) (suc k) y le e =
      let (x, ex) = get_elem?-below (top ∷ q) (k / 2) (suc k) y e (omega arith) in
      comparator_trans top x y (first_below top q h n (k / 2) x (omega arith) ex) (h k x y ex e)

  -- No element of a heap precedes the first one.
  pub front_first :
      (top : Metadata V) (q : List (Metadata V))
      → IsHeap comparator (top ∷ q)
      → All (λ y. comparator top y ≡ false) (top ∷ q)
  front_first top q h =
      All-of_get_elem? (λ y. comparator top y ≡ false) (top ∷ q)
        (λ k y. first_below top q h k k y (omega arith))
