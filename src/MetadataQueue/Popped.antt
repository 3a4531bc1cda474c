-- ===== src/MetadataQueue/Popped.antt =====
-- What a pop of src/metadata_queue.h may give, and how it follows from what the rest of the queue gives.
use metamix.Base.{
  ℕ, suc, ◌≤◌, ◌<◌, List, ◌∷◌, Bool, true, false, ◌&&◌, ◌≡◌, ◌∙◌, sym, Option, none, some, arith,
}
use metamix.Base.{All, ltb, leb, ◌==◌, length}
use metamix.MetadataQueue.{Metadata, comparator, is_requested}
use metamix.MetadataQueue.Heap.{
  IsHeap, SameBag, count, count-none, count-congr, count-length, All-map, All-SameBag, front_first,
  pts-le,
}

module _ {V : Type 0} where
  -- An item that a pop may return.
  abbrev pub in_frame : ℕ → ℕ → ℕ → Metadata V → Bool
  in_frame id since until x = (x.input_id == id) && (leb since x.pts && ltb x.pts until)

  -- What a pop from q gives: no item and the items from `until` on, or the first of the requested
  -- items before `until`, and the items that are later than it.
  abbrev pub IsPopped :
      ℕ → ℕ → ℕ → List (Metadata V) → Option (Metadata V) × List (Metadata V) → Type 0
  IsPopped id since until q (none, rest) =
      IsHeap comparator rest
      × ((p : Metadata V → Bool) → count p rest ≡ count (λ x. p x && leb until x.pts) q)
      × (count (in_frame id since until) q ≡ 0)
  IsPopped id since until q (some value, rest) =
      IsHeap comparator rest
      × ((p : Metadata V → Bool) → count p rest ≡ count (λ x. p x && ltb value.pts x.pts) q)
      × (in_frame id since until value ≡ true)
      × ((p : Metadata V → Bool) → p value ≡ true → 0 < count p q)
      × (count (λ x. in_frame id since until x && comparator value x) q ≡ 0)

  pub front-le :
      (top : Metadata V) (q : List (Metadata V))
      → IsHeap comparator (top ∷ q)
      → (n : ℕ) → n ≤ top.pts
      → All (λ y. n ≤ y.pts) (top ∷ q)
  front-le top q h n le =
      All-map (λ y. comparator top y ≡ false) (λ y. n ≤ y.pts) (top ∷ q)
        (λ y hy. omega (arith, pts-le top y hy)) (front_first top q h)

  -- Items from time n on, by the same bag.
  pub from-SameBag :
      (n : ℕ) (q rest : List (Metadata V))
      → SameBag rest q
      → All (λ y. n ≤ y.pts) q
      → All (λ y. n ≤ y.pts) rest
  from-SameBag n q rest same h =
      All-map (λ y. ltb y.pts n ≡ false) (λ y. n ≤ y.pts) rest (λ y hy. ground arith)
        (All-SameBag (λ y. ltb y.pts n) q rest same
          (All-map (λ y. n ≤ y.pts) (λ y. ltb y.pts n ≡ false) q (λ y hy. ground arith) h))

  pub length-SameBag : (rest q : List (Metadata V)) → SameBag rest q → length rest ≡ length q
  length-SameBag rest q same = omega (arith, same (λ x. true), count-length rest, count-length q)

  pub count-skip :
      (p r : Metadata V → Bool) (top : Metadata V) (q : List (Metadata V))
      → r top ≡ false
      → count (λ x. p x && r x) (top ∷ q) ≡ count (λ x. p x && r x) q
  count-skip p r top q h = ground arith

  pub count-later :
      (p : Metadata V → Bool) (n : ℕ) (q : List (Metadata V))
      → All (λ y. suc n ≤ y.pts) q
      → count (λ x. p x && ltb n x.pts) q ≡ count p q
  count-later p n q h =
      count-congr (λ x. p x && ltb n x.pts) p q
        (All-map (λ y. suc n ≤ y.pts) (λ y. (p y && ltb n y.pts) ≡ p y) q (λ y hy. ground arith) h)

  pub IsPopped-none :
      (id since until : ℕ) (top : Metadata V) (q : List (Metadata V))
      → IsHeap comparator (top ∷ q)
      → until ≤ top.pts
      → IsPopped id since until (top ∷ q) (none, top ∷ q)
  IsPopped-none id since until top q h le =
      let all : List (Metadata V) = top ∷ q in
      let late = front-le top q h until le in
      (
        h,
        (λ p. sym (
            count-congr (λ x. p x && leb until x.pts) p all
              (All-map (λ y. until ≤ y.pts) (λ y. (p y && leb until y.pts) ≡ p y) all
                (λ y hy. ground arith) late))),
        count-none (in_frame id since until) all (
            All-map (λ y. until ≤ y.pts) (λ y. in_frame id since until y ≡ false) all
              (λ y hy. ground arith) late),
      )

  pub IsPopped-here :
      (id since until : ℕ) (top : Metadata V) (q left : List (Metadata V))
      → IsHeap comparator (top ∷ q)
      → is_requested id since top ≡ true
      → top.pts < until
      → IsHeap comparator left
      → ((p : Metadata V → Bool) → count p left ≡ count (λ x. p x && ltb top.pts x.pts) q)
      → IsPopped id since until (top ∷ q) (some top, left)
  unfolding is_requested
  IsPopped-here id since until top q left h requested before heaped bag =
      let self : ltb top.pts top.pts ≡ false = ground arith in
      (
        heaped,
        (λ p. bag p ∙ sym (count-skip p (λ x. ltb top.pts x.pts) top q self)),
        ground arith,
        (λ p e. ground arith),
        count-none (λ x. in_frame id since until x && comparator top x) (top ∷ q)
            (All-map (λ y. comparator top y ≡ false)
              (λ y. (in_frame id since until y && comparator top y) ≡ false) (top ∷ q)
              (λ y hy. ground arith) (front_first top q h)),
      )

  pub IsPopped-after :
      (id since until : ℕ) (top : Metadata V) (q rest : List (Metadata V))
      (r : Option (Metadata V) × List (Metadata V))
      → IsHeap comparator (top ∷ q)
      → is_requested id since top ≡ false
      → top.pts < until
      → SameBag rest q
      → IsPopped id since until rest r
      → IsPopped id since until (top ∷ q) r
  unfolding is_requested
  IsPopped-after id since until top q rest (none, left) h other before same (heaped, bag, empty) = (
    heaped,
    (λ p.
        bag p
        ∙ same (λ x. p x && leb until x.pts)
        ∙ sym (count-skip p (λ x. leb until x.pts) top q (ground arith))),
    ground (arith, same (in_frame id since until)),
  )
  IsPopped-after id since until top q rest (some value, left) h other before same
        (heaped, bag, framed, member, first) =
      let earlier : Metadata V → Bool = λ x. ltb x.pts top.pts in
      let empty : count earlier rest ≡ 0 =
        same earlier
        ∙ count-none earlier q (
            All-map (λ y. top.pts ≤ y.pts) (λ y. ltb y.pts top.pts ≡ false) q (λ y hy. ground arith)
              (front-le top q h top.pts (omega arith)).1) in
      let late : top.pts ≤ value.pts = ground (arith, member earlier) in
      (
        heaped,
        (λ p.
            bag p
            ∙ same (λ x. p x && ltb value.pts x.pts)
            ∙ sym (count-skip p (λ x. ltb value.pts x.pts) top q (ground arith))),
        framed,
        (λ p e. ground (arith, member p e, same p)),
        ground (arith, same (λ x. in_frame id since until x && comparator value x)),
      )
