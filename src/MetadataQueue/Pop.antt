-- ===== src/MetadataQueue/Pop.antt =====
-- pop of src/metadata_queue.h.
use metamix.Base.{
  ℕ, zero, suc, ◌≤◌, List, [], ◌∷◌, ◌++◌, Bool, false, ◌&&◌, ◌≡◌, refl, ◌∙◌, sym, ap, Option, none,
  some, inl, inr, arith,
}
use metamix.Base.{All, ltb, leb, ◌==◌, length, Bool-cases, leb→le}
use metamix.Binary.Outcome.{ok}
use metamix.MetadataQueue.{
  Metadata, StdHeap, comparator, pop_back, front_of, pop_any_impl, drop_colliding, is_requested,
  pop_loop, pop_impl,
}
use metamix.MetadataQueue.Heap.{IsHeap, IsStdHeap, SameBag, count}
use metamix.MetadataQueue.Popped.{
  IsPopped, front-le, from-SameBag, length-SameBag, count-skip, count-later, IsPopped-none,
  IsPopped-here, IsPopped-after,
}

pop_back-append : {A : Type 0} (xs : List A) (x : A) → pop_back (xs ++ (x ∷ [])) ≡ some (xs, x)
unfolding pop_back
pop_back-append [] x = refl
pop_back-append (y ∷ xs) x = rw (pop_back-append xs x) refl

module _ {V : Type 0} where
  module _ (heap : StdHeap (Metadata V)) (laws : IsStdHeap heap comparator) where
    pop_any_impl-front :
        (top : Metadata V) (q : List (Metadata V))
        → IsHeap comparator (top ∷ q)
        → (rest : List (Metadata V)) × (pop_any_impl heap (top ∷ q) ≡ ok (top, rest))
          × IsHeap comparator rest
          × SameBag rest q
    unfolding pop_any_impl
    pop_any_impl-front top q h =
        let (rest, e, heaped, same) = laws.pop_split top q h in
        let back = ap pop_back e ∙ pop_back-append rest top in
        (rest, ap front_of back, heaped, same)

    drop_colliding-lem :
        (fuel pts : ℕ) (q : List (Metadata V))
        → length q ≤ fuel
        → IsHeap comparator q
        → All (λ y. pts ≤ y.pts) q
        → (left : List (Metadata V)) × (drop_colliding heap fuel pts q ≡ ok left)
          × IsHeap comparator left
          × ((p : Metadata V → Bool) → count p left ≡ count (λ x. p x && ltb pts x.pts) q)
    unfolding drop_colliding
    drop_colliding-lem fuel pts [] hl h low = ([], refl, h, λ p. refl)
    drop_colliding-lem zero pts (top ∷ q) hl h low = absurd (omega arith)
    drop_colliding-lem (suc fuel) pts (top ∷ q) hl h low = elim (Bool-cases (top.pts == pts)) [
      | inl e ↦
          let (rest, popped, heaped, same) = pop_any_impl-front top q h in
          let (left, dropped, left_heaped, bag) =
            drop_colliding-lem fuel pts rest (omega (arith, length-SameBag rest q same)) heaped
              (from-SameBag pts q rest same low.1) in
          let at_pts : ltb pts top.pts ≡ false = ground arith in
          (
            left,
            simp (e, popped) dropped,
            left_heaped,
            λ p.
                bag p
                ∙ same (λ x. p x && ltb pts x.pts)
                ∙ sym (count-skip p (λ x. ltb pts x.pts) top q at_pts),
          )
      | inr e ↦ (
        top ∷ q,
        simp e,
        h,
        λ p. sym (count-later p pts (top ∷ q) (front-le top q h (suc pts) (ground (arith, low.0)))),
      )
    ]

    pop_loop-lem :
        (fuel id since until : ℕ) (q : List (Metadata V))
        → length q ≤ fuel
        → IsHeap comparator q
        → (r : Option (Metadata V) × List (Metadata V)) × (pop_loop heap fuel id since until q
            ≡ ok r)
          × IsPopped id since until q r
    unfolding pop_loop
    pop_loop-lem fuel id since until [] hl h = ((none, []), refl, (h, (λ p. refl), refl))
    pop_loop-lem zero id since until (top ∷ q) hl h = absurd (omega arith)
    pop_loop-lem (suc fuel) id since until (top ∷ q) hl h = elim (Bool-cases (leb until top.pts)) [
      | inl e ↦
          ((none, top ∷ q), simp e, IsPopped-none id since until top q h (leb→le until top.pts e))
      | inr e ↦
          let (rest, popped, heaped, same) = pop_any_impl-front top q h in
          let fits : length rest ≤ fuel = omega (arith, length-SameBag rest q same) in
          elim (Bool-cases (is_requested id since top)) [
            | inl requested ↦
                let (left, dropped, left_heaped, bag) =
                  drop_colliding-lem fuel top.pts rest fits heaped
                    (from-SameBag top.pts q rest same (front-le top q h top.pts (omega arith)).1) in
                (
                  (some top, left),
                  simp (e, popped, requested, dropped),
                  IsPopped-here id since until top q left h requested (ground arith) left_heaped
                      (λ p. bag p ∙ same (λ x. p x && ltb top.pts x.pts)),
                )
            | inr other ↦
                let (r, looped, answer) = pop_loop-lem fuel id since until rest fits heaped in
                (
                  r,
                  simp (e, popped, other) looped,
                  IsPopped-after id since until top q rest r h other (ground arith) same answer,
                )
          ]
    ]

    -- With standard heap functions, pop on a heap returns, and it gives the first item, in the queue's order, of the given input
    -- from `since` to before `until`, or none if there is no such item. It leaves a heap, of exactly
    -- the items later than the one it gives, or not before `until` if it gives none.
    pub pop_impl-lem :
        (id since until : ℕ) (q : List (Metadata V))
        → IsHeap comparator q
        → (r : Option (Metadata V) × List (Metadata V)) × (pop_impl heap id since until q ≡ ok r)
          × IsPopped id since until q r
    unfolding pop_impl
    pop_impl-lem id since until q = pop_loop-lem (length q) id since until q (omega arith)
