-- ===== src/MetadataQueue/PopAll.antt =====
-- pop_all and drop_id of src/metadata_queue.h.
use metamix.Base.{
  false, ℕ, zero, suc, ◌+◌, ◌≤◌, ◌<◌, List, [], ◌∷◌, Bool, true, not, ◌&&◌, ◌||◌, ◌≡◌, refl, ◌∙◌,
  none, some, arith,
}
use metamix.Base.{All, ltb, leb, ◌==◌, length}
use metamix.Binary.Outcome.{ok}
use metamix.MetadataQueue.{
  Metadata, StdHeap, comparator, pop_impl, pop_all_loop, pop_all, remove_if, drop_id,
}
use metamix.MetadataQueue.Heap.{IsHeap, IsStdHeap, count, count-length, count-congr, All-map}
use metamix.MetadataQueue.Popped.{in_frame, IsPopped}
use metamix.MetadataQueue.Pop.{pop_impl-lem}

module _ {V : Type 0} where
  abbrev pub IsIncreasing : List (Metadata V) → Type 0
  IsIncreasing [] = Unit
  IsIncreasing (x ∷ xs) = All (λ y. x.pts < y.pts) xs × IsIncreasing xs

  -- An item of q.
  abbrev pub IsIn : List (Metadata V) → Metadata V → Type 0
  IsIn q v = (p : Metadata V → Bool) → p v ≡ true → 0 < count p q

  -- Whether an item of a list has the time of x.
  abbrev pub at_time_of : List (Metadata V) → Metadata V → Bool
  at_time_of [] x = false
  at_time_of (v ∷ vs) x = (v.pts == x.pts) || at_time_of vs x

  -- What pop_all gives, and the queue that it leaves.
  pub record IsDrained (id since until : ℕ) (q out left : List (Metadata V)) : Type 0 where
    pub heaped : IsHeap comparator left
    pub bag : (p : Metadata V → Bool) → count p left ≡ count (λ x. p x && leb until x.pts) q
    pub framed : All (λ v. in_frame id since until v ≡ true) out
    pub inside : All (IsIn q) out
    pub increasing : IsIncreasing out
    pub complete : count (λ x. in_frame id since until x && not (at_time_of out x)) q ≡ 0

  count-le :
      (p r : Metadata V → Bool) (q : List (Metadata V)) → count (λ x. p x && r x) q ≤ count p q
  count-le p r [] = omega arith
  count-le p r (x ∷ q) = ground (arith, count-le p r q)

  count-less :
      (r : Metadata V → Bool) (q : List (Metadata V))
      → count r q + count (λ x. not (r x)) q ≡ length q
  count-less r [] = refl
  count-less r (x ∷ q) = ground (arith, count-less r q)

  count-neither :
      (r : Metadata V → Bool) (q : List (Metadata V)) → count (λ x. not (r x) && r x) q ≡ 0
  count-neither r [] = refl
  count-neither r (x ∷ q) = ground (arith, count-neither r q)

  count-and :
      (p r : Metadata V → Bool) (q : List (Metadata V))
      → ((x : Metadata V) → p x ≡ r x)
      → count p q ≡ count r q
  count-and p r q h = count-congr p r q (everywhere q h)
    where
      everywhere :
          {p r : Metadata V → Bool} (q : List (Metadata V))
          → ((x : Metadata V) → p x ≡ r x)
          → All (λ x. p x ≡ r x) q
      everywhere [] h = tt
      everywhere (x ∷ q) h = (h x, everywhere q h)

  count-or :
      (p a b : Metadata V → Bool) (q : List (Metadata V))
      → ((x : Metadata V) → p x ≡ true → (a x || b x) ≡ true)
      → count p q ≤ count a q + count b q
  count-or p a b [] h = omega arith
  count-or p a b (x ∷ q) h = ground (arith, h x, count-or p a b q h)

  complete_step :
      (id since until : ℕ) (q : List (Metadata V)) (value : Metadata V)
      (rest out : List (Metadata V))
      → IsPopped id since until q (some value, rest)
      → count (λ x. in_frame id since until x && not (at_time_of out x)) rest ≡ 0
      → count (λ x. in_frame id since until x && not (at_time_of (value ∷ out) x)) q ≡ 0
  unfolding comparator
  complete_step id since until q value rest out (_, bag, framed, member, first) done =
      let missed : Metadata V → Bool = λ x. in_frame id since until x && not (at_time_of out x) in
      omega (
        arith,
        first,
        bag missed,
        done,
        count-or (λ x. in_frame id since until x && not (at_time_of (value ∷ out) x))
            (λ x. in_frame id since until x && comparator value x)
            (λ x. missed x && ltb value.pts x.pts) q (λ x h. ground arith),
      )

  shorter :
      (id since until : ℕ) (q : List (Metadata V)) (value : Metadata V) (rest : List (Metadata V))
      → IsPopped id since until q (some value, rest)
      → length rest < length q
  shorter id since until q value rest (_, bag, framed, member, first) = omega (
    arith,
    bag (λ x. true),
    count-length rest,
    count-less (λ x. ltb value.pts x.pts) q,
    member (λ x. not (ltb value.pts x.pts)) (ground arith),
  )

  IsDrained-step :
      (id since until : ℕ) (q : List (Metadata V)) (value : Metadata V)
      (rest out left : List (Metadata V))
      → IsPopped id since until q (some value, rest)
      → IsDrained id since until rest out left
      → IsDrained id since until q (value ∷ out) left
  IsDrained-step id since until q value rest out left (heaped, bag, framed, member, first) d =
      record {
        complete =
            complete_step id since until q value rest out (heaped, bag, framed, member, first)
              d.complete;
        heaped = d.heaped;
        bag = λ p.
            d.bag p
            ∙ bag (λ x. p x && leb until x.pts)
            ∙ count-and (λ x. (p x && leb until x.pts) && ltb value.pts x.pts)
                (λ x. p x && leb until x.pts) q (λ x. ground arith);
        framed = (framed, d.framed);
        inside = (
          member,
          All-map (IsIn rest) (IsIn q) out
              (λ v h p e. omega (arith, h p e, bag p, count-le p (λ x. ltb value.pts x.pts) q))
              d.inside,
        );
        increasing = (
          All-map (IsIn rest) (λ y. value.pts < y.pts) out
              (λ v h. ground (
                arith,
                h (λ x. not (ltb value.pts x.pts)),
                bag (λ x. not (ltb value.pts x.pts)),
                count-neither (λ x. ltb value.pts x.pts) q,
              ))
              d.inside,
          d.increasing,
        );
      }

  module _ (heap : StdHeap (Metadata V)) (laws : IsStdHeap heap comparator) where
    pop_all_loop-lem :
        (fuel id since until : ℕ) (q : List (Metadata V))
        → length q < fuel
        → IsHeap comparator q
        → (out left : List (Metadata V)) × (pop_all_loop heap fuel id since until q
            ≡ ok (out, left))
          × IsDrained id since until q out left
    unfolding pop_all_loop
    pop_all_loop-lem zero id since until q hl h = absurd (omega arith)
    pop_all_loop-lem (suc fuel) id since until q hl h =
        let ((opt, rest), e, popped) = pop_impl-lem heap laws id since until q h in
        elim opt
            as (λ o.
              pop_impl heap id since until q ≡ ok (o, rest)
              → IsPopped id since until q (o, rest)
              → (out left : List (Metadata V)) × (pop_all_loop heap (suc fuel) id since until q
                  ≡ ok (out, left))
                × IsDrained id since until q out left) [
                  | none ↦ λ e (heaped, bag, empty). (
                    [],
                    rest,
                    simp e,
                    record {
                      heaped = heaped;
                      bag = bag;
                      framed = tt;
                      inside = tt;
                      increasing = tt;
                      complete =
                          count-and (λ x. in_frame id since until x && true)
                            (in_frame id since until) q (λ x. ground arith)
                          ∙ empty;
                    },
                  )
                  | some value ↦ λ e popped.
                      let fits : length rest < fuel =
                        omega (arith, shorter id since until q value rest popped) in
                      let (out, left, drained, d) =
                        pop_all_loop-lem fuel id since until rest fits popped.0 in
                      (
                        value ∷ out,
                        left,
                        simp (e, drained),
                        IsDrained-step id since until q value rest out left popped d,
                      )
                ]
          e popped

    -- With standard heap functions, pop_all on a heap returns. Its items are in the queue and of the
    -- input and the time frame, each later than the one before; it gives an item for each time at which
    -- the queue has such an item, so that of several such items of one time it gives one; and it leaves
    -- a heap of exactly the items that are not before `until`.
    pub pop_all-lem :
        (id since until : ℕ) (q : List (Metadata V))
        → IsHeap comparator q
        → (out left : List (Metadata V)) × (pop_all heap id since until q ≡ ok (out, left))
          × IsDrained id since until q out left
    unfolding pop_all
    pop_all-lem id since until q = pop_all_loop-lem (suc (length q)) id since until q (omega arith)

  remove_if-count :
      (r p : Metadata V → Bool) (q : List (Metadata V))
      → count p (remove_if r q) ≡ count (λ t. p t && not (r t)) q
  unfolding remove_if
  remove_if-count r p [] = refl
  remove_if-count r p (x ∷ q) = ground (arith, remove_if-count r p q)

  -- drop_id counts the items of the input and leaves exactly the other ones.
  pub drop_id-lem :
      (id : ℕ) (q : List (Metadata V))
      → ((drop_id id q).0 ≡ count (λ t. t.input_id == id) q)
        × ((p : Metadata V → Bool)
            → count p (drop_id id q).1 ≡ count (λ t. p t && not (t.input_id == id)) q)
  unfolding drop_id
  drop_id-lem id q =
      let other : Metadata V → Bool = λ t. t.input_id == id in
      (
        omega (
          arith,
          remove_if-count other (λ t. true) q,
          count-length q,
          count-length (remove_if other q),
          count-less other q,
        ),
        (λ p. remove_if-count other p q),
      )
