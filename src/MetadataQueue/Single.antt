-- ===== src/MetadataQueue/Single.antt =====
-- pop_all on a queue whose only item is in the time frame.
use metamix.Base.{ℕ, ◌<◌, List, [], ◌∷◌, ◌≡◌, ap, Bool, true, ◌&&◌, not, arith}
use metamix.MetadataQueue.{Metadata}
use metamix.MetadataQueue.Heap.{SameBag, count}
use metamix.MetadataQueue.Popped.{in_frame}
use metamix.MetadataQueue.PopAll.{IsDrained, IsIn, at_time_of}

-- A test that tells items apart.
pub record IsEquality {V : Type 0} (same : Metadata V → Metadata V → Bool) : Type 0 where
  pub reflexive : (x : Metadata V) → same x x ≡ true
  pub sound : (x y : Metadata V) → same x y ≡ true → x ≡ y

module _ {V : Type 0} (same : Metadata V → Metadata V → Bool) (equality : IsEquality same) where
  only_item : (x v : Metadata V) (q : List (Metadata V)) → SameBag q (x ∷ []) → IsIn q v → v ≡ x
  only_item x v q bag inside =
      let found : 0 < count (same v) q = inside (same v) (equality.reflexive v) in
      equality.sound v x (ground (arith, bag (same v)))

  -- What is popped is the item alone.
  pub drained_single :
      (id since until : ℕ) (x : Metadata V) (q out left : List (Metadata V))
      → SameBag q (x ∷ [])
      → in_frame id since until x ≡ true
      → IsDrained id since until q out left
      → out ≡ x ∷ []
  drained_single id since until x q [] left bag h d =
      absurd
        (ground (arith, bag (λ y. in_frame id since until y && not (at_time_of [] y)), d.complete))
  drained_single id since until x q (v ∷ []) left bag h d =
      ap (λ y. y ∷ []) (only_item x v q bag d.inside.0)
  drained_single id since until x q (v ∷ w ∷ out) left bag h d =
      let first = only_item x v q bag d.inside.0 in
      let second = only_item x w q bag d.inside.1.0 in
      let less : v.pts < w.pts = d.increasing.0.0 in
      absurd (omega (arith, ap (λ y. y.pts) first, ap (λ y. y.pts) second))
