-- ===== src/System/Soundness.antt =====
-- What every interleaving keeps, and what it gives the injector.
use metamix.Base.{ℕ, refl, ◌≤◌, List, [], ◌∷◌, ◌≡◌, ◌∙◌, Bool, true, ◌&&◌, not, arith, leb, ◌==◌}
use metamix.Base.Int.{ℤ, ◌≤ℤ◌}
use metamix.Binary.Outcome.{ok}
use metamix.Clock.{increment}
use metamix.Clock.Ticks.{increment-le}
use metamix.H264.Sei.{SeiPayload}
use metamix.InputManager.{InputMap, Inputs, InputCapabilities}
use metamix.Scte35.Types.{SpliceInfoSection}
use metamix.InputManager.Current.{IsValid}
use metamix.MetadataQueue.{Metadata, StdHeap, comparator, push, drop_id, pop_all}
use metamix.MetadataQueue.Group.{QueueGroup, StdHeaps, push_sei, push_scte}
use metamix.MetadataQueue.Heap.{IsHeap, IsStdHeap, count}
use metamix.MetadataQueue.PopAll.{pop_all-lem, drop_id-lem}
use metamix.Proc.Controller.{Context}
use metamix.System.Capabilities.{
  all_uncapped, all_uncapped-declared, is_input_id_valid-declared, is_user_id-declared,
}
use metamix.System.{
  declared, with_inputs, declare_sei, declare_scte, IsTidyStep, IsTidy, is_user_id, Step,
  push_caption, push_marker, drop_captions, drop_markers, pop_captions, select_sei, select_scte,
  flag_restarts, adjust, advance, Steps, here, next,
}

abbrev pub is_foreign : {V : Type 0} → InputMap → Metadata V → Bool
is_foreign m t = not (is_user_id m t.input_id)

-- Every item in a queue is of a user input.
abbrev pub IsOwned : {V : Type 0} → InputMap → List (Metadata V) → Type 0
IsOwned m q = count (is_foreign m) q ≡ 0

-- What holds of a context since `first`: the same inputs, apart from their capabilities, of which the
-- current ones are, and a clock that has not gone back.
pub record IsSound (first ctx : Context) : Type 0 where
  pub same_inputs : all_uncapped ctx.input_manager.inputs ≡ all_uncapped first.input_manager.inputs
  pub current : IsValid ctx.input_manager
  pub forward : first.clock ≤ℤ ctx.clock

-- The queues are heaps of items of user inputs.
pub record IsQueued (m : InputMap) (g : QueueGroup) : Type 0 where
  pub sei_heap : IsHeap comparator g.sei
  pub scte_heap : IsHeap comparator g.scte
  pub sei_owned : IsOwned m g.sei
  pub scte_owned : IsOwned m g.scte

module _ {V : Type 0} where
  count-and :
      (p r : Metadata V → Bool) (q : List (Metadata V)) → count (λ t. p t && r t) q ≤ count p q
  count-and p r [] = omega arith
  count-and p r (x ∷ q) = ground (arith, count-and p r q)

  declared-IsOwned :
      (f : InputCapabilities → InputCapabilities) (id : ℕ) (m : InputMap) (q : List (Metadata V))
      → count (is_foreign (declared f id m)) q ≡ count (is_foreign m) q
  declared-IsOwned f id m [] = refl
  declared-IsOwned f id m (x ∷ q) =
      rw (is_user_id-declared f id m x.input_id, declared-IsOwned f id m q)

  push-IsOwned :
      (m : InputMap) (heap : StdHeap (Metadata V)) (q : List (Metadata V)) (meta : Metadata V)
      → IsStdHeap heap comparator
      → IsHeap comparator q
      → is_user_id m meta.input_id ≡ true
      → IsOwned m q
      → IsOwned m (push heap q meta)
  unfolding push
  push-IsOwned m heap q meta laws h user owned =
      laws.push_SameBag q meta h (is_foreign m) ∙ rw user (omega (arith, owned))

  push-IsHeap :
      (heap : StdHeap (Metadata V)) (q : List (Metadata V)) (meta : Metadata V)
      → IsStdHeap heap comparator
      → IsHeap comparator q
      → IsHeap comparator (push heap q meta)
  unfolding push
  push-IsHeap heap q meta laws h = laws.push_IsHeap q meta h

  drop-IsOwned :
      (m : InputMap) (id : ℕ) (q : List (Metadata V)) → IsOwned m q → IsOwned m (drop_id id q).1
  drop-IsOwned m id q owned = omega (
    arith,
    (drop_id-lem id q).1 (is_foreign m),
    count-and (is_foreign m) (λ t. not (t.input_id == id)) q,
  )

module _ (heaps : StdHeaps) (sei_laws : IsStdHeap heaps.sei comparator)
    (scte_laws : IsStdHeap heaps.scte comparator) where
  pop-left :
      (m : InputMap) (id since until : ℕ) (ctx : Context) (out left : List (Metadata SeiPayload))
      → IsHeap comparator ctx.meta_queue.sei
      → IsOwned m ctx.meta_queue.sei
      → pop_all heaps.sei id since until ctx.meta_queue.sei ≡ ok (out, left)
      → IsHeap comparator left × IsOwned m left
  pop-left m id since until ctx out left h owned popped =
      let (out', left', e, d) =
        pop_all-lem heaps.sei sei_laws id since until ctx.meta_queue.sei h in
      let same : left' ≡ left = cc (rw e at popped) in
      rw (← same) (
        d.heaped,
        omega (
          arith,
          owned,
          d.bag (is_foreign m),
          count-and (is_foreign m) (λ x. leb until x.pts) ctx.meta_queue.sei,
        ),
      )

  declared-IsQueued :
      (f : InputCapabilities → InputCapabilities) (id : ℕ) (m : InputMap) (g : QueueGroup)
      → IsQueued m g
      → IsQueued (declared f id m) g
  declared-IsQueued f id m g h = record {
    sei_heap = h.sei_heap;
    scte_heap = h.scte_heap;
    sei_owned = declared-IsOwned f id m g.sei ∙ h.sei_owned;
    scte_owned = declared-IsOwned f id m g.scte ∙ h.scte_owned;
  }

  Step-IsQueued :
      {s t : Context} (step : Step heaps s t)
      → IsTidyStep step
      → IsQueued s.input_manager.inputs s.meta_queue
      → IsQueued t.input_manager.inputs t.meta_queue
  unfolding push_sei push_scte
  Step-IsQueued (declare_sei ctx id) tidy h = declared-IsQueued _ id _ ctx.meta_queue h
  Step-IsQueued (declare_scte ctx id) tidy h = declared-IsQueued _ id _ ctx.meta_queue h
  Step-IsQueued (push_caption ctx meta user) tidy h =
      let m : InputMap = ctx.input_manager.inputs in
      let q : List (Metadata SeiPayload) = ctx.meta_queue.sei in
      record {
        sei_heap = push-IsHeap heaps.sei q meta sei_laws h.sei_heap;
        scte_heap = h.scte_heap;
        sei_owned = push-IsOwned m heaps.sei q meta sei_laws h.sei_heap user h.sei_owned;
        scte_owned = h.scte_owned;
      }
  Step-IsQueued (push_marker ctx meta user) tidy h =
      let m : InputMap = ctx.input_manager.inputs in
      let q : List (Metadata SpliceInfoSection) = ctx.meta_queue.scte in
      record {
        sei_heap = h.sei_heap;
        scte_heap = push-IsHeap heaps.scte q meta scte_laws h.scte_heap;
        sei_owned = h.sei_owned;
        scte_owned = push-IsOwned m heaps.scte q meta scte_laws h.scte_heap user h.scte_owned;
      }
  Step-IsQueued (drop_captions ctx id) heaped h = record {
    sei_heap = heaped;
    scte_heap = h.scte_heap;
    sei_owned = drop-IsOwned ctx.input_manager.inputs id ctx.meta_queue.sei h.sei_owned;
    scte_owned = h.scte_owned;
  }
  Step-IsQueued (drop_markers ctx id) heaped h = record {
    sei_heap = h.sei_heap;
    scte_heap = heaped;
    sei_owned = h.sei_owned;
    scte_owned = drop-IsOwned ctx.input_manager.inputs id ctx.meta_queue.scte h.scte_owned;
  }
  Step-IsQueued (pop_captions ctx id since until popped) tidy h =
      let (heaped, owned) =
        pop-left ctx.input_manager.inputs id since until ctx _ _ h.sei_heap h.sei_owned popped in
      record {
        sei_heap = heaped;
        scte_heap = h.scte_heap;
        sei_owned = owned;
        scte_owned = h.scte_owned;
      }
  Step-IsQueued (select_sei ctx id found) tidy h = h
  Step-IsQueued (select_scte ctx id found) tidy h = h
  Step-IsQueued (flag_restarts ctx ids) tidy h = h
  Step-IsQueued (adjust ctx value) tidy h = h
  Step-IsQueued (advance ctx delta) tidy h = h

  pub Steps-IsQueued :
      {first s : Context} (path : Steps heaps first s)
      → IsTidy path
      → IsQueued first.input_manager.inputs first.meta_queue
      → IsQueued s.input_manager.inputs s.meta_queue
  Steps-IsQueued here tidy h = h
  Steps-IsQueued (next path step) (tidy, last) h =
      Step-IsQueued step last (Steps-IsQueued path tidy h)

module _ (heaps : StdHeaps) where
  IsSound-with :
      {first : Context} (ctx : Context) (ids : Inputs ℕ) (m : InputMap) (g : QueueGroup) (clock : ℤ)
      (adjustment : ℤ) (restarts : List ℕ)
      → IsSound first ctx
      → all_uncapped m ≡ all_uncapped ctx.input_manager.inputs
      → IsValid (record { current_inputs_ids = ids; inputs = m })
      → ctx.clock ≤ℤ clock
      → IsSound first (record {
        input_manager = record { current_inputs_ids = ids; inputs = m };
        meta_queue = g;
        clock = clock;
        ts_adjustment = adjustment;
        restarts = restarts;
      })
  IsSound-with ctx ids m g clock adjustment restarts h same valid later = record {
    same_inputs = same ∙ h.same_inputs;
    current = valid;
    forward = omega (arith, h.forward);
  }

  requeued :
      {first : Context} (ctx : Context) (g : QueueGroup)
      → IsSound first ctx
      → IsSound first (record ctx { meta_queue = g })
  requeued ctx g h = record {
    same_inputs = h.same_inputs;
    current = h.current;
    forward = h.forward;
  }

  declared-IsSound :
      {first : Context} (f : InputCapabilities → InputCapabilities) (id : ℕ) (ctx : Context)
      → IsSound first ctx
      → IsSound first (with_inputs ctx (declared f id ctx.input_manager.inputs))
  declared-IsSound f id ctx h =
      let m : InputMap = ctx.input_manager.inputs in
      let ids : Inputs ℕ = ctx.input_manager.current_inputs_ids in
      IsSound-with ctx _ _ _ ctx.clock ctx.ts_adjustment ctx.restarts h
        (all_uncapped-declared f id m)
        (
          is_input_id_valid-declared f id ids.sei m ∙ h.current.0,
          is_input_id_valid-declared f id ids.scte m ∙ h.current.1,
        )
        (omega arith)

  Step-IsSound : {first s t : Context} → Step heaps s t → IsSound first s → IsSound first t
  Step-IsSound (declare_sei ctx id) h = declared-IsSound _ id ctx h
  Step-IsSound (declare_scte ctx id) h = declared-IsSound _ id ctx h
  Step-IsSound (push_caption ctx meta user) h = requeued ctx _ h
  Step-IsSound (push_marker ctx meta user) h = requeued ctx _ h
  Step-IsSound (drop_captions ctx id) h = requeued ctx _ h
  Step-IsSound (drop_markers ctx id) h = requeued ctx _ h
  Step-IsSound (pop_captions ctx id since until popped) h = requeued ctx _ h
  Step-IsSound (select_sei ctx id found) h =
      IsSound-with ctx _ _ _ ctx.clock ctx.ts_adjustment ctx.restarts h refl (found, h.current.1)
        (omega arith)
  Step-IsSound (select_scte ctx id found) h =
      IsSound-with ctx _ _ _ ctx.clock ctx.ts_adjustment ctx.restarts h refl (h.current.0, found)
        (omega arith)
  Step-IsSound (flag_restarts ctx ids) h =
      IsSound-with ctx _ _ _ ctx.clock ctx.ts_adjustment ids h refl h.current (omega arith)
  Step-IsSound (adjust ctx value) h =
      IsSound-with ctx _ _ _ ctx.clock value ctx.restarts h refl h.current (omega arith)
  Step-IsSound (advance ctx delta) h =
      IsSound-with ctx _ _ _ (increment ctx.clock delta) ctx.ts_adjustment ctx.restarts h refl
        h.current (increment-le ctx.clock delta).0

  pub Steps-IsSound :
      {first s : Context} → IsSound first first → Steps heaps first s → IsSound first s
  Steps-IsSound h here = h
  Steps-IsSound h (next path step) = Step-IsSound step (Steps-IsSound h path)
