-- ===== src/System.antt =====
-- The threads of src/main.cpp over the ApplicationContext that they share: one extractor for each
-- user input, the injector and the REST controller. A step is one operation on a shared object that
-- the object makes atomic: by the queue's mutex, or on one atomic variable. A thread's call is a
-- sequence of such steps (System/Calls), with steps of other threads in between.
pub mod Capabilities
pub mod Soundness
pub mod Runs
pub mod Calls
pub mod Requests
mod Tests
use metamix.Base.{◌∷◌, ◌==◌, if◌then◌else◌}
use metamix.Base.{ℕ, List, [], ◌≡◌, Bool, true, false, Option, none, some}
use metamix.Base.Int.{ℤ, pos}
use metamix.Binary.Outcome.{ok}
use metamix.Clock.{increment}
use metamix.H264.Sei.{SeiPayload}
use metamix.InputManager.{
  AbstractInput, InputMap, InputManager, Inputs, InputClass, user_defined_input, clear_input,
  get_input_by_id, is_input_id_valid, InputCapabilities, Effect,
}
use metamix.MetadataQueue.{Metadata, comparator, drop_id, pop_all}
use metamix.MetadataQueue.Group.{StdHeaps, push_sei, push_scte}
use metamix.MetadataQueue.Heap.{IsHeap}
use metamix.Options.{ProgramOptions, start}
use metamix.Proc.Controller.{Context}
use metamix.Scte35.Types.{SpliceInfoSection}

abbrev pub is_user_input : Option AbstractInput → Bool
is_user_input none = false
is_user_input (some input) = elim input.input_class [
  | user_defined_input ↦ true
  | clear_input ↦ false
]

-- Whether an id is of a user input: one that has an extractor.
abbrev pub is_user_id : InputMap → ℕ → Bool
is_user_id m id = is_user_input (get_input_by_id id m)

-- declare_capability of the input with this id.
abbrev pub declared : (InputCapabilities → InputCapabilities) → ℕ → InputMap → InputMap
declared f id [] = []
declared f id ((key, value) ∷ rest) =
    let others = declared f id rest in
    if key == id then (key, record value { caps = f value.caps }) ∷ rest else (key, value) ∷ others

abbrev pub with_sei_capability : InputCapabilities → InputCapabilities
with_sei_capability c = record { sei = true; scte = c.scte }

abbrev pub with_scte_capability : InputCapabilities → InputCapabilities
with_scte_capability c = record { sei = c.sei; scte = true }

-- The context that main builds, if the input manager has thrown nothing: an empty queue of each kind,
-- a clock at 0, and the adjustment of the options.
abbrev pub started_context : ℤ → Effect → Option Context
started_context ts_adjustment (some e, m) = none
started_context ts_adjustment (none, m) = some (record {
  input_manager = m;
  meta_queue = record { sei = []; scte = [] };
  clock = pos 0;
  ts_adjustment = ts_adjustment;
  restarts = [];
})

unfoldable pub main_context : ProgramOptions → Option Context
main_context o = started_context o.output.ts_adjustment (start o)

abbrev pub with_sei : Context → List (Metadata SeiPayload) → Context
with_sei ctx q = record ctx { meta_queue = record { sei = q; scte = ctx.meta_queue.scte } }

abbrev pub with_scte : Context → List (Metadata SpliceInfoSection) → Context
with_scte ctx q = record ctx { meta_queue = record { sei = ctx.meta_queue.sei; scte = q } }

abbrev pub with_current : Context → Inputs ℕ → Context
with_current ctx ids = record ctx {
  input_manager = record { current_inputs_ids = ids; inputs = ctx.input_manager.inputs };
}

abbrev pub with_inputs : Context → InputMap → Context
with_inputs ctx m = record ctx {
  input_manager = record { current_inputs_ids = ctx.input_manager.current_inputs_ids; inputs = m };
}

-- The atomic operations. An extractor declares its input's capabilities, pushes in its own input's
-- name, and drops the input's items when it ends. Only the injector pops, and only captions. The
-- controller selects an input that it has found in the map, and sets the flags and the adjustment;
-- an extractor clears its input's flag. The injector's ticker increments the clock.
pub data Step (heaps : StdHeaps) : Context → Context → Type 0 where
  declare_sei :
      (ctx : Context) (id : ℕ)
      → Step heaps ctx (with_inputs ctx (declared with_sei_capability id ctx.input_manager.inputs))
  declare_scte :
      (ctx : Context) (id : ℕ)
      → Step heaps ctx (with_inputs ctx (declared with_scte_capability id ctx.input_manager.inputs))
  push_caption :
      (ctx : Context) (meta : Metadata SeiPayload)
      → is_user_id ctx.input_manager.inputs meta.input_id ≡ true
      → Step heaps ctx (record ctx { meta_queue = push_sei heaps ctx.meta_queue meta })
  push_marker :
      (ctx : Context) (meta : Metadata SpliceInfoSection)
      → is_user_id ctx.input_manager.inputs meta.input_id ≡ true
      → Step heaps ctx (record ctx { meta_queue = push_scte heaps ctx.meta_queue meta })
  drop_captions :
      (ctx : Context) (id : ℕ) → Step heaps ctx (with_sei ctx (drop_id id ctx.meta_queue.sei).1)
  drop_markers :
      (ctx : Context) (id : ℕ) → Step heaps ctx (with_scte ctx (drop_id id ctx.meta_queue.scte).1)
  pop_captions :
      (ctx : Context) (id since until : ℕ) {out : List (Metadata SeiPayload)}
      {left : List (Metadata SeiPayload)}
      → pop_all heaps.sei id since until ctx.meta_queue.sei ≡ ok (out, left)
      → Step heaps ctx (with_sei ctx left)
  select_sei :
      (ctx : Context) (id : ℕ)
      → is_input_id_valid id ctx.input_manager.inputs ≡ true
      → Step heaps ctx
          (with_current ctx (record { sei = id; scte = ctx.input_manager.current_inputs_ids.scte }))
  select_scte :
      (ctx : Context) (id : ℕ)
      → is_input_id_valid id ctx.input_manager.inputs ≡ true
      → Step heaps ctx
          (with_current ctx (record { sei = ctx.input_manager.current_inputs_ids.sei; scte = id }))
  flag_restarts : (ctx : Context) (ids : List ℕ) → Step heaps ctx (record ctx { restarts = ids })
  adjust : (ctx : Context) (value : ℤ) → Step heaps ctx (record ctx { ts_adjustment = value })
  advance :
      (ctx : Context) (delta : ℤ)
      → Step heaps ctx (record ctx { clock = increment ctx.clock delta })

-- The contexts that interleaved steps lead to.
pub data Steps (heaps : StdHeaps) (s : Context) : Context → Type 0 where
  here : Steps heaps s s
  next : {t u : Context} → Steps heaps s t → Step heaps t u → Steps heaps s u

-- drop_id restores no heap. A drop is tidy where it happens to leave one.
abbrev pub IsTidyStep : {heaps : StdHeaps} {s t : Context} → Step heaps s t → Type 0
IsTidyStep (drop_captions ctx id) = IsHeap comparator (drop_id id ctx.meta_queue.sei).1
IsTidyStep (drop_markers ctx id) = IsHeap comparator (drop_id id ctx.meta_queue.scte).1
IsTidyStep (declare_sei ctx id) = Unit
IsTidyStep (declare_scte ctx id) = Unit
IsTidyStep (push_caption ctx meta user) = Unit
IsTidyStep (push_marker ctx meta user) = Unit
IsTidyStep (pop_captions ctx id since until popped) = Unit
IsTidyStep (select_sei ctx id found) = Unit
IsTidyStep (select_scte ctx id found) = Unit
IsTidyStep (flag_restarts ctx ids) = Unit
IsTidyStep (adjust ctx value) = Unit
IsTidyStep (advance ctx delta) = Unit

-- Every drop on the way is tidy.
abbrev pub IsTidy : {heaps : StdHeaps} {s t : Context} → Steps heaps s t → Type 0
IsTidy here = Unit
IsTidy (next path step) = IsTidy path × IsTidyStep step
