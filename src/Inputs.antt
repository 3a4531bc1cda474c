-- ===== src/Inputs.antt =====
-- The queries of src/abstract_input.h, abstract_input.cpp, user_defined_input.cpp and
-- clear_input.cpp. The virtual calls are a match on the input's class. A time is the distance from
-- the smallest timestamp, as in MetadataQueue.
pub mod Query
mod Tests
use metamix.Base.{ℕ, ◌+◌, ◌-◌, ◌*◌, List, [], ◌∷◌, Bool, true, false, Option, none, some, max}
use metamix.Binary.Outcome.{Outcome, ok, runtime_error, bind}
use metamix.H264.Sei.{SeiPayload}
use metamix.H264.StdSeis.{build_empty_metadata, build_cc_reset_metadata}
use metamix.InputManager.{
  InputSpec, InputCapabilities, AbstractInput, InputClass, user_defined_input, clear_input,
}
use metamix.MetadataQueue.{Metadata}
use metamix.MetadataQueue.Group.{QueueGroup, StdHeaps, pop_all_sei}
use metamix.Scte35.Types.{SpliceInfoSection, splice_null}

-- ClearInput::ClearInput; NAME is "clear".
unfoldable pub new_clear_input : ℕ → AbstractInput
new_clear_input input_id = record {
  input_class = clear_input;
  spec = record {
    id = input_id;
    name = b'c' ∷ b'l' ∷ b'e' ∷ b'a' ∷ b'r' ∷ [];
    source = [];
    sink = [];
    source_format = none;
    sink_format = none;
    is_virtual = true;
  };
  caps = record { sei = true; scte = true };
}

-- UserDefinedInput::UserDefinedInput
unfoldable pub new_user_defined_input : InputSpec → AbstractInput
new_user_defined_input spec = record {
  input_class = user_defined_input;
  spec = spec;
  caps = record { sei = false; scte = false };
}

-- The vector of the popped items, if there are any.
abbrev pub if_any : {V : Type 0} → List (Metadata V) → Option (List (Metadata V))
if_any [] = none
if_any (x ∷ xs) = some (x ∷ xs)

-- std::max(since_ts, until_ts - 1_clock)
abbrev pub frame_end : ℕ → ℕ → ℕ
frame_end since_ts until_ts = max since_ts (until_ts - 1)

-- The section that ClearInput::run_query_scte builds. `order` 0 is 2 ^ 31 above the smallest int.
abbrev pub null_section : ℕ → ℕ → Metadata SpliceInfoSection
null_section id ts = record {
  input_id = id;
  pts = ts;
  dts = ts;
  order = 2_147_483_648;
  val = record {
    encrypted_packet = false;
    encryption_algorithm = 0;
    pts_adjustment = 0;
    cw_index = 0;
    tier = 0xfff;
    command = splice_null;
    descriptors = [];
  };
}

-- What query<SeiKind> makes of it, with build_empty_sei.
abbrev pub or_empty : ℕ → ℕ → Option (List (Metadata SeiPayload)) → List (Metadata SeiPayload)
or_empty id ts none = build_empty_metadata id ts ∷ []
or_empty id ts (some r) = r

module _ (heaps : StdHeaps) where
  -- run_query_sei of each class
  unfoldable pub run_query_sei :
      InputClass
      → ℕ
      → ℕ
      → ℕ
      → QueueGroup
      → Outcome (Option (List (Metadata SeiPayload)) × QueueGroup)
  run_query_sei user_defined_input id since_ts until_ts g =
      bind (pop_all_sei heaps id since_ts until_ts g) λ (v, left). ok (if_any v, left)
  run_query_sei clear_input id since_ts until_ts g =
      ok (some (build_cc_reset_metadata id (frame_end since_ts until_ts) ∷ []), g)

  unfoldable pub query_sei :
      AbstractInput → ℕ → ℕ → QueueGroup → Outcome (List (Metadata SeiPayload) × QueueGroup)
  query_sei input since_ts until_ts g =
      bind (run_query_sei input.input_class input.spec.id since_ts until_ts g)
        λ (r, left). ok (or_empty input.spec.id (frame_end since_ts until_ts) r, left)

-- run_query_scte of each class
unfoldable pub run_query_scte : InputClass → ℕ → ℕ → ℕ → Option (List (Metadata SpliceInfoSection))
run_query_scte user_defined_input id since_ts until_ts = none
run_query_scte clear_input id since_ts until_ts =
    some (null_section id (frame_end since_ts until_ts) ∷ [])

-- build_empty_scte throws std::runtime_error.
abbrev pub or_throw :
    Option (List (Metadata SpliceInfoSection)) → Outcome (List (Metadata SpliceInfoSection))
or_throw none = runtime_error
or_throw (some r) = ok r

unfoldable pub query_scte : AbstractInput → ℕ → ℕ → Outcome (List (Metadata SpliceInfoSection))
query_scte input since_ts until_ts =
    or_throw (run_query_scte input.input_class input.spec.id since_ts until_ts)
