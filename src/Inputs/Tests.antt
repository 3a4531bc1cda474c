-- ===== src/Inputs/Tests.antt =====
-- The queries of inputs, at concrete queues.
use metamix.Base.{[], ◌∷◌, ◌≡◌, refl, false, none}
use metamix.Binary.Outcome.{runtime_error}
use metamix.InputManager.{InputSpec}
use metamix.Inputs.{new_user_defined_input, query_scte, run_query_scte}

abbrev news : InputSpec
news = record {
  id = 3;
  name = b'n' ∷ [];
  source = [];
  sink = [];
  source_format = none;
  sink_format = none;
  is_virtual = false;
}

-- A user defined input has no answer on SCTE-35.
scte_thrown : query_scte (new_user_defined_input news) 10 20 ≡ runtime_error
unfolding query_scte run_query_scte new_user_defined_input
scte_thrown = refl
