-- ===== src/StateManager/Tests.antt =====
-- The states of two streams, emitted and read back.
use airbyte_python_cdk.Prelude.{
  ℕ, ◌≡◌, refl, false, Option, none, some, List, [], ◌∷◌, map, String, text_key, arith,
}
use airbyte_python_cdk.Python.Exceptions.{ok, raise, value_error}
use airbyte_python_cdk.Python.Dict
use airbyte_python_cdk.Python.Dict.{Dict, contains}
use airbyte_python_cdk.StateManager.{
  global_state, init, get_stream_state, create_state_message, extract_from_state_message,
}
use airbyte_python_cdk.StateManager.RoundTrip.{init-create_state_message}

abbrev states : Dict String (Option ℕ)
states = ("users", some 7) ∷ ("orders", none) ∷ []

abbrev streams : List String
streams = "users" ∷ "orders" ∷ "items" ∷ []

all_covered : (d : String) → contains streams d ≡ false → Dict.get states d ≡ none
unfolding contains Dict.get
all_covered d h = ground (arith, h)

init-create_state_message_example :
    (restored : Dict String (Option ℕ)) × (init (some (map (create_state_message 0 states) streams))
      ≡ ok restored)
    × ((d : String) → get_stream_state 0 restored d ≡ get_stream_state 0 states d)
init-create_state_message_example = init-create_state_message 0 states streams all_covered

shared_state_is_refused :
    init {D = String} {B = ℕ} (some (global_state (some 1) (("users", some 7) ∷ []) ∷ []))
    ≡ raise value_error
unfolding init extract_from_state_message
shared_state_is_refused = refl
