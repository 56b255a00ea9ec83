-- ===== src/StateManager.antt =====
-- airbyte_cdk/sources/connector_state_manager.py: the state of each stream. `D` is the type of stream
-- descriptors, `B` that of state blobs, of which `empty` is the one without fields.
pub mod RoundTrip
mod Tests
use airbyte_python_cdk.Prelude.{
  Bool, true, false, Option, none, some, List, [], ◌∷◌, if◌then◌else◌, Hashable, ◌==◌,
}
use airbyte_python_cdk.Python.Exceptions.{Result, ok, raise, value_error}
use airbyte_python_cdk.Python.Dict
use airbyte_python_cdk.Python.Dict.{Dict}

-- A state message of type STREAM, GLOBAL or LEGACY; a blob may be missing.
pub data StateMessage (D B : Type 0) : Type 0 where
  stream_state : D → Option B → StateMessage D B
  global_state : Option B → List (D × Option B) → StateMessage D B
  legacy_state : B → StateMessage D B

-- A stream without a state, or whose state is None, has the empty one.
abbrev pub blob_or : {B : Type 0} → B → Option (Option B) → B
blob_or empty (some (some blob)) = blob
blob_or empty _ = empty

module _ {D B : Type 0} ⦃key : Hashable D⦄ where
  -- The mapping of a list of streams: a later entry replaces an earlier one.
  unfoldable pub collect : Dict D (Option B) → List (D × Option B) → Dict D (Option B)
  collect states [] = states
  collect states (entry ∷ entries) = collect (Dict.set states entry.0 entry.1) entries

  -- The entries of the messages of type STREAM.
  unfoldable pub stream_entries : List (StateMessage D B) → List (D × Option B)
  stream_entries [] = []
  stream_entries (stream_state d blob ∷ messages) = (d, blob) ∷ stream_entries messages
  stream_entries (_ ∷ messages) = stream_entries messages

  -- `_extract_from_state_message`: only a list of one GLOBAL message is global.
  unfoldable pub extract_from_state_message :
      Option (List (StateMessage D B)) → Option B × Dict D (Option B)
  unfolding collect stream_entries
  extract_from_state_message none = (none, [])
  extract_from_state_message (some (global_state shared streams ∷ [])) =
      (shared, collect [] streams)
  extract_from_state_message (some messages) = (none, collect [] (stream_entries messages))

  -- `__init__` refuses a shared state.
  abbrev without_shared : Option B × Dict D (Option B) → Result (Dict D (Option B))
  without_shared (none, states) = ok states
  without_shared (some shared, states) = raise value_error

  unfoldable pub init : Option (List (StateMessage D B)) → Result (Dict D (Option B))
  unfolding extract_from_state_message
  init state = without_shared (extract_from_state_message state)

  unfoldable pub get_stream_state : B → Dict D (Option B) → D → B
  get_stream_state empty states d = blob_or empty (Dict.get states d)

  unfoldable pub update_state_for_stream : D → B → Dict D (Option B) → Dict D (Option B)
  update_state_for_stream d value states = Dict.set states d (some value)

  unfoldable pub create_state_message : B → Dict D (Option B) → D → StateMessage D B
  create_state_message empty states d = stream_state d (some (blob_or empty (Dict.get states d)))
