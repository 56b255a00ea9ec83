-- ===== src/CheckpointReader.antt =====
-- airbyte_cdk/sources/streams/checkpoint/checkpoint_reader.py: which slice of a stream is read next,
-- and which state is emitted. `P` is the type of a slice's partition, `E` that of its extra fields,
-- `C` that of state mappings, `W` that of the cursor with what it has seen.
pub mod Resumable
mod Tests
use airbyte_python_cdk.Prelude.{
  Bool, true, false, Option, none, some, List, [], ◌∷◌, if◌then◌else◌, Hashable, ◌==◌, ◌||◌, not,
}
use airbyte_python_cdk.Python.Exceptions.{Result, ok, raise, value_error}

pub record StreamSlice (P C E : Type 0) : Type 0 where
  pub partition : P
  pub cursor_slice : C
  pub extra_fields : E

-- What an iterable of slices may give: a StreamSlice, a mapping, or neither.
pub data Item (P C E : Type 0) : Type 0 where
  slice : StreamSlice P C E → Item P C E
  mapping : P → Item P C E
  neither : Item P C E

-- The mappings `{}` and FULL_REFRESH_COMPLETE_STATE.
pub record States (C : Type 0) : Type 0 where
  pub empty : C
  pub complete : C

-- A Cursor: a state of `none` is None.
pub record Cursor (W P C E : Type 0) : Type 0 where
  pub select_state : W → StreamSlice P C E → Option C
  pub get_stream_state : W → C

-- IncrementalCheckpointReader
pub record IncrementalReader (S C : Type 0) : Type 0 where
  pub state : Option C
  pub stream_slices : List S
  pub has_slices : Bool

module _ {S C : Type 0} where
  unfoldable pub next_incremental : IncrementalReader S C → Option S × IncrementalReader S C
  next_incremental r = elim r.stream_slices [
    | [] ↦ (none, if r.has_slices then record r { state = none } else r)
    | s ∷ rest ↦ (some s, record r { stream_slices = rest; has_slices = true })
  ]

  unfoldable pub observe_incremental : C → IncrementalReader S C → IncrementalReader S C
  observe_incremental new_state r = record r { state = some new_state }

  unfoldable pub incremental_checkpoint : IncrementalReader S C → Option C
  incremental_checkpoint r = r.state

-- FullRefreshCheckpointReader
pub record FullRefreshReader (S : Type 0) : Type 0 where
  pub stream_slices : List S
  pub final_checkpoint : Bool

module _ {S : Type 0} where
  unfoldable pub next_full_refresh : FullRefreshReader S → Option S × FullRefreshReader S
  next_full_refresh r = elim r.stream_slices [
    | [] ↦ (none, record r { final_checkpoint = true })
    | s ∷ rest ↦ (some s, record r { stream_slices = rest })
  ]

  -- `no_cursor` is the mapping `{"__ab_no_cursor_state_message": True}`.
  unfoldable pub full_refresh_checkpoint : {C : Type 0} → C → FullRefreshReader S → Option C
  full_refresh_checkpoint no_cursor r = if r.final_checkpoint then some no_cursor else none

-- ResumableFullRefreshCheckpointReader
pub record ResumableReader (C : Type 0) : Type 0 where
  pub first_page : Bool
  pub state : C

module _ {C : Type 0} ⦃key : Hashable C⦄ (states : States C) where
  open states use {empty, complete}

  unfoldable pub init_resumable : C → ResumableReader C
  init_resumable stream_state = record { first_page = stream_state == empty; state = stream_state }

  unfoldable pub next_resumable : ResumableReader C → Option C × ResumableReader C
  next_resumable r =
      if r.first_page
      then (some r.state, record r { first_page = false })
      else if r.state == complete
      then (none, r)
      else (some r.state, r)

  unfoldable pub observe_resumable : C → ResumableReader C → ResumableReader C
  observe_resumable new_state r = record r { state = new_state }

-- CursorBasedCheckpointReader
pub record CursorBasedReader (P C E : Type 0) : Type 0 where
  pub stream_slices : List (Item P C E)
  pub read_state_from_cursor : Bool
  pub current_slice : Option (StreamSlice P C E)
  pub finished_sync : Bool
  pub previous_state : Option C

-- A slice, the end of the slices, or a ValueError, each with the slices that are left.
pub data Found (P C E : Type 0) : Type 0 where
  found : StreamSlice P C E → List (Item P C E) → Found P C E
  stop_iteration : Found P C E
  invalid : List (Item P C E) → Found P C E

module _ {W P C E : Type 0} ⦃key : Hashable C⦄ (states : States C) (cursor : Cursor W P C E) where
  open states use {empty, complete}
  open cursor use {select_state, get_stream_state}

  abbrev pub is_complete : Option C → Bool
  is_complete none = false
  is_complete (some state) = state == complete

  -- `state or {}`
  abbrev pub or_empty_state : Option C → C
  or_empty_state none = empty
  or_empty_state (some state) = state

  abbrev pub with_state : Option C → StreamSlice P C E → StreamSlice P C E
  with_state state s = record s { cursor_slice = or_empty_state state }

  -- `read_and_convert_slice`
  unfoldable pub read_and_convert_slice : List (Item P C E) → Found P C E
  read_and_convert_slice [] = stop_iteration
  read_and_convert_slice (slice s ∷ rest) = found s rest
  read_and_convert_slice (_ ∷ rest) = invalid rest

  -- The slices up to the first one that is not complete.
  unfoldable pub next_incomplete : W → List (Item P C E) → Found P C E
  next_incomplete w [] = stop_iteration
  next_incomplete w (slice s ∷ rest) =
      let state = select_state w s in
      let later = next_incomplete w rest in
      if is_complete state then later else found (with_state state s) rest
  next_incomplete w (mapping p ∷ rest) = invalid rest
  next_incomplete w (neither ∷ rest) = invalid rest

  -- The slice that goes on, or the next one that is not complete.
  abbrev continue : W → StreamSlice P C E → List (Item P C E) → Found P C E
  continue w current slices =
      let state = select_state w current in
      if is_complete state
      then next_incomplete w slices
      else found (with_state state current) slices

  unfoldable pub find_next_slice : W → CursorBasedReader P C E → Found P C E
  find_next_slice w r =
      if r.read_state_from_cursor
      then elim r.current_slice [
        | none ↦ next_incomplete w r.stream_slices
        | some current ↦ continue w current r.stream_slices
      ]
      else read_and_convert_slice r.stream_slices

  abbrev pub moved :
      Found P C E
      → CursorBasedReader P C E
      → Result (Option (StreamSlice P C E)) × CursorBasedReader P C E
  moved (found s rest) r = (ok (some s), record r { stream_slices = rest; current_slice = some s })
  moved stop_iteration r = (ok none, record r { stream_slices = []; finished_sync = true })
  moved (invalid rest) r = (raise value_error, record r { stream_slices = rest })

  unfoldable pub next :
      W → CursorBasedReader P C E → Result (Option (StreamSlice P C E)) × CursorBasedReader P C E
  next w r = moved (find_next_slice w r) r

  abbrev same_state : C → Option C → Bool
  same_state state none = false
  same_state state (some previous) = state == previous

  unfoldable pub get_checkpoint : W → CursorBasedReader P C E → Option C × CursorBasedReader P C E
  get_checkpoint w r =
      let new_state = get_stream_state w in
      if same_state new_state r.previous_state
      then (none, r)
      else (some new_state, record r { previous_state = some new_state })
