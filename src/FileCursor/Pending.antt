-- ===== src/FileCursor/Pending.antt =====
-- The state that the cursor of FileCursor.Concurrent emits while files are pending.
use airbyte_python_cdk.Prelude.{
  ℕ, ◌≤◌, ◌≡◌, refl, false, some, [], ◌∷◌, ◌++◌, Any, All, All-lookup, All-map, arith,
}
use airbyte_python_cdk.Python.Exceptions.{ok}
use airbyte_python_cdk.Python.Dict.{Dict, get, delete}
use airbyte_python_cdk.Python.Text.{Text, code_key, join}
use airbyte_python_cdk.Python.Extremes.{least, least-Any, least-All}
use airbyte_python_cdk.FileCursor.{RemoteFile, Config, History, entry_ltb}
use airbyte_python_cdk.FileCursor.Concurrent.{
  Cursor, state_message, get_cursor_key_from_file, get_new_cursor_value, unexpected, add_file,
  modified_ltb, underscore, compute_earliest_pending_file, compute_latest_file_in_history,
  emit_state_message, get_state,
}
use airbyte_python_cdk.FileCursor.Eviction.{
  IsWithin, IsAdded, Parses, add_to_history_lem, entry_ltb_irrefl, entry_ltb_asym, entry_leb_trans,
}

abbrev Pending : Type 0
Pending = Dict Text RemoteFile

earliest_pending-All :
    (entry : Text × RemoteFile) (pending : Pending)
    → All
        (λ e. (least modified_ltb entry pending).1.last_modified ≤ e.1.last_modified)
        (entry ∷ pending)
earliest_pending-All entry pending =
    All-map (λ e. modified_ltb e (least modified_ltb entry pending) ≡ false)
      (λ e. (least modified_ltb entry pending).1.last_modified ≤ e.1.last_modified)
      (λ e h. ground arith) (entry ∷ pending)
      (least-All modified_ltb (λ e. ground arith) (λ e f h. ground arith)
        (λ e f g h k. ground arith) entry pending)

module _ (config : Config)
    (strptime-strftime : (t : ℕ)
      → config.date_time_format.strptime (config.date_time_format.strftime t) ≡ ok t) where
  open config.date_time_format use {strftime, strptime}

  -- The value stands for a pending file such that no pending file is older; without pending files for
  -- the latest entry of the history, and for the least time if that is empty too.
  abbrev pub IsCursorOf : Pending → History → Text → Type 0
  IsCursorOf [] [] value = value ≡ join underscore (strftime 0) []
  IsCursorOf [] (entry ∷ history) value =
      (latest : Text × Text) × (t : ℕ) × (strptime latest.1 ≡ ok t)
      × (value
          ≡ get_cursor_key_from_file config (some (record { uri = latest.0; last_modified = t })))
      × Any (λ e. latest ≡ e) (entry ∷ history)
      × All (λ e. entry_ltb latest e ≡ false) (entry ∷ history)
  IsCursorOf (entry ∷ pending) history value =
      (file : Text × RemoteFile) × (value ≡ get_cursor_key_from_file config (some file.1))
      × Any (λ e. file ≡ e) (entry ∷ pending)
      × All (λ e. file.1.last_modified ≤ e.1.last_modified) (entry ∷ pending)

  new_cursor-IsCursorOf :
      (pending : Pending) (history : History)
      → All (Parses config strptime-strftime) history
      → (value : Text) × (get_new_cursor_value config (some pending) history ≡ ok value)
        × IsCursorOf pending history value
  unfolding get_new_cursor_value compute_earliest_pending_file compute_latest_file_in_history
  new_cursor-IsCursorOf [] [] parses = (join underscore (strftime 0) [], refl, refl)
  new_cursor-IsCursorOf [] (entry ∷ history) parses =
      let later = λ (e f : Text × Text). entry_ltb f e in
      let found = least-Any later entry history in
      let latest = least later entry history in
      let (t, parsed) =
        All-lookup (Parses config strptime-strftime) latest (entry ∷ history) parses found in
      (
        get_cursor_key_from_file config (some (record { uri = latest.0; last_modified = t })),
        rw parsed refl,
        (
          latest,
          t,
          parsed,
          refl,
          found,
          least-All later entry_ltb_irrefl (λ e f h. entry_ltb_asym f e h)
              (λ e f g h k. entry_leb_trans g f e k h) entry history,
        ),
      )
  new_cursor-IsCursorOf (entry ∷ pending) history parses = (
    get_cursor_key_from_file config (some (least modified_ltb entry pending).1),
    refl,
    (
      least modified_ltb entry pending,
      refl,
      least-Any modified_ltb entry pending,
      earliest_pending-All entry pending,
    ),
  )

  -- Of a cursor whose pending files were set and whose history is within its bound and can be read, where
  -- times are read back as they were written: adding a file does not raise, takes the file off the pending ones, changes the history as IsAdded says, and emits a state
  -- message with that history, after a warning if the file was not pending; its cursor value stands for
  -- a pending file such that none is older, or with none left for the latest entry of the history.
  pub add_file-IsCursorOf :
      (file : RemoteFile) (c : Cursor) (pending : Pending)
      → c.pending_files ≡ some pending
      → IsWithin config strptime-strftime c.history
      → (history : History) × (value : Text) × (add_file config file c
          ≡ ok (
            record c { pending_files = some (delete pending file.uri); history = history },
            unexpected (get pending file.uri) file
                ++ (state_message (record { history = some history; cursor = some value }) ∷ []),
          ))
        × IsWithin config strptime-strftime history
        × IsAdded config strptime-strftime file c.history history
        × IsCursorOf (delete pending file.uri) history value
  unfolding add_file emit_state_message get_state
  add_file-IsCursorOf file c pending e within =
      let (history, added, kept, IsAdded_history) =
        add_to_history_lem config strptime-strftime file c.history within in
      let (value, computed, IsCursorOf_value) =
        new_cursor-IsCursorOf (delete pending file.uri) history kept.parses in
      (history, value, rw (e, added, computed) refl, kept, IsAdded_history, IsCursorOf_value)
