-- ===== src/FileCursor/Concurrent.antt =====
-- airbyte_cdk/sources/file_based/stream/concurrent/cursor/file_based_concurrent_cursor.py
use airbyte_python_cdk.Prelude.{
  ℕ, Bool, true, false, Option, none, some, List, [], ◌∷◌, ◌++◌, if◌then◌else◌, ltb, leb, eqb,
}
use airbyte_python_cdk.Python.Exceptions.{Result, ok, raise, ◌>>=◌, runtime_error, value_error}
use airbyte_python_cdk.Python.Dict.{Dict, get, set, delete}
use airbyte_python_cdk.Python.Generators.{Generator, nothing, run_then, yield_then}
use airbyte_python_cdk.Python.Text.{Text, text_ltb, code_key, codes, split_once, join}
use airbyte_python_cdk.Python.Extremes.{least}
use airbyte_python_cdk.FileCursor.{
  RemoteFile, Config, History, entry_ltb, file_of, compute_earliest_file_in_history,
  is_history_full, add_to_history, compute_start_time, time_window_if_history_is_full,
}

-- The keys of a state that the cursor reads, and those that it writes.
pub record StreamState : Type 0 where
  pub history : Option History
  pub cursor : Option Text

-- A warning about a file, or the state message that the state manager makes.
pub data Message : Type 0 where
  warning : RemoteFile → Message
  state_message : StreamState → Message

pub record Cursor : Type 0 where
  pub time_window : ℕ
  pub pending_files : Option (Dict Text RemoteFile)
  pub history : History
  pub prev_cursor_value : ℕ × Text
  pub sync_start : ℕ

abbrev pub underscore : ℕ
underscore = 95

abbrev pub zero_cursor_value : Text
zero_cursor_value = codes "0001-01-01T00:00:00.000000Z_"

-- `value.get(cursor_field) or zero_cursor_value`
abbrev pub prev_cursor_str : Option Text → Text
prev_cursor_str none = zero_cursor_value
prev_cursor_str (some []) = zero_cursor_value
prev_cursor_str (some (c ∷ s)) = c ∷ s

abbrev pub history_of : Option StreamState → History
history_of none = []
history_of (some value) = elim value.history [ none ↦ [] | some history ↦ history ]

unfoldable pub close_partition : Cursor → Result (Unit {0})
close_partition c = elim c.pending_files [ none ↦ raise runtime_error | some pending ↦ ok tt ]

-- A partition of one file, as FileBasedStreamPartitionGenerator makes them all.
unfoldable pub set_pending : List RemoteFile → Dict Text RemoteFile → Result (Dict Text RemoteFile)
set_pending [] pending = ok pending
set_pending (file ∷ files) pending =
    let rest = set_pending files (set pending file.uri file) in
    elim (get pending file.uri) [ none ↦ rest | some known ↦ raise runtime_error ]

unfoldable pub set_pending_partitions : List RemoteFile → Cursor → Result Cursor
set_pending_partitions files c =
    set_pending files [] >>= λ pending. ok (record c { pending_files = some pending })

abbrev pub modified_ltb : Text × RemoteFile → Text × RemoteFile → Bool
modified_ltb (_, f) (_, g) = ltb f.last_modified g.last_modified

unfoldable pub compute_earliest_pending_file : Dict Text RemoteFile → Option RemoteFile
compute_earliest_pending_file [] = none
compute_earliest_pending_file (entry ∷ pending) = some (least modified_ltb entry pending).1

abbrev pub unexpected : Option RemoteFile → RemoteFile → List Message
unexpected none file = warning file ∷ []
unexpected (some known) file = []

module _ (config : Config) where
  open config.date_time_format use {strftime, strptime}

  unfoldable pub get_cursor_key_from_file : Option RemoteFile → Text
  get_cursor_key_from_file none = zero_cursor_value
  get_cursor_key_from_file (some file) = join underscore (strftime file.last_modified) file.uri

  abbrev pub parse_cursor : Option (Text × Text) → Result (ℕ × Text)
  parse_cursor none = raise value_error
  parse_cursor (some (cursor_dt, cursor_uri)) = strptime cursor_dt >>= λ t. ok (t, cursor_uri)

  -- The value is `none` where the state is missing or has no key.
  unfoldable pub compute_prev_sync_cursor : Option StreamState → History → Result (ℕ × Text)
  compute_prev_sync_cursor none history = ok (0, [])
  compute_prev_sync_cursor (some value) history =
      compute_earliest_file_in_history config history >>= λ earliest.
      let prev = prev_cursor_str value.cursor in
      let earliest_file_cursor_value = get_cursor_key_from_file earliest in
      parse_cursor (
        split_once underscore
          (if text_ltb earliest_file_cursor_value prev then earliest_file_cursor_value else prev))

  unfoldable pub init : ℕ → ℕ → Option StreamState → Result Cursor
  init days now stream_state = time_window_if_history_is_full days >>= λ time_window.
      compute_prev_sync_cursor stream_state (history_of stream_state) >>= λ prev_cursor_value.
      compute_start_time config now time_window (history_of stream_state) >>= λ sync_start.
      ok (record {
        time_window = time_window;
        pending_files = none;
        history = history_of stream_state;
        prev_cursor_value = prev_cursor_value;
        sync_start = sync_start;
      })

  unfoldable pub compute_latest_file_in_history : History → Result (Option RemoteFile)
  compute_latest_file_in_history [] = ok none
  compute_latest_file_in_history (entry ∷ history) =
      file_of config (least (λ e f. entry_ltb f e) entry history)

  abbrev pub cursor_value_of_history : History → Result Text
  cursor_value_of_history [] = ok (join underscore (strftime 0) [])
  cursor_value_of_history (entry ∷ history) =
      compute_latest_file_in_history (entry ∷ history) >>= λ latest.
      ok (get_cursor_key_from_file latest)

  unfoldable pub get_new_cursor_value : Option (Dict Text RemoteFile) → History → Result Text
  get_new_cursor_value none history = cursor_value_of_history history
  get_new_cursor_value (some []) history = cursor_value_of_history history
  get_new_cursor_value (some (entry ∷ pending)) history =
      ok (get_cursor_key_from_file (compute_earliest_pending_file (entry ∷ pending)))

  unfoldable pub get_state : Cursor → Result StreamState
  get_state c = get_new_cursor_value c.pending_files c.history >>= λ cursor.
      ok (record { history = some c.history; cursor = some cursor })

  -- The messages that were emitted, and the cursor or the exception that is left.
  unfoldable pub emit_state_message : Cursor → Result (List Message)
  emit_state_message c = get_state c >>= λ state. ok (state_message state ∷ [])

  abbrev pub add_pending :
      Option (Dict Text RemoteFile) → RemoteFile → Cursor → Result (Cursor × List Message)
  add_pending none file c = raise runtime_error
  add_pending (some pending) file c = add_to_history config file c.history >>= λ history.
      let c' : Cursor = record c {
        pending_files = some (delete pending file.uri);
        history = history;
      } in
      emit_state_message c' >>= λ messages.
      ok (c', unexpected (get pending file.uri) file ++ messages)

  unfoldable pub add_file : RemoteFile → Cursor → Result (Cursor × List Message)
  add_file file c = add_pending c.pending_files file c

  abbrev pub should_sync_unknown : Bool → Cursor → RemoteFile → Bool
  should_sync_unknown false c file = true
  should_sync_unknown true c file =
      if ltb c.prev_cursor_value.0 file.last_modified
      then true
      else if eqb file.last_modified c.prev_cursor_value.0
      then text_ltb c.prev_cursor_value.1 file.uri
      else leb c.sync_start file.last_modified

  -- A file that is older than in the history is warned of, and not synced.
  unfoldable pub should_sync_file : RemoteFile → Cursor → Result Bool
  should_sync_file file c = elim (get c.history file.uri) [
    | some time ↦ (strptime time >>= λ updated_at. ok (ltb updated_at file.last_modified))
    | none ↦ ok (should_sync_unknown (is_history_full config c.history) c file)
  ]

  unfoldable pub get_files_to_sync : List RemoteFile → Cursor → Generator RemoteFile
  get_files_to_sync [] c = nothing
  get_files_to_sync (file ∷ all_files) c =
      let rest = get_files_to_sync all_files c in
      run_then (should_sync_file file c) (λ to_sync. if to_sync then yield_then file rest else rest)
