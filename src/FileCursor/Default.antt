-- ===== src/FileCursor/Default.antt =====
-- airbyte_cdk/sources/file_based/stream/cursor/default_file_based_cursor.py and the slices that
-- default_file_based_stream.py makes of the files to sync.
use airbyte_python_cdk.Prelude.{
  ℕ, Bool, true, false, Option, none, some, List, [], ◌∷◌, if◌then◌else◌, ltb, leb, eqb, ◌&&◌, ◌||◌,
}
use airbyte_python_cdk.Python.Exceptions.{Result, ok, ◌>>=◌}
use airbyte_python_cdk.Python.Dict.{get}
use airbyte_python_cdk.Python.Generators.{Generator, nothing, run_then, yield_then}
use airbyte_python_cdk.Python.Sorting.{sorted}
use airbyte_python_cdk.Python.Text.{Text, text_ltb, text_eq, code_key}
use airbyte_python_cdk.Python.Extremes.{least}
use airbyte_python_cdk.FileCursor.{
  RemoteFile, Config, History, entry_ltb, compute_earliest_file_in_history, is_history_full,
  add_to_history, compute_start_time, time_window_if_history_is_full,
}

pub record Cursor : Type 0 where
  pub history : History
  pub time_window : ℕ
  pub start_time : ℕ
  pub initial_earliest_file_in_history : Option RemoteFile

-- What `get_state` gives: the history and the value of CURSOR_FIELD, a time and a name joined by "_".
pub record State : Type 0 where
  pub history : History
  pub cursor : Option (Text × Text)

module _ (config : Config) where
  open config.date_time_format use {strptime}

  -- `__init__`, with the days of the configuration; a positive time window is never refused.
  unfoldable pub init : ℕ → Result Cursor
  init days = time_window_if_history_is_full days >>= λ time_window. ok (record {
    history = [];
    time_window = time_window;
    start_time = 0;
    initial_earliest_file_in_history = none;
  })

  -- With the value under the key "history", at a time.
  unfoldable pub set_initial_state : Option History → ℕ → Cursor → Result Cursor
  set_initial_state value now c =
      let history : History = elim value [ none ↦ [] | some history ↦ history ] in
      compute_start_time config now c.time_window history >>= λ start_time.
      compute_earliest_file_in_history config history >>= λ earliest. ok (record c {
        history = history;
        start_time = start_time;
        initial_earliest_file_in_history = earliest;
      })

  unfoldable pub add_file : RemoteFile → Cursor → Result Cursor
  add_file file c =
      add_to_history config file c.history >>= λ history. ok (record c { history = history })

  unfoldable pub get_cursor : History → Option (Text × Text)
  get_cursor [] = none
  get_cursor (entry ∷ history) =
      let (filename, timestamp) = least (λ e f. entry_ltb f e) entry history in
      some (timestamp, filename)

  unfoldable pub get_state : Cursor → State
  get_state c = record { history = c.history; cursor = get_cursor c.history }

  -- A file that is not in the history.
  abbrev pub should_sync_unknown : Bool → Option RemoteFile → ℕ → RemoteFile → Bool
  should_sync_unknown false earliest start_time file = true
  should_sync_unknown true none start_time file = true
  should_sync_unknown true (some earliest) start_time file =
      if ltb earliest.last_modified file.last_modified
      then true
      else if eqb file.last_modified earliest.last_modified
      then text_ltb earliest.uri file.uri
      else leb start_time file.last_modified

  unfoldable pub should_sync_file : RemoteFile → Cursor → Result Bool
  should_sync_file file c = elim (get c.history file.uri) [
    | some time ↦ (strptime time >>= λ updated_at. ok (ltb updated_at file.last_modified))
    | none ↦ ok (
        should_sync_unknown (is_history_full config c.history) c.initial_earliest_file_in_history
          c.start_time file)
  ]

  unfoldable pub get_files_to_sync : List RemoteFile → Cursor → Generator RemoteFile
  get_files_to_sync [] c = nothing
  get_files_to_sync (file ∷ all_files) c =
      let rest = get_files_to_sync all_files c in
      run_then (should_sync_file file c) (λ to_sync. if to_sync then yield_then file rest else rest)

-- `f.last_modified, f.uri` of a file come before another's, or are the same.
abbrev pub file_leb : RemoteFile → RemoteFile → Bool
file_leb f g =
    ltb f.last_modified g.last_modified
    || (eqb f.last_modified g.last_modified && (text_ltb f.uri g.uri || text_eq f.uri g.uri))

abbrev pub put : RemoteFile → List (List RemoteFile) → List (List RemoteFile)
put file [] = (file ∷ []) ∷ []
put file ([] ∷ groups) = (file ∷ []) ∷ groups
put file ((g ∷ group) ∷ groups) =
    if eqb file.last_modified g.last_modified
    then (file ∷ g ∷ group) ∷ groups
    else (file ∷ []) ∷ (g ∷ group) ∷ groups

-- `itertools.groupby` by the time of the last modification
unfoldable pub groupby : List RemoteFile → List (List RemoteFile)
groupby [] = []
groupby (file ∷ files) = put file (groupby files)

-- The slices of the files that a cursor gives.
unfoldable pub compute_slices : List RemoteFile → List (List RemoteFile)
unfolding groupby
compute_slices files_to_read = groupby (sorted file_leb files_to_read)
