-- ===== src/FileCursor/Restart.antt =====
-- What becomes of a file that is pending when a sync with FileCursor.Concurrent stops.
use airbyte_python_cdk.Prelude.{
  ℕ, ◌-◌, ◌≤◌, ◌≡◌, refl, true, false, none, some, [], ◌∷◌, ltb, eqb, All, All-lookup, arith, min,
  Bool-cases, inl, inr,
}
use airbyte_python_cdk.Python.Exceptions.{ok}
use airbyte_python_cdk.Python.Dict.{Dict, get}
use airbyte_python_cdk.Python.Text.{
  Text, text_ltb, text_ltb_irrefl, code_key, join, split_once-append,
}
use airbyte_python_cdk.Python.Extremes.{least, least-Any}
use airbyte_python_cdk.FileCursor.{
  RemoteFile, Config, History, compute_start_time, is_history_full, time_window_if_history_is_full,
  compute_earliest_file_in_history, times,
}
use airbyte_python_cdk.FileCursor.Concurrent.{
  Cursor, StreamState, get_cursor_key_from_file, get_new_cursor_value, compute_prev_sync_cursor,
  underscore, compute_earliest_pending_file, get_state, init, should_sync_file, prev_cursor_str,
  modified_ltb,
}
use airbyte_python_cdk.FileCursor.Eviction.{Parses}

module _ (config : Config)
    (strptime-strftime : (t : ℕ)
      → config.date_time_format.strptime (config.date_time_format.strftime t) ≡ ok t)
    (no_underscore : (t : ℕ)
      → All (λ c. eqb c underscore ≡ false) (config.date_time_format.strftime t)) where
  open config.date_time_format use {strftime, strptime}

  abbrev TimeParses : Text → Type 0
  TimeParses time = (t : ℕ) × (strptime time ≡ ok t)

  All-times :
      (history : History)
      → All (Parses config strptime-strftime) history
      → All TimeParses (times config history)
  All-times [] parses = tt
  All-times (entry ∷ history) parses = (parses.0, All-times history parses.1)

  -- The start of a sync can be computed from a history that can be read.
  compute_start_time_total :
      (now time_window : ℕ) (history : History)
      → time_window ≤ now
      → All (Parses config strptime-strftime) history
      → (start : ℕ) × (compute_start_time config now time_window history ≡ ok start)
  unfolding compute_start_time
  compute_start_time_total now time_window [] early parses = (0, refl)
  compute_start_time_total now time_window ((uri, time) ∷ history) early parses =
      let earliest = least text_ltb time (times config history) in
      let (t, parsed) =
        All-lookup TimeParses earliest (time ∷ times config history)
          (All-times ((uri, time) ∷ history) parses)
          (least-Any text_ltb time (times config history)) in
      let present : ltb now time_window ≡ false = ground arith in
      elim (Bool-cases (is_history_full config ((uri, time) ∷ history))) [
        | inl full ↦ rw (parsed, full, present) (min t (now - time_window), refl)
        | inr partial ↦ rw (parsed, partial) (t, refl)
      ]

  prev_cursor_str-join :
      (s uri : Text) → prev_cursor_str (some (join underscore s uri)) ≡ join underscore s uri
  prev_cursor_str-join [] uri = refl
  prev_cursor_str-join (c ∷ s) uri = refl

  -- The cursor value of a file is read back as the time and the name of the file.
  compute_prev_sync_cursor_lem :
      (file earliest : RemoteFile) (history : History)
      → compute_earliest_file_in_history config history ≡ ok (some earliest)
      → text_ltb
          (get_cursor_key_from_file config (some earliest))
          (get_cursor_key_from_file config (some file))
        ≡ false
      → compute_prev_sync_cursor config
          (some (record {
            history = some history;
            cursor = some (get_cursor_key_from_file config (some file));
          }))
          history
        ≡ ok (file.last_modified, file.uri)
  unfolding compute_prev_sync_cursor get_cursor_key_from_file
  compute_prev_sync_cursor_lem file earliest history e older =
      rw
        (
          e,
          prev_cursor_str-join (strftime file.last_modified) file.uri,
          older,
          split_once-append underscore (strftime file.last_modified) file.uri
              (no_underscore file.last_modified),
          strptime-strftime file.last_modified,
        )
        refl

  -- Of the pending files, a file is the one that the cursor value of the state stands for; it is not in the
  -- history, which is full and can be read, and its cursor value is not greater than that of the earliest
  -- file of the history. Then the state of the cursor can be made and a cursor can start from it, if the
  -- time window has passed since the least time, and that cursor, as it starts, does not give the file.
  pub pending_file-skipped :
      (file earliest : RemoteFile) (c : Cursor) (entry : Text × RemoteFile)
      (pending : Dict Text RemoteFile) (days time_window now : ℕ)
      → c.pending_files ≡ some (entry ∷ pending)
      → (least modified_ltb entry pending).1 ≡ file
      → get c.history file.uri ≡ none
      → is_history_full config c.history ≡ true
      → All (Parses config strptime-strftime) c.history
      → compute_earliest_file_in_history config c.history ≡ ok (some earliest)
      → text_ltb
          (get_cursor_key_from_file config (some earliest))
          (get_cursor_key_from_file config (some file))
        ≡ false
      → time_window_if_history_is_full days ≡ ok time_window
      → time_window ≤ now
      → (state : StreamState) × (get_state config c ≡ ok state)
        × (c' : Cursor) × (init config days now (some state) ≡ ok c')
        × (should_sync_file config file c' ≡ ok false)
  unfolding get_state get_new_cursor_value compute_earliest_pending_file init should_sync_file
  pending_file-skipped file earliest c entry pending days time_window now has_pending oldest unknown
        full parses e older window early =
      let (start, started) = compute_start_time_total now time_window c.history early parses in
      let prev = compute_prev_sync_cursor_lem file earliest c.history e older in
      let same : ltb file.last_modified file.last_modified ≡ false = ground arith in
      let equal : eqb file.last_modified file.last_modified ≡ true = ground arith in
      (
        record {
          history = some c.history;
          cursor = some (get_cursor_key_from_file config (some file));
        },
        rw (has_pending, oldest) refl,
        record {
          time_window = time_window;
          pending_files = none;
          history = c.history;
          prev_cursor_value = (file.last_modified, file.uri);
          sync_start = start;
        },
        rw (window, prev, started) refl,
        rw (unknown, should_sync_file, full, same, equal, text_ltb_irrefl file.uri) refl,
      )
