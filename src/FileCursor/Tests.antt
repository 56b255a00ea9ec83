-- ===== src/FileCursor/Tests.antt =====
-- Tests of FileCursor, and its theorems at inputs.
use airbyte_python_cdk.Prelude.{
  ℕ, zero, suc, ◌≡◌, refl, ap, true, false, none, some, [], ◌∷◌, ◌++◌, length, All, eqb, filter,
  arith,
}
use airbyte_python_cdk.Python.Exceptions.{ok}
use airbyte_python_cdk.Python.Dict.{Dict, delete, get}
use airbyte_python_cdk.Python.Extremes.{least}
use airbyte_python_cdk.Python.Generators.{returned}
use airbyte_python_cdk.Python.Text.{Text, code_key, text_ltb, text_eq}
use airbyte_python_cdk.FileCursor.{
  RemoteFile, Config, History, is_history_full, time_window_if_history_is_full,
  compute_earliest_file_in_history, entry_ltb,
}
use airbyte_python_cdk.FileCursor.Default
use airbyte_python_cdk.FileCursor.Concurrent
use airbyte_python_cdk.FileCursor.Concurrent.{
  state_message, unexpected, get_cursor_key_from_file, StreamState,
}
use airbyte_python_cdk.FileCursor.Eviction.{IsWithin, IsAdded}
use airbyte_python_cdk.FileCursor.Resync.{
  add_file-IsAdded, add_files, is_new, get_files_to_sync-add_files,
}
use airbyte_python_cdk.FileCursor.Pending.{IsCursorOf, add_file-IsCursorOf}
use airbyte_python_cdk.FileCursor.Restart.{pending_file-skipped}

-- A time is written as so many tildes: a later time is a greater text, also before an underscore.
abbrev tildes : ℕ → Text
tildes zero = []
tildes (suc n) = 126 ∷ tildes n

length-tildes : (n : ℕ) → ok (length (tildes n)) ≡ ok n
length-tildes zero = refl
length-tildes (suc n) = ap ok (ap suc (length_of n))
  where
    length_of : (k : ℕ) → length (tildes k) ≡ k
    length_of zero = refl
    length_of (suc k) = ap suc (length_of k)

tildes-no_underscore : (n : ℕ) → All (λ c. eqb c Concurrent.underscore ≡ false) (tildes n)
tildes-no_underscore zero = tt
tildes-no_underscore (suc n) = (refl, tildes-no_underscore n)

abbrev two_files : Config
two_files = record {
  date_time_format = record { strftime = tildes; strptime = λ s. ok (length s) };
  max_history_size = 2;
}

abbrev file : ℕ → ℕ → RemoteFile
file name t = record { uri = name ∷ []; last_modified = t }

abbrev full : History
full = (97 ∷ [], tildes 3) ∷ (98 ∷ [], tildes 4) ∷ []

abbrev cursor : Default.Cursor
cursor = record {
  history = full;
  time_window = 1;
  start_time = 0;
  initial_earliest_file_in_history = none;
}

full-IsWithin : IsWithin two_files length-tildes full
full-IsWithin = record { bounded = omega arith; parses = ((3, refl), ((4, refl), tt)) }

add_file-IsAdded_example :
    (history : History) × (Default.add_file two_files (file 99 5) cursor
      ≡ ok (record cursor { history = history }))
    × IsWithin two_files length-tildes history
    × IsAdded two_files length-tildes (file 99 5) full history
add_file-IsAdded_example = add_file-IsAdded two_files length-tildes (file 99 5) cursor full-IsWithin

get_files_to_sync-add_files_example :
    (c' : Default.Cursor) × (add_files two_files (file 97 3 ∷ []) (record cursor { history = [] })
      ≡ ok c')
    × (Default.get_files_to_sync two_files (file 97 3 ∷ file 97 4 ∷ file 98 1 ∷ []) c' ≡ record {
      items = filter (is_new (file 97 3 ∷ [])) (file 97 3 ∷ file 97 4 ∷ file 98 1 ∷ []);
      outcome = returned;
    })
get_files_to_sync-add_files_example =
    get_files_to_sync-add_files two_files length-tildes (file 97 3 ∷ [])
      (file 97 3 ∷ file 97 4 ∷ file 98 1 ∷ []) (record cursor { history = [] }) refl (omega arith)

new_files :
    filter (is_new (file 97 3 ∷ [])) (file 97 3 ∷ file 97 4 ∷ file 98 1 ∷ [])
    ≡ file 97 4 ∷ file 98 1 ∷ []
unfolding text_eq
new_files = refl

abbrev pending : Dict Text RemoteFile
pending = (99 ∷ [], file 99 2) ∷ (100 ∷ [], file 100 5) ∷ []

abbrev concurrent : Concurrent.Cursor
concurrent = record {
  time_window = 1;
  pending_files = some pending;
  history = full;
  prev_cursor_value = (0, []);
  sync_start = 0;
}

add_file-IsCursorOf_example :
    (history : History) × (value : Text) × (Concurrent.add_file two_files (file 100 5) concurrent
      ≡ ok (
        record concurrent { pending_files = some (delete pending (100 ∷ [])); history = history },
        unexpected (get pending (100 ∷ [])) (file 100 5)
            ++ (state_message (record { history = some history; cursor = some value }) ∷ []),
      ))
    × IsWithin two_files length-tildes history
    × IsAdded two_files length-tildes (file 100 5) full history
    × IsCursorOf two_files length-tildes (delete pending (100 ∷ [])) history value
add_file-IsCursorOf_example =
    add_file-IsCursorOf two_files length-tildes (file 100 5) concurrent pending refl full-IsWithin

-- Of the two pending files the older one is that with the name 99.
oldest_pending :
    (least Concurrent.modified_ltb (99 ∷ [], file 99 2) ((100 ∷ [], file 100 5) ∷ [])).1 ≡ file 99 2
unfolding least
oldest_pending = refl

unknown : get full (99 ∷ []) ≡ none
unfolding get text_eq
unknown = refl

is_full : is_history_full two_files full ≡ true
unfolding is_history_full
is_full = refl

earliest : compute_earliest_file_in_history two_files full ≡ ok (some (file 97 3))
unfolding compute_earliest_file_in_history least entry_ltb text_ltb text_eq
earliest = refl

one_day : time_window_if_history_is_full 1 ≡ ok 86400000000
unfolding time_window_if_history_is_full
one_day = refl

older :
    text_ltb
      (get_cursor_key_from_file two_files (some (file 97 3)))
      (get_cursor_key_from_file two_files (some (file 99 2)))
    ≡ false
unfolding text_ltb get_cursor_key_from_file
older = refl

pending_file-skipped_example :
    (state : StreamState) × (Concurrent.get_state two_files concurrent ≡ ok state)
    × (c' : Concurrent.Cursor) × (Concurrent.init two_files 1 90000000000 (some state) ≡ ok c')
    × (Concurrent.should_sync_file two_files (file 99 2) c' ≡ ok false)
pending_file-skipped_example =
    pending_file-skipped two_files length-tildes tildes-no_underscore (file 99 2) (file 97 3)
      concurrent (99 ∷ [], file 99 2) ((100 ∷ [], file 100 5) ∷ []) 1 86400000000 90000000000 refl
      oldest_pending unknown is_full full-IsWithin.parses earliest older one_day (omega arith)
