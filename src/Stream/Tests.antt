-- ===== src/Stream/Tests.antt =====
-- Reads of a stream of two slices with Stream.
use airbyte_python_cdk.Prelude.{
  ℕ, ◌+◌, ◌≤◌, ◌≡◌, refl, true, false, Option, none, some, [], ◌∷◌, number_key, arith,
}
use airbyte_python_cdk.CheckpointReader.{
  IncrementalReader, next_incremental, observe_incremental, incremental_checkpoint,
  FullRefreshReader, next_full_refresh, full_refresh_checkpoint,
}
use airbyte_python_cdk.Stream.{
  record_data, record_message, other_message, Stream, data_read, state_message, ended, read,
  read_slices, read_items, on_record, track, observe_state, checkpoint_slice, final_checkpoint,
}
use airbyte_python_cdk.Stream.Readers.{
  incremental_reader, full_refresh_reader, full_refresh_reader-Feeds,
}
use airbyte_python_cdk.Stream.Data.{data_of, all_data, read-AllData}
use airbyte_python_cdk.Stream.Limit.{count_records, read-count_records}

-- The slices are numbers, with two records and a message each; the state is the last record.
abbrev stream : Option ℕ → Stream ℕ ℕ ℕ ℕ ℕ
stream limit = record {
  read_records = λ w s. record {
    items =
        (record_data (s + 1), s + 1)
        ∷ (other_message 0, s + 1)
        ∷ (record_message (s + 2), s + 2)
        ∷ [];
    raised = none;
    after = s + 2;
  };
  has_cursor_field = true;
  get_updated_state = none;
  state = λ w. some w;
  empty_state = 0;
  state_checkpoint_interval = none;
  should_checkpoint = true;
  should_log_slice_message = false;
  limit = limit;
}

abbrev incremental : IncrementalReader ℕ ℕ
incremental = record { state = some 0; stream_slices = 10 ∷ 20 ∷ []; has_slices = false }

abbrev full_refresh : FullRefreshReader ℕ
full_refresh = record { stream_slices = 10 ∷ 20 ∷ []; final_checkpoint = false }

-- A state follows each slice, and none follows the last one's.
incremental-read : read incremental_reader (stream none) 3 0 incremental 0 ≡ (
  data_read (record_data 11)
      ∷ data_read (other_message 0)
      ∷ data_read (record_message 12)
      ∷ state_message 12
      ∷ data_read (record_data 21)
      ∷ data_read (other_message 0)
      ∷ data_read (record_message 22)
      ∷ state_message 22
      ∷ [],
  ended,
)
unfolding read read_slices read_items on_record track observe_state checkpoint_slice
    final_checkpoint next_incremental observe_incremental incremental_checkpoint
incremental-read = refl

-- With a limit of one record, each slice yields one.
limited_read :
    read (full_refresh_reader 99) (stream (some 1)) 3 0 full_refresh 0
    ≡ (data_read (record_data 11) ∷ data_read (record_data 21) ∷ state_message 99 ∷ [], ended)
unfolding read read_slices read_items on_record track observe_state checkpoint_slice
    final_checkpoint next_full_refresh full_refresh_checkpoint
limited_read = refl

read-AllData_example :
    ((read (full_refresh_reader 99) (stream none) 3 0 full_refresh 0).1 ≡ ended)
    × (data_of (read (full_refresh_reader 99) (stream none) 3 0 full_refresh 0).0
        ≡ all_data
            (full_refresh_reader 99)
            (stream none)
            (full_refresh_reader-Feeds 99)
            0
            (10 ∷ 20 ∷ []))
unfolding full_refresh_reader-Feeds
read-AllData_example =
    read-AllData (full_refresh_reader 99) (stream none) (full_refresh_reader-Feeds 99) refl
      (λ w s. refl) 0 full_refresh 0

read-count_records_example :
    count_records (read (full_refresh_reader 99) (stream (some 1)) 3 0 full_refresh 0).0 ≤ 2
unfolding full_refresh_reader-Feeds
read-count_records_example =
    read-count_records (full_refresh_reader 99) (stream (some 1)) (full_refresh_reader-Feeds 99) 1
      refl (omega arith) 3 0 full_refresh 0
