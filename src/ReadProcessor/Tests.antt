-- ===== src/ReadProcessor/Tests.antt =====
-- Reads of two streams whose items come in a fixed order, through ReadProcessor.
use airbyte_python_cdk.Prelude.{
  ◌++◌, ℕ, ◌≡◌, refl, Bool, true, false, not, List, [], ◌∷◌, String, eqb, number_key, text_key, ◌≤◌,
  arith,
}
use airbyte_python_cdk.Python.Exceptions.{ok}
use airbyte_python_cdk.ReadProcessor.{
  Environment, Processor, stream_status, of_record, started, running, complete, QueueItem,
  partition_generation_completed, partition, partition_complete, record_read, init,
  start_next_partition_generator, handle_item, on_partition, on_record, observe_record,
  count_record, consume, on_partition_generation_completed, on_partition_complete_sentinel, close,
  closed_by, settle, is_done, on_stream_is_done, mark_done, start_first,
}
use airbyte_python_cdk.ReadProcessor.Counts.{count, finals}
use airbyte_python_cdk.Python.Dict
use airbyte_python_cdk.Python.Dict.{contains, add, discard}
use airbyte_python_cdk.ReadProcessor.Consume.{
  read, ended, blocked, consume_from_queue, submit_initial,
}
use airbyte_python_cdk.ReadProcessor.Consume.EmptyRecord.{read-empty_record}
use airbyte_python_cdk.ReadProcessor.Consume.Ending.{EndsOnce, read-EndsOnce}

-- Partitions are numbers of one stream; record 0 is empty; the world counts states to emit.
abbrev environment : Environment ℕ ℕ ℕ ℕ
environment = record {
  stream_of_partition = λ p. "users";
  stream_of_record = λ r. "users";
  is_record_message = λ r. true;
  is_truthy = λ r. not (eqb r 0);
  observe = λ w r. ok w;
  close_partition = λ w p. (ok tt, w);
  ensure_at_least_one_state_emitted = λ w name. (ok tt, w);
  log_slice = λ w p. w;
  consume_queue = λ w. ([], w);
}

abbrev items : List (QueueItem ℕ ℕ × Bool)
items =
    (partition 1, true)
    ∷ (record_read 5, true)
    ∷ (partition_generation_completed "users", false)
    ∷ (partition_complete 1 true, true)
    ∷ []

announcements :
    (read environment 1 ("users" ∷ []) 0 items).1.yielded
    ≡ stream_status "users" started
      ∷ stream_status "users" running
      ∷ of_record 5
      ∷ stream_status "users" complete
      ∷ []
unfolding read submit_initial consume_from_queue init start_next_partition_generator handle_item
    on_partition on_record observe_record count_record consume on_partition_generation_completed
    on_partition_complete_sentinel close closed_by settle is_done start_first Dict.get Dict.set
    contains add discard on_stream_is_done mark_done
announcements = refl

one_stream : (n : String) → count n ("users" ∷ []) ≤ 1
one_stream n = ground arith

read-EndsOnce_example :
    EndsOnce environment ("users" ∷ []) (read environment 1 ("users" ∷ []) 0 items)
unfolding submit_initial init start_next_partition_generator start_first Dict.get Dict.set contains
    handle_item on_partition
read-EndsOnce_example =
    read-EndsOnce environment 1 ("users" ∷ []) 0 items one_stream (refl, (refl, (refl, (refl, tt))))
      (refl, (tt, (tt, (tt, tt))))

-- A partition is running when the empty record comes.
abbrev before : List (QueueItem ℕ ℕ × Bool)
before = (partition 1, true) ∷ []

abbrev waiting : Processor ℕ ℕ ℕ ℕ
waiting = (read environment 1 ("users" ∷ []) 0 before).1

waits : read environment 1 ("users" ∷ []) 0 before ≡ (blocked, waiting)
unfolding read submit_initial consume_from_queue init start_next_partition_generator handle_item
    on_partition is_done start_first Dict.get Dict.set contains add
waits = refl

read-empty_record_example :
    (read environment 1 ("users" ∷ []) 0 (before ++ (record_read 0, false) ∷ items)
      ≡ (ended, waiting))
    × ((n : String) → contains waiting.done n ≡ false → finals n waiting.yielded ≡ 0)
unfolding submit_initial init start_next_partition_generator start_first contains
read-empty_record_example =
    read-empty_record environment 1 ("users" ∷ []) 0 before items 0 false waiting one_stream
      (refl, tt) (refl, tt) waits refl
