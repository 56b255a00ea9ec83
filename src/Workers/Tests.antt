-- ===== src/Workers/Tests.antt =====
-- A concurrent read of a stream of one partition, through Workers.
use airbyte_python_cdk.Prelude.{
  ℕ, ◌≤◌, ◌≡◌, refl, sym, if◌then◌else◌, ◌==◌, Bool-cases, inl, inr, true, Option, none, List, [],
  ◌∷◌, String, number_key, text_key, arith, All, drop,
}
use airbyte_python_cdk.Python.Exceptions.{Exception, ok}
use airbyte_python_cdk.ReadProcessor.{
  Environment, stream_status, of_record, started, running, complete, init,
  start_next_partition_generator, handle_item, on_partition, on_record, observe_record,
  count_record, consume, on_partition_generation_completed, on_partition_complete_sentinel, close,
  closed_by, settle, is_done, start_first, on_stream_is_done, mark_done,
}
use airbyte_python_cdk.ReadProcessor.Counts.{count}
use airbyte_python_cdk.Python.Dict
use airbyte_python_cdk.Python.Dict.{contains, add, discard}
use airbyte_python_cdk.ReadProcessor.Consume.{submit_initial}
use airbyte_python_cdk.ReadProcessor.Consume.Ending.{EndsOnce}
use airbyte_python_cdk.Workers.{
  Sources, System, left, Choice, start, handle, check, work, perform, perform_all, begin, put_next,
  outputs,
}
use airbyte_python_cdk.ReadProcessor.Consume.{ended}
use airbyte_python_cdk.Workers.Safety.{outcome_of, perform_all-EndsOnce}

abbrev environment : Environment ℕ ℕ ℕ ℕ
environment = record {
  stream_of_partition = λ p. "users";
  stream_of_record = λ r. "users";
  is_record_message = λ r. true;
  is_truthy = λ r. true;
  observe = λ w r. ok w;
  close_partition = λ w p. (ok tt, w);
  ensure_at_least_one_state_emitted = λ w name. (ok tt, w);
  log_slice = λ w p. w;
  consume_queue = λ w. ([], w);
}

-- The stream has one partition, with one record.
abbrev one_partition : Sources ℕ ℕ
one_partition = record { generated = generated; records = λ p. (5 ∷ [], none) }
  where
    generated : String → List ℕ × Option Exception
    generated name = if name == "users" then (1 ∷ [], none) else ([], none)

-- The partition is read before the main thread handles the end of its generation.
abbrev choices : List Choice
choices =
    start
    ∷ work 0
    ∷ work 0
    ∷ handle
    ∷ check
    ∷ start
    ∷ work 1
    ∷ work 1
    ∷ handle
    ∷ check
    ∷ handle
    ∷ check
    ∷ handle
    ∷ check
    ∷ []

one_stream : (n : String) → count n ("users" ∷ []) ≤ 1
one_stream n = ground arith

own_partitions :
    (name : String)
    → All (λ p. environment.stream_of_partition p ≡ name) (one_partition.generated name).0
own_partitions name = elim (Bool-cases (name == "users")) [
  | inl same ↦ rw same ((sym ((text_key.same_iff name "users").0 same), tt))
  | inr other ↦ rw other tt
]

abbrev whole : System ℕ ℕ ℕ ℕ
whole =
    perform_all environment one_partition choices
      (begin environment one_partition 1 ("users" ∷ []) 0)

announcements :
    (whole.main ≡ left ended)
    × (whole.processor.yielded
        ≡ stream_status "users" started
          ∷ stream_status "users" running
          ∷ of_record 5
          ∷ stream_status "users" complete
          ∷ [])
unfolding perform_all perform begin put_next outputs submit_initial init
    start_next_partition_generator handle_item on_partition on_record observe_record count_record
    consume on_partition_generation_completed on_partition_complete_sentinel close closed_by settle
    is_done start_first Dict.get Dict.set contains add discard on_stream_is_done mark_done drop
announcements = (refl, refl)

perform_all-EndsOnce_example :
    EndsOnce environment ("users" ∷ []) (outcome_of whole.main, whole.processor)
perform_all-EndsOnce_example =
    perform_all-EndsOnce environment one_partition 1 ("users" ∷ []) 0 choices one_stream
      own_partitions (λ r. refl)
