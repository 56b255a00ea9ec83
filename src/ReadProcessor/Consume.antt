-- ===== src/ReadProcessor/Consume.antt =====
-- `read` of airbyte_cdk/sources/concurrent_source/concurrent_source.py: the loop over the queue.
-- An item comes with what `queue.empty()` says after it was handled.
pub mod Ending
pub mod EmptyRecord
use airbyte_python_cdk.Prelude.{
  ℕ, zero, suc, Bool, true, false, List, [], ◌∷◌, String, if◌then◌else◌, ◌&&◌, Hashable,
}
use airbyte_python_cdk.Python.Exceptions.{Exception, Result, ok, raise}
use airbyte_python_cdk.ReadProcessor.{
  Environment, QueueItem, thread_exception, partition_generation_completed, partition,
  partition_complete, record_read, Processor, init, start_next_partition_generator, is_done,
  handle_item,
}

-- How the loop leaves off; `blocked` waits for an item that never comes.
pub data Outcome : Type 0 where
  ended blocked : Outcome
  failed : Exception → Outcome

-- `_submit_initial_partition_generators`
unfoldable pub submit_initial : {W P R M : Type 0} → ℕ → Processor W P R M → Processor W P R M
submit_initial zero s = s
submit_initial (suc n) s = submit_initial n (start_next_partition_generator s)

module _ {W P R M : Type 0} ⦃key : Hashable P⦄ (environment : Environment W P R M) where
  -- The truth value of an item: a Record is a Mapping, the other items are plain objects.
  abbrev pub is_truthy_item : QueueItem P R → Bool
  is_truthy_item (thread_exception name x) = true
  is_truthy_item (partition_generation_completed name) = true
  is_truthy_item (partition p) = true
  is_truthy_item (partition_complete p is_successful) = true
  is_truthy_item (record_read r) = environment.is_truthy r

  abbrev pub unless_done :
      Result Bool
      → Bool
      → Processor W P R M
      → Outcome × Processor W P R M
      → Outcome × Processor W P R M
  unless_done (raise x) empty s ahead = (failed x, s)
  unless_done (ok finished) empty s ahead = if finished && empty then (ended, s) else ahead

  abbrev pub after_item :
      Result (Unit {0})
      → Bool
      → Processor W P R M
      → Outcome × Processor W P R M
      → Outcome × Processor W P R M
  after_item (raise x) empty s ahead = (failed x, s)
  after_item (ok _) empty s ahead = unless_done (is_done s) empty s ahead

  unfoldable pub consume_from_queue :
      List (QueueItem P R × Bool) → Processor W P R M → Outcome × Processor W P R M
  consume_from_queue [] s = (blocked, s)
  consume_from_queue ((item, empty) ∷ rest) s =
      let (result, s') = handle_item environment item s in
      let ahead = consume_from_queue rest s' in
      if is_truthy_item item then after_item result empty s' ahead else (ended, s)

  unfoldable pub read :
      ℕ → List String → W → List (QueueItem P R × Bool) → Outcome × Processor W P R M
  read initial streams world items =
      consume_from_queue items (submit_initial initial (init streams world))
