-- ===== src/Workers.antt =====
-- The threads of a concurrent read: airbyte_cdk/sources/streams/concurrent/partition_enqueuer.py and
-- partition_reader.py put items into the queue that the main thread of ReadProcessor handles. The
-- steps of all threads come in any order, which is a list of choices. A thread that waits, for the
-- pool or for room in the queue, is one that is chosen later.
pub mod Pending
pub mod Invariant
pub mod Safety
mod Tests
use airbyte_python_cdk.Prelude.{
  ℕ, zero, suc, Bool, true, false, Option, none, some, List, [], ◌∷◌, ◌++◌, String, map,
  if◌then◌else◌, ◌&&◌, Hashable, length, drop,
}
use airbyte_python_cdk.Python.Exceptions.{Exception, Result, ok, raise}
use airbyte_python_cdk.ReadProcessor.{
  Environment, QueueItem, thread_exception, partition_generation_completed, partition,
  partition_complete, record_read, Task, generate_partitions, process_partition, Processor, init,
  is_done, is_empty, handle_item,
}
use airbyte_python_cdk.ReadProcessor.Consume.{
  Outcome, ended, failed, submit_initial, is_truthy_item,
}

-- What a stream's partition generator and a partition's `read` give, before they end or raise.
pub record Sources (P R : Type 0) : Type 0 where
  pub generated : String → List P × Option Exception
  pub records : P → List R × Option Exception

-- The main thread takes an item, checks whether it is done, or has left its loop.
pub data Main : Type 0 where
  waiting checking : Main
  left : Outcome → Main

-- `workers` is what each running task has still to put, `tasks` the submitted ones that wait.
pub record System (W P R M : Type 0) : Type 0 where
  pub processor : Processor W P R M
  pub queue : List (QueueItem P R)
  pub workers : List (List (QueueItem P R))
  pub tasks : List (Task P)
  pub main : Main

-- A step of the pool, of a worker, or of the main thread.
pub data Choice : Type 0 where
  start handle check : Choice
  work : ℕ → Choice

-- A worker puts its next item: what is put, and what the workers have left.
unfoldable pub put_next : {A : Type 0} → ℕ → List (List A) → List A × List (List A)
put_next i [] = ([], [])
put_next zero ([] ∷ workers) = ([], [] ∷ workers)
put_next zero ((item ∷ items) ∷ workers) = (item ∷ [], items ∷ workers)
put_next (suc i) (worker ∷ workers) =
    let (items, workers') = put_next i workers in (items, worker ∷ workers')

abbrev pub end_generation : {P R : Type 0} → String → Option Exception → List (QueueItem P R)
end_generation name none = partition_generation_completed name ∷ []
end_generation name (some x) = thread_exception name x ∷ partition_generation_completed name ∷ []

abbrev pub after_result : Result (Unit {0}) → Main
after_result (ok _) = checking
after_result (raise x) = left (failed x)

-- `is_done() and queue.empty()`
abbrev pub after_check : Result Bool → Bool → Main
after_check (raise x) empty = left (failed x)
after_check (ok done) empty = if done && empty then left ended else waiting

module _ {W P R M : Type 0} ⦃key : Hashable P⦄ (environment : Environment W P R M)
    (sources : Sources P R) where
  open environment use {stream_of_partition}
  open sources use {generated, records}

  abbrev pub end_partition : P → Option Exception → List (QueueItem P R)
  end_partition p none = partition_complete p true ∷ []
  end_partition p (some x) =
      thread_exception (stream_of_partition p) x ∷ partition_complete p false ∷ []

  -- What the task of a PartitionEnqueuer or of a PartitionReader puts into the queue.
  unfoldable pub outputs : Task P → List (QueueItem P R)
  outputs (generate_partitions name) =
      map partition (generated name).0 ++ end_generation name (generated name).1
  outputs (process_partition p) = map record_read (records p).0 ++ end_partition p (records p).1

  -- The pool starts the task that waits longest.
  abbrev pub start_task : List (Task P) → System W P R M → System W P R M
  start_task [] sys = sys
  start_task (task ∷ tasks) sys = record sys {
    workers = sys.workers ++ outputs task ∷ [];
    tasks = tasks;
  }

  abbrev pub put_item : ℕ → System W P R M → System W P R M
  put_item i sys =
      let (items, workers) = put_next i sys.workers in
      record sys { queue = sys.queue ++ items; workers = workers }

  -- The main thread handles an item, and the pool has the tasks that it submits.
  abbrev pub handled :
      List (QueueItem P R) → Result (Unit {0}) × Processor W P R M → System W P R M → System W P R M
  handled queue (result, s') sys = record {
    processor = s';
    queue = queue;
    workers = sys.workers;
    tasks = sys.tasks ++ drop (length sys.processor.submitted) s'.submitted;
    main = after_result result;
  }

  abbrev pub take_item : List (QueueItem P R) → System W P R M → System W P R M
  take_item [] sys = sys
  take_item (item ∷ queue) sys =
      if is_truthy_item environment item
      then handled queue (handle_item environment item sys.processor) sys
      else record sys { queue = queue; main = left ended }

  abbrev pub handle_next : Main → System W P R M → System W P R M
  handle_next waiting sys = take_item sys.queue sys
  handle_next checking sys = sys
  handle_next (left outcome) sys = sys

  abbrev pub check_done : Main → System W P R M → System W P R M
  check_done checking sys = record sys {
    main = after_check (is_done sys.processor) (is_empty sys.queue);
  }
  check_done waiting sys = sys
  check_done (left outcome) sys = sys

  unfoldable pub perform : Choice → System W P R M → System W P R M
  perform start sys = start_task sys.tasks sys
  perform (work i) sys = put_item i sys
  perform handle sys = handle_next sys.main sys
  perform check sys = check_done sys.main sys

  unfoldable pub perform_all : List Choice → System W P R M → System W P R M
  perform_all [] sys = sys
  perform_all (choice ∷ choices) sys = perform_all choices (perform choice sys)

  -- A read before the first item is taken.
  unfoldable pub begin : ℕ → List String → W → System W P R M
  begin initial streams world =
      let s = submit_initial initial (init streams world) in
      record { processor = s; queue = []; workers = []; tasks = s.submitted; main = waiting }
