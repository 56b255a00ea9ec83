-- ===== src/Workers/Invariant.antt =====
-- What stays true of a concurrent read whichever thread steps.
use airbyte_python_cdk.Prelude.{
  ℕ, ◌+◌, ◌≡◌, refl, ap, ◌∙◌, subst, Bool, true, false, List, [], ◌∷◌, ◌++◌, String, text_key,
  Hashable, length, drop, All, ◌==◌, arith, drop-append,
}
use airbyte_python_cdk.Python.Exceptions.{Result, ok, raise}
use airbyte_python_cdk.ReadProcessor.{
  Environment, QueueItem, thread_exception, partition_generation_completed, partition,
  partition_complete, record_read, Task, Processor, is_done, is_empty, handle_item,
}
use airbyte_python_cdk.ReadProcessor.Counts.{indicator, count, count-contains, ==_refl}
use airbyte_python_cdk.ReadProcessor.Invariant.{IsOrderly}
use airbyte_python_cdk.ReadProcessor.Lifecycle.{IsExpected, handle_item-IsOrderly}
use airbyte_python_cdk.ReadProcessor.Progress.{
  completion, task_completion, task_completions, task_completions-append, IsAwaited,
  handle_item-Handles,
}
use airbyte_python_cdk.ReadProcessor.Consume.{ended, is_truthy_item}
use airbyte_python_cdk.ReadProcessor.Consume.Ending.{IsFinished}
use airbyte_python_cdk.Workers.{
  Sources, System, Main, waiting, checking, left, Choice, start, handle, check, work, put_next,
  outputs, start_task, put_item, handled, take_item, handle_next, check_done, perform, after_result,
  after_check,
}
use airbyte_python_cdk.Workers.Pending.{
  completions, worker_completions, completions-append, worker_completions-append,
  put_next-completions, Covered, Covered-le, Covered-append, nowhere, put_next-Covered,
  outputs-completions, outputs-Covered,
}

not_ended : (result : Result (Unit {0})) → after_result result ≡ left ended → ⊥
not_ended (ok _) e = cc
not_ended (raise x) e = cc

module _ {W P R M : Type 0} ⦃key : Hashable P⦄ (environment : Environment W P R M)
    (sources : Sources P R) where
  open environment use {stream_of_partition}

  -- The ends of generation that are to come are those of the streams that generate partitions, and
  -- every partition in the queue, or that a worker will put, comes before the end of its stream's.
  pub record IsCoherent (sys : System W P R M) : Type 0 where
    pub orderly : IsOrderly sys.processor
    pub counted :
        (n : String)
        → completions n sys.queue + worker_completions n sys.workers + task_completions n sys.tasks
          ≡ count n sys.processor.generating
    pub queue_covered : Covered environment sys.queue (λ n. worker_completions n sys.workers)
    pub workers_covered : All (λ worker. Covered environment worker nowhere) sys.workers
    pub finished : sys.main ≡ left ended → IsFinished environment sys.processor

  All-append :
      (k l : List (List (QueueItem P R)))
      → All (λ worker. Covered environment worker nowhere) k
      → All (λ worker. Covered environment worker nowhere) l
      → All (λ worker. Covered environment worker nowhere) (k ++ l)
  All-append [] l c d = d
  All-append (x ∷ k) l c d = (c.0, All-append k l c.1 d)

  start-IsCoherent :
      (tasks : List (Task P)) (sys : System W P R M)
      → ((name : String) → All (λ p. stream_of_partition p ≡ name) (sources.generated name).0)
      → sys.tasks ≡ tasks
      → IsCoherent sys
      → IsCoherent (start_task environment sources tasks sys)
  start-IsCoherent [] sys own e c = c
  start-IsCoherent (task ∷ tasks) sys own e c = record {
    orderly = c.orderly;
    counted = λ n.
        let e' : task_completions n sys.tasks ≡ task_completion n task + task_completions n tasks =
          ap (task_completions n) e in
        omega (
          arith,
          c.counted n,
          e',
          worker_completions-append n sys.workers (outputs environment sources task ∷ []),
          outputs-completions environment sources n task,
        );
    queue_covered =
        Covered-le environment sys.queue _ _
          (λ n. omega (
            arith,
            worker_completions-append n sys.workers (outputs environment sources task ∷ []),
          ))
          c.queue_covered;
    workers_covered =
        All-append sys.workers (outputs environment sources task ∷ []) c.workers_covered
          (outputs-Covered environment sources task own, tt);
    finished = c.finished;
  }

  put-IsCoherent :
      (i : ℕ) (sys : System W P R M)
      → IsCoherent sys
      → IsCoherent (put_item environment sources i sys)
  put-IsCoherent i sys c =
      let (items, workers) = put_next i sys.workers in
      let (covered, rest) = put_next-Covered environment i sys.workers c.workers_covered in
      record {
        orderly = c.orderly;
        counted = λ n. omega (
          arith,
          c.counted n,
          completions-append n sys.queue items,
          put_next-completions n i sys.workers,
        );
        queue_covered =
            Covered-append environment sys.queue items _ _
              (λ n. omega (arith, put_next-completions n i sys.workers)) c.queue_covered covered;
        workers_covered = rest;
        finished = c.finished;
      }

  -- What an item at the head of the queue says of its stream.
  head-IsAwaited :
      (item : QueueItem P R) (queue : List (QueueItem P R)) (sys : System W P R M)
      → sys.queue ≡ item ∷ queue
      → IsCoherent sys
      → IsAwaited sys.processor item
  head-IsAwaited (partition_generation_completed name) queue sys e c =
      let self : indicator (name == name) ≡ 1 = ap indicator (==_refl name) in
      let e' : completions name sys.queue ≡ indicator (name == name) + completions name queue =
        ap (completions name) e in
      count-contains name sys.processor.generating (omega (arith, c.counted name, e', self))
  head-IsAwaited (thread_exception name x) queue sys e c = tt
  head-IsAwaited (partition p) queue sys e c = tt
  head-IsAwaited (partition_complete p b) queue sys e c = tt
  head-IsAwaited (record_read r) queue sys e c = tt

  head-Covered :
      (item : QueueItem P R) (queue : List (QueueItem P R)) (sys : System W P R M)
      → sys.queue ≡ item ∷ queue
      → IsCoherent sys
      → Covered environment (item ∷ queue) (λ n. worker_completions n sys.workers)
  head-Covered item queue sys e c =
      subst (λ l. Covered environment l (λ n. worker_completions n sys.workers)) e c.queue_covered

  head-IsExpected :
      (item : QueueItem P R) (queue : List (QueueItem P R)) (sys : System W P R M)
      → sys.queue ≡ item ∷ queue
      → IsCoherent sys
      → IsExpected environment sys.processor item
  head-IsExpected (partition p) queue sys e c =
      let name = stream_of_partition p in
      let covered = (head-Covered (partition p) queue sys e c).0 in
      let e' : completions name sys.queue ≡ 0 + completions name queue = ap (completions name) e in
      count-contains name sys.processor.generating (omega (arith, c.counted name, e', covered))
  head-IsExpected (partition_generation_completed name) queue sys e c = tt
  head-IsExpected (thread_exception name x) queue sys e c = tt
  head-IsExpected (partition_complete p b) queue sys e c = tt
  head-IsExpected (record_read r) queue sys e c = tt

  handled-IsCoherent :
      (item : QueueItem P R) (queue : List (QueueItem P R)) (sys : System W P R M)
      → sys.queue ≡ item ∷ queue
      → IsCoherent sys
      → IsCoherent
          (handled environment sources queue (handle_item environment item sys.processor) sys)
  handled-IsCoherent item queue sys e c =
      let s = sys.processor in
      let s' = (handle_item environment item s).1 in
      let h = handle_item-Handles environment item s (head-IsAwaited item queue sys e c) in
      let added : drop (length s.submitted) s'.submitted ≡ h.new =
        ap (drop (length s.submitted)) h.grown ∙ drop-append s.submitted h.new in
      record {
        orderly =
            handle_item-IsOrderly environment item s (head-IsExpected item queue sys e c) c.orderly;
        counted = λ n.
            let e' : completions n sys.queue ≡ completion n item + completions n queue =
              ap (completions n) e in
            let added' : task_completions n (sys.tasks ++ drop (length s.submitted) s'.submitted)
                ≡ task_completions n sys.tasks + task_completions n h.new =
              task_completions-append n sys.tasks (drop (length s.submitted) s'.submitted)
              ∙ ap (λ l. task_completions n sys.tasks + task_completions n l) added in
            omega (arith, c.counted n, e', h.counted n, added');
        queue_covered = (head-Covered item queue sys e c).1;
        workers_covered = c.workers_covered;
        finished = λ ends. absurd (not_ended (handle_item environment item s).0 ends);
      }

  take-IsCoherent :
      (queue : List (QueueItem P R)) (sys : System W P R M)
      → ((r : R) → environment.is_truthy r ≡ true)
      → sys.queue ≡ queue
      → IsCoherent sys
      → IsCoherent (take_item environment sources queue sys)
  take-IsCoherent [] sys truthy e c = c
  take-IsCoherent (item ∷ queue) sys truthy e c =
      rw (always item) (handled-IsCoherent item queue sys e c)
    where
      always : (x : QueueItem P R) → is_truthy_item environment x ≡ true
      always (thread_exception name x) = refl
      always (partition_generation_completed name) = refl
      always (partition p) = refl
      always (partition_complete p b) = refl
      always (record_read r) = truthy r

  handle-IsCoherent :
      (main : Main) (sys : System W P R M)
      → ((r : R) → environment.is_truthy r ≡ true)
      → IsCoherent sys
      → IsCoherent (handle_next environment sources main sys)
  handle-IsCoherent waiting sys truthy c = take-IsCoherent sys.queue sys truthy refl c
  handle-IsCoherent checking sys truthy c = c
  handle-IsCoherent (left outcome) sys truthy c = c

  check-IsFinished :
      (result : Result Bool) (empty : Bool) (s : Processor W P R M)
      → is_done s ≡ result
      → after_check result empty ≡ left ended
      → IsFinished environment s
  check-IsFinished (raise x) empty s e ends = cc
  check-IsFinished (ok true) true s e ends = e
  check-IsFinished (ok true) false s e ends = cc
  check-IsFinished (ok false) empty s e ends = cc

  check-IsCoherent :
      (main : Main) (sys : System W P R M)
      → IsCoherent sys
      → IsCoherent (check_done environment sources main sys)
  check-IsCoherent checking sys c = record {
    orderly = c.orderly;
    counted = c.counted;
    queue_covered = c.queue_covered;
    workers_covered = c.workers_covered;
    finished = check-IsFinished (is_done sys.processor) (is_empty sys.queue) sys.processor refl;
  }
  check-IsCoherent waiting sys c = c
  check-IsCoherent (left outcome) sys c = c

  pub perform-IsCoherent :
      (choice : Choice) (sys : System W P R M)
      → ((name : String) → All (λ p. stream_of_partition p ≡ name) (sources.generated name).0)
      → ((r : R) → environment.is_truthy r ≡ true)
      → IsCoherent sys
      → IsCoherent (perform environment sources choice sys)
  unfolding perform
  perform-IsCoherent start sys own truthy c = start-IsCoherent sys.tasks sys own refl c
  perform-IsCoherent (work i) sys own truthy c = put-IsCoherent i sys c
  perform-IsCoherent handle sys own truthy c = handle-IsCoherent sys.main sys truthy c
  perform-IsCoherent check sys own truthy c = check-IsCoherent sys.main sys c
