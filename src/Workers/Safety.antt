-- ===== src/Workers/Safety.antt =====
-- What a concurrent read announces, whatever the order of the steps of its threads.
use airbyte_python_cdk.Prelude.{
  ℕ, ◌≤◌, ◌≡◌, refl, ap, ◌∙◌, inl, inr, Bool-cases, text_key, true, List, [], ◌∷◌, String, Hashable,
  All, arith,
}
use airbyte_python_cdk.ReadProcessor.{Environment, Processor, init, QueueItem, Task}
use airbyte_python_cdk.ReadProcessor.Counts.{count}
use airbyte_python_cdk.ReadProcessor.Progress.{task_completions, handle_item-streams}
use airbyte_python_cdk.ReadProcessor.Consume.{Outcome, ended, blocked, is_truthy_item}
use airbyte_python_cdk.ReadProcessor.Consume.Ending.{
  init-IsOrderly, submit_initial-IsOrderly, submit_initial-Advances, EndsOnce, orderly-EndsOnce,
}
use airbyte_python_cdk.Workers.{
  Sources, System, Main, waiting, checking, left, Choice, start, work, handle, check, perform,
  perform_all, begin, handle_next, take_item, start_task, check_done,
}
use airbyte_python_cdk.Workers.Invariant.{IsCoherent, perform-IsCoherent}

-- How the main thread left off: it waits for an item, if it has not left its loop.
abbrev pub outcome_of : Main → Outcome
outcome_of waiting = blocked
outcome_of checking = blocked
outcome_of (left outcome) = outcome

module _ {W P R M : Type 0} ⦃key : Hashable P⦄ (environment : Environment W P R M)
    (sources : Sources P R) where
  open environment use {stream_of_partition, is_truthy}
  open sources use {generated}

  begin-IsCoherent :
      (initial : ℕ) (streams : List String) (world : W)
      → ((n : String) → count n streams ≤ 1)
      → IsCoherent environment sources (begin environment sources initial streams world)
  unfolding begin init
  begin-IsCoherent initial streams world distinct =
      let s : Processor W P R M = init streams world in
      let a = submit_initial-Advances initial s in
      record {
        orderly = submit_initial-IsOrderly initial s (init-IsOrderly P R M streams world distinct);
        counted = λ n. omega (arith, a.counted n, ap (task_completions n) a.grown);
        queue_covered = tt;
        workers_covered = tt;
        finished = λ e. cc;
      }

  perform_all-IsCoherent :
      (choices : List Choice) (sys : System W P R M)
      → ((name : String) → All (λ p. stream_of_partition p ≡ name) (generated name).0)
      → ((r : R) → is_truthy r ≡ true)
      → IsCoherent environment sources sys
      → IsCoherent environment sources (perform_all environment sources choices sys)
  unfolding perform_all
  perform_all-IsCoherent [] sys own truthy c = c
  perform_all-IsCoherent (choice ∷ choices) sys own truthy c =
      perform_all-IsCoherent choices (perform environment sources choice sys) own truthy
        (perform-IsCoherent environment sources choice sys own truthy c)

  handle-streams :
      (main : Main) (sys : System W P R M)
      → (handle_next environment sources main sys).processor.streams ≡ sys.processor.streams
  handle-streams waiting sys = by_queue sys.queue
    where
      by_queue :
          (queue : List (QueueItem P R))
          → (take_item environment sources queue sys).processor.streams ≡ sys.processor.streams
      by_queue [] = refl
      by_queue (item ∷ queue) = elim (Bool-cases (is_truthy_item environment item)) [
        | inl truthy ↦ rw truthy (handle_item-streams environment item sys.processor)
        | inr falsy ↦ rw falsy refl
      ]
  handle-streams checking sys = refl
  handle-streams (left outcome) sys = refl

  perform-streams :
      (choice : Choice) (sys : System W P R M)
      → (perform environment sources choice sys).processor.streams ≡ sys.processor.streams
  unfolding perform
  perform-streams start sys = by_tasks sys.tasks
    where
      by_tasks :
          (tasks : List (Task P))
          → (start_task environment sources tasks sys).processor.streams ≡ sys.processor.streams
      by_tasks [] = refl
      by_tasks (task ∷ tasks) = refl
  perform-streams (work i) sys = refl
  perform-streams handle sys = handle-streams sys.main sys
  perform-streams check sys = by_main sys.main
    where
      by_main :
          (main : Main)
          → (check_done environment sources main sys).processor.streams ≡ sys.processor.streams
      by_main waiting = refl
      by_main checking = refl
      by_main (left outcome) = refl

  perform_all-streams :
      (choices : List Choice) (sys : System W P R M)
      → (perform_all environment sources choices sys).processor.streams ≡ sys.processor.streams
  unfolding perform_all
  perform_all-streams [] sys = refl
  perform_all-streams (choice ∷ choices) sys =
      perform_all-streams choices (perform environment sources choice sys)
      ∙ perform-streams choice sys

  begin-streams :
      (initial : ℕ) (streams : List String) (world : W)
      → (begin environment sources initial streams world).processor.streams ≡ streams
  unfolding begin init
  begin-streams initial streams world =
      (submit_initial-Advances initial
        (init {W = W} {P = P} {R = R} {M = M} streams world)).same_streams

  coherent-EndsOnce :
      (streams : List String) (sys : System W P R M)
      → sys.processor.streams ≡ streams
      → IsCoherent environment sources sys
      → EndsOnce environment streams (outcome_of sys.main, sys.processor)
  coherent-EndsOnce streams sys same c =
      orderly-EndsOnce environment streams (outcome_of sys.main) sys.processor same c.orderly
        (λ e. c.finished (by_main sys.main e))
    where
      by_main : (main : Main) → outcome_of main ≡ ended → main ≡ left ended
      by_main waiting e = cc
      by_main checking e = cc
      by_main (left outcome) e = rw e refl

  -- A concurrent read over streams with distinct names, whose generators give partitions of their
  -- own stream and whose records are truthy, announces the end of each stream at most once, in
  -- every order of the steps of the pool, of its workers and of the main thread; and if the main
  -- thread leaves its loop without raising, the end of each stream that it was given was announced
  -- once, no partition of it is left running, and no exception was flagged.
  pub perform_all-EndsOnce :
      (initial : ℕ) (streams : List String) (world : W) (choices : List Choice)
      → ((n : String) → count n streams ≤ 1)
      → ((name : String) → All (λ p. stream_of_partition p ≡ name) (generated name).0)
      → ((r : R) → is_truthy r ≡ true)
      → let sys =
          perform_all environment sources choices
            (begin environment sources initial streams world) in
        EndsOnce environment streams (outcome_of sys.main, sys.processor)
  perform_all-EndsOnce initial streams world choices distinct own truthy =
      let first = begin environment sources initial streams world in
      coherent-EndsOnce streams _
        (perform_all-streams choices first ∙ begin-streams initial streams world)
        (perform_all-IsCoherent choices first own truthy
          (begin-IsCoherent initial streams world distinct))
