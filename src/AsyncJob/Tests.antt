-- ===== src/AsyncJob/Tests.antt =====
-- A tracker of two jobs, a partition of one and an iterator of three items.
use airbyte_python_cdk.Prelude.{
  ℕ, none, false, eqb, length, ◌≡◌, refl, ◌≤◌, ◌*◌, List, [], ◌∷◌, number_key, text_key,
}
use airbyte_python_cdk.Python.Exceptions.{ok}
use airbyte_python_cdk.Python.Dict
use airbyte_python_cdk.Python.Dict.{contains, add, discard}
use airbyte_python_cdk.AsyncJob.JobTracker.{
  JobTracker, try_to_get_intent, add_job, remove_job, Step, get_intent, test, swap, begin, perform,
  test_job, swap_job, has_reached_limit, perform_all,
}
use airbyte_python_cdk.AsyncJob.Partition.{
  replace_each, replacements_bound, init, replace_job, set_all,
}
use airbyte_python_cdk.AsyncJob.Lookahead.{
  LookaheadIterator, pop, IsNext, upcoming, next, has_next, is_some_item, add_at_the_beginning,
  coming, lookahead_lem,
}
use airbyte_python_cdk.AsyncJob.Api.{
  started, could_not_start, job_key, Api, completed, Session, Ending, returned, AsyncPartition,
  read_statuses, jobs_with,
}
use airbyte_python_cdk.AsyncJob.Starting.{
  start_job, start_slices, start_jobs, replace_all_failed_jobs, replace_failed_jobs, replace_jobs,
}
use airbyte_python_cdk.AsyncJob.Orchestrator.{
  create_and_get_completed_partitions, process_partitions, update_jobs_status,
  process_completed_partition, remove_completed_jobs, stop_partition, stop_timed_out_jobs,
}
use airbyte_python_cdk.AsyncJob.Orchestrator
use airbyte_python_cdk.AsyncJob.Orchestrator.Accounting.{
  IsAccounted, create_and_get_completed_partitions-IsAccounted,
}

abbrev tracker : JobTracker
tracker = record { jobs = []; limit = 2 }

-- Two threads test the same intent before either replaces it.
abbrev steps : List Step
steps = get_intent "a" ∷ get_intent "b" ∷ test "a" "job" ∷ test "a" "other" ∷ swap 0 ∷ swap 0 ∷ []

-- The second one raises, and the tracker has more jobs than its limit.
over_limit :
    (length (perform_all steps (begin tracker)).tracker.jobs ≡ 3)
    × ((perform_all steps (begin tracker)).lost ≡ 1)
unfolding perform try_to_get_intent test_job swap_job has_reached_limit contains add discard
over_limit = (refl, refl)

two_replacements : replace_each {J = ℕ} ((7, 8) ∷ (8, 9) ∷ []) (init (7 ∷ [])) ≡ ok tt
unfolding init replace_job set_all Dict.get Dict.set Dict.delete
two_replacements = refl

replacements_bound_example : 2 ≤ 2 * 1
replacements_bound_example =
    replacements_bound {J = ℕ} (7 ∷ []) ((7, 8) ∷ (8, 9) ∷ []) two_replacements

abbrev looked : LookaheadIterator ℕ
looked = record { iterator = 2 ∷ 3 ∷ []; buffer = 1 ∷ [] }

lookahead_lem_example :
    IsNext (upcoming looked) (next looked)
    × (upcoming (has_next looked).1 ≡ upcoming looked)
    × ((has_next looked).0 ≡ is_some_item (upcoming looked))
    × (upcoming (add_at_the_beginning 9 looked) ≡ coming looked.buffer (9 ∷ looked.iterator))
lookahead_lem_example = lookahead_lem looked 9

-- Each job is completed when its status is first read; there is room for one job at a time.
abbrev api : Api ℕ
api = record {
  start = λ n slice. none;
  api_job_id = λ j. elim j [ started n ↦ "started" | could_not_start n ↦ "failed" ];
  status = λ n j. completed;
  abort_raises = λ n j. false;
  update_jobs_status = λ n jobs. none;
  intent = λ n. "intent";
  is_breaking_exception = λ x. false;
  has_bulk_parent = false;
}

abbrev session : Session
session = record { job_tracker = record { jobs = []; limit = 1 }; calls = 0 }

slices_of : List (AsyncPartition ℕ) → List ℕ
slices_of [] = []
slices_of (partition ∷ partitions) = partition.stream_slice ∷ slices_of partitions

two_slices :
    (let r = create_and_get_completed_partitions api 4 (Orchestrator.init (5 ∷ 6 ∷ []) session) in
      ◌≡◌ {A = Ending ℕ × List ℕ} (r.0, slices_of r.1.yielded) (returned, 5 ∷ 6 ∷ []))
unfolding create_and_get_completed_partitions Orchestrator.init slices_of start_jobs
    replace_all_failed_jobs start_slices next start_job try_to_get_intent add_job contains add
    discard has_next add_at_the_beginning update_jobs_status jobs_with init Dict.set
    process_partitions read_statuses remove_job pop process_completed_partition
    remove_completed_jobs set_all Dict.delete Dict.get replace_failed_jobs replace_jobs
two_slices = refl

create_and_get_completed_partitions-IsAccounted_example :
    IsAccounted api
      (λ s. eqb s 5)
      1
      (create_and_get_completed_partitions api 4 (Orchestrator.init (5 ∷ 6 ∷ []) session))
create_and_get_completed_partitions-IsAccounted_example =
    create_and_get_completed_partitions-IsAccounted api (5 ∷ 6 ∷ []) session 4 (λ s. eqb s 5)
