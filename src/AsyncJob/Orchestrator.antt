-- ===== src/AsyncJob/Orchestrator.antt =====
-- The loop of AsyncJobOrchestrator of airbyte_cdk/sources/declarative/async_job/job_orchestrator.py. The
-- caller takes all that is yielded, and the time between two rounds is not modelled.
pub mod Accounting
use airbyte_python_cdk.Prelude.{
  ℕ, zero, suc, ◌+◌, ◌≡◌, ◌↔◌, refl, Bool, true, false, Option, none, some, List, [], ◌∷◌, ◌++◌,
  map, length, String, if◌then◌else◌, ◌&&◌, ◌||◌, not, any, all, eqb, eqb_iff, Hashable, ap, arith,
}
use airbyte_python_cdk.Python.Exceptions.{Exception, Result, ok, raise}
use airbyte_python_cdk.Python.Dict.{Dict}
use airbyte_python_cdk.AsyncJob.JobTracker.{JobTracker, try_to_get_intent, add_job, remove_job}
use airbyte_python_cdk.AsyncJob.Partition
use airbyte_python_cdk.AsyncJob.Partition.{replace_job, has_reached_max_attempt}
use airbyte_python_cdk.AsyncJob.Lookahead.{
  LookaheadIterator, next, has_next, add_at_the_beginning, upcoming,
}
use airbyte_python_cdk.AsyncJob.Api.{
  AsyncJobStatus, running, completed, failed, timed_out, is_running, is_completed, is_failed,
  is_timed_out, Job, started, could_not_start, job_key, Api, Session, AsyncPartition, jobs_of,
  Failure, caught, not_completed, Orchestrator, Ending, returned, incomplete, broken, out_of_fuel,
  Started, job, limit_reached, raised, call, remove, status_of_all, status_of, read_statuses,
  jobs_with, each, is_caught,
}
use airbyte_python_cdk.AsyncJob.Starting.{start_jobs, look_ahead, is_none}

abbrev pub all_jobs : {S : Type 0} → List (AsyncPartition S) → List Job
all_jobs [] = []
all_jobs (partition ∷ partitions) = jobs_of partition ++ all_jobs partitions

abbrev pub finish : {S : Type 0} → List (Failure S) → Ending S
finish [] = returned
finish (failure ∷ failures) = incomplete (failure ∷ failures)

-- `__init__`, with the tracker in its session
unfoldable pub init : {S : Type 0} → List S → Session → Orchestrator S
init slices w = record {
  slice_iterator = record { iterator = slices; buffer = [] };
  running_partitions = [];
  session = w;
  non_breaking_exceptions = [];
  yielded = [];
}

module _ {S : Type 0} (api : Api S) where
  -- `_abort_job`
  unfoldable pub abort_job : Bool → Job → Session → Session
  abort_job free_job_allocation j w =
      if api.abort_raises w.calls j
      then call w
      else if free_job_allocation
      then remove (api.api_job_id j) (call w)
      else call w

  unfoldable pub stop_partition : AsyncPartition S → Session → Session
  unfolding abort_job
  stop_partition partition =
      each
        (λ j w.
          let (s, w') = status_of api j w in
          if is_running s || is_timed_out s
          then abort_job true j w'
          else remove (api.api_job_id j) w')
        (jobs_of partition)

  unfoldable pub stop_timed_out_jobs : AsyncPartition S → Session → Session
  unfolding abort_job
  stop_timed_out_jobs partition =
      each
        (λ j w.
          let (s, w') = status_of api j w in if is_timed_out s then abort_job false j w' else w')
        (jobs_of partition)

  -- `_process_completed_partition`
  unfoldable pub process_completed_partition : AsyncPartition S → Session → Session
  process_completed_partition partition =
      each (λ j w. remove (api.api_job_id j) w) (jobs_of partition)

  -- The allocation of completed jobs is freed, whatever the partition's status.
  unfoldable pub remove_completed_jobs : AsyncPartition S → Session → Session
  remove_completed_jobs partition =
      each
        (λ j w.
          let (s, w') = status_of api j w in
          if is_completed s then remove (api.api_job_id j) w' else w')
        (jobs_of partition)

  -- What a partition's status leads to: `current` are the partitions that go on running.
  abbrev pub handle_partition :
      AsyncJobStatus
      → AsyncPartition S
      → List (AsyncPartition S)
      → Session
      → Orchestrator S
      → List (AsyncPartition S) × Session × Orchestrator S
  handle_partition completed partition current w o = (
    current,
    process_completed_partition partition w,
    record o { yielded = o.yielded ++ (partition ∷ []) },
  )
  handle_partition running partition current w o = (current ++ (partition ∷ []), w, o)
  handle_partition _ partition current w o =
      if has_reached_max_attempt partition.attempts_per_job
      then (
        current,
        stop_partition partition w,
        record o {
          non_breaking_exceptions =
              o.non_breaking_exceptions ++ (not_completed partition.stream_slice ∷ []);
        },
      )
      else (partition ∷ current, stop_timed_out_jobs partition w, o)

  unfoldable pub process_partitions :
      List (AsyncPartition S) → List (AsyncPartition S) → Session → Orchestrator S → Orchestrator S
  process_partitions [] current w o = record o { running_partitions = current; session = w }
  process_partitions (partition ∷ partitions) current w o =
      let (statuses, w') = read_statuses api (jobs_of partition) w in
      let (current', w'', o') = handle_partition (status_of_all statuses) partition current w' o in
      process_partitions partitions current' (remove_completed_jobs partition w'') o'

  -- `_process_running_partitions_and_yield_completed_ones`
  abbrev pub process_running_partitions_and_yield_completed_ones : Orchestrator S → Orchestrator S
  process_running_partitions_and_yield_completed_ones o =
      process_partitions o.running_partitions [] o.session o

  abbrev pub ask_for_status : List Job → Session → Option Exception × Session
  ask_for_status [] w = (none, w)
  ask_for_status (j ∷ jobs) w = (api.update_jobs_status w.calls (j ∷ jobs), call w)

  -- `_update_jobs_status`
  unfoldable pub update_jobs_status : Orchestrator S → Option Exception × Orchestrator S
  update_jobs_status o =
      let (running_jobs, w) = jobs_with api is_running (all_jobs o.running_partitions) o.session in
      let (exception, w') = ask_for_status running_jobs w in (exception, record o { session = w' })

  -- `_abort_all_running_jobs`
  unfoldable pub abort_all_running_jobs : Orchestrator S → Orchestrator S
  unfolding abort_job
  abort_all_running_jobs o = record o {
    running_partitions = [];
    session =
        each
          (λ j w.
            let (s, w') = status_of api j w in
            let w'' = if is_running s || is_timed_out s then abort_job true j w' else w' in
            remove (api.api_job_id j) w'')
          (all_jobs o.running_partitions) o.session;
  }

  abbrev pub on_failure :
      (Orchestrator S → Ending S × Orchestrator S)
      → Exception
      → Orchestrator S
      → Ending S × Orchestrator S
  on_failure go_on x o =
      if api.is_breaking_exception x
      then (broken x, abort_all_running_jobs o)
      else go_on
          (record o { non_breaking_exceptions = o.non_breaking_exceptions ++ (caught x ∷ []) })

  abbrev pub after_update :
      (Orchestrator S → Ending S × Orchestrator S)
      → Option Exception × Orchestrator S
      → Ending S × Orchestrator S
  after_update go_on (some x, o) = on_failure go_on x o
  after_update go_on (none, o) = go_on (process_running_partitions_and_yield_completed_ones o)

  abbrev pub continue :
      (Orchestrator S → Ending S × Orchestrator S)
      → Bool × Orchestrator S
      → Ending S × Orchestrator S
  continue go_on (more, o) =
      if not more && is_none o.running_partitions
      then (finish o.non_breaking_exceptions, o)
      else after_update go_on (update_jobs_status o)

  -- A round of the loop, behind `_start_jobs`.
  abbrev pub round :
      (Orchestrator S → Ending S × Orchestrator S)
      → Option Exception × Orchestrator S
      → Ending S × Orchestrator S
  round go_on (some x, o) = on_failure go_on x o
  round go_on (none, o) = continue go_on (look_ahead o)

  -- How `create_and_get_completed_partitions` ends: it returns, raises what it collected, raises an
  -- exception that breaks, or, in the model alone, runs out of fuel.
  unfoldable pub create_and_get_completed_partitions :
      ℕ → Orchestrator S → Ending S × Orchestrator S
  create_and_get_completed_partitions zero o = (out_of_fuel, o)
  create_and_get_completed_partitions (suc fuel) o =
      round (create_and_get_completed_partitions fuel) (start_jobs api o)
