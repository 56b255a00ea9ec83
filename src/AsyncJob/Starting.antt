-- ===== src/AsyncJob/Starting.antt =====
-- How AsyncJobOrchestrator of airbyte_cdk/sources/declarative/async_job/job_orchestrator.py starts jobs
-- and replaces those that failed. Nothing but the orchestrator uses its tracker.
pub mod Conserving
use airbyte_python_cdk.Prelude.{
  ℕ, zero, suc, ◌+◌, ◌≡◌, ◌↔◌, refl, Bool, true, false, Option, none, some, List, [], ◌∷◌, ◌++◌,
  map, length, String, if◌then◌else◌, ◌&&◌, ◌||◌, not, any, all, eqb, eqb_iff, Hashable, ap, arith,
}
use airbyte_python_cdk.Python.Exceptions.{Exception, Result, ok, raise}
use airbyte_python_cdk.Python.Dict.{Dict}
use airbyte_python_cdk.AsyncJob.JobTracker.{JobTracker, try_to_get_intent, add_job, remove_job}
use airbyte_python_cdk.AsyncJob.Partition
use airbyte_python_cdk.AsyncJob.Partition.{replace_job, has_reached_max_attempt}
use airbyte_python_cdk.AsyncJob.Lookahead.{
  LookaheadIterator, next, has_next, add_at_the_beginning, upcoming,
}
use text.Mathlib.Text.{◌==◌ as str_eq}
use airbyte_python_cdk.AsyncJob.Api.{
  AsyncJobStatus, running, completed, failed, timed_out, is_running, is_completed, is_failed,
  is_timed_out, Job, started, could_not_start, job_key, Api, Session, AsyncPartition, jobs_of,
  Failure, caught, not_completed, Orchestrator, Ending, returned, incomplete, broken, out_of_fuel,
  Started, job, limit_reached, raised, call, remove, status_of_all, status_of, read_statuses,
  jobs_with, each, is_caught,
}

abbrev pub exception_of : Result (Unit {0}) → Option Exception
exception_of (ok done) = none
exception_of (raise x) = some x

abbrev pub is_job : Started → Bool
is_job (job j) = true
is_job limit_reached = false
is_job (raised x) = false

-- A new partition of one job.
abbrev pub new_partition : {S : Type 0} → Job → S → AsyncPartition S
new_partition j slice = record { attempts_per_job = Partition.init (j ∷ []); stream_slice = slice }

abbrev pub look_ahead : {S : Type 0} → Orchestrator S → Bool × Orchestrator S
look_ahead o =
    let (more, iterator) = has_next o.slice_iterator in
    (more, record o { slice_iterator = iterator })

abbrev pub is_none : {S : Type 0} → List (AsyncPartition S) → Bool
is_none [] = true
is_none (partition ∷ partitions) = false

module _ {S : Type 0} (api : Api S) where
  -- `add_job` of the tracker
  abbrev pub track : String → Job → Session → Option Exception × Session
  track id j w =
      let (result, tracker) = add_job id (api.api_job_id j) w.job_tracker in
      (exception_of result, record w { job_tracker = tracker })

  -- `_keep_api_budget_with_failed_job`
  unfoldable pub keep_api_budget_with_failed_job : String → Session → Started × Session
  keep_api_budget_with_failed_job intent w =
      let j = could_not_start w.calls in
      let (exception, w') = track intent j (call w) in
      (elim exception [ none ↦ job j | some x ↦ raised x ], w')

  abbrev pub on_exception : Exception → String → Session → Started × Session
  on_exception x id w =
      if api.is_breaking_exception x
      then (raised x, remove id w)
      else keep_api_budget_with_failed_job id w

  abbrev pub on_tracked : Option Exception → Job → String → Session → Started × Session
  on_tracked none j id w = (job j, w)
  on_tracked (some x) j id w = on_exception x id w

  abbrev pub on_start : Option Exception → String → Session → Started × Session
  on_start (some x) id w = on_exception x id (call w)
  on_start none id w =
      let j = started w.calls in
      let (exception, w') = track id j (call w) in on_tracked exception j id w'

  abbrev pub on_intent : Result String × JobTracker → S → Session → Started × Session
  on_intent (ok id, tracker) slice w =
      on_start (api.start w.calls slice) id (record w { job_tracker = tracker })
  on_intent (raise x, tracker) slice w = (limit_reached, record w { job_tracker = tracker })

  -- Without the id of a previous job, or with an empty one, an intent is asked for.
  unfoldable pub start_job : S → Option String → Session → Started × Session
  unfolding keep_api_budget_with_failed_job
  start_job slice none w =
      on_intent (try_to_get_intent (api.intent w.calls) w.job_tracker) slice (call w)
  start_job slice (some previous_job_id) w =
      if str_eq previous_job_id ""
      then on_intent (try_to_get_intent (api.intent w.calls) w.job_tracker) slice (call w)
      else on_start (api.start w.calls slice) previous_job_id w

  abbrev pub replace_with :
      Started × Session → Job → AsyncPartition S → Started × AsyncPartition S × Session
  replace_with (limit_reached, w) old partition = (limit_reached, partition, w)
  replace_with (raised x, w) old partition = (raised x, partition, w)
  replace_with (job j, w) old partition =
      let (result, attempts) = replace_job old (j ∷ []) partition.attempts_per_job in
      (
        elim result [ ok done ↦ job j | raise x ↦ raised x ],
        record partition { attempts_per_job = attempts },
        w,
      )

  -- The loop ends with the first exception; `job` stands for none.
  unfoldable pub replace_jobs :
      List Job → Job → AsyncPartition S → Session → Started × AsyncPartition S × Session
  replace_jobs [] last partition w = (job last, partition, w)
  replace_jobs (old ∷ jobs) last partition w =
      let (result, partition', w') =
        replace_with (start_job partition.stream_slice (some (api.api_job_id old)) w) old
          partition in
      let rest = replace_jobs jobs old partition' w' in
      if is_job result then rest else (result, partition', w')

  -- `_replace_failed_jobs`
  unfoldable pub replace_failed_jobs :
      AsyncPartition S → Session → Started × AsyncPartition S × Session
  replace_failed_jobs partition w =
      let (jobs_to_replace, w') =
        jobs_with api (λ s. is_failed s || is_timed_out s) (jobs_of partition) w in
      replace_jobs jobs_to_replace (started 0) partition w'

  unfoldable pub replace_all_failed_jobs :
      List (AsyncPartition S) → Session → Started × List (AsyncPartition S) × Session
  replace_all_failed_jobs [] w = (job (started 0), [], w)
  replace_all_failed_jobs (partition ∷ partitions) w =
      let (result, partition', w') = replace_failed_jobs partition w in
      let (result', partitions', w'') = replace_all_failed_jobs partitions w' in
      if is_job result
      then (result', partition' ∷ partitions', w'')
      else (result, partition' ∷ partitions, w')

  -- `start_slices` takes one round for each of the items that are to come, its first argument; with none
  -- left the iterator is at its end.
  abbrev pub after_start :
      (Orchestrator S → Option Exception × Orchestrator S)
      → Started
      → S
      → Orchestrator S
      → Option Exception × Orchestrator S
  after_start go_on limit_reached slice o =
      (none, record o { slice_iterator = add_at_the_beginning slice o.slice_iterator })
  after_start go_on (raised x) slice o = (some x, o)
  after_start go_on (job j) slice o =
      let o' : Orchestrator S = record o {
        running_partitions = o.running_partitions ++ (new_partition j slice ∷ []);
      } in
      let (more, looked) = look_ahead o' in
      if api.has_bulk_parent
      then elim more [ true ↦ (none, looked) | false ↦ go_on looked ]
      else go_on o'

  unfoldable pub start_slices : ℕ → Orchestrator S → Option Exception × Orchestrator S
  start_slices zero o = (none, o)
  start_slices (suc n) o = elim (next o.slice_iterator) [
    | none ↦ (none, o)
    | some (slice, iterator) ↦
        let (result, w) = start_job slice none o.session in
        after_start (start_slices n) result slice
          (record o { slice_iterator = iterator; session = w })
  ]

  abbrev pub start_all : Orchestrator S → Option Exception × Orchestrator S
  start_all o = start_slices (length (upcoming o.slice_iterator)) o

  abbrev pub after_replacing : Started → Orchestrator S → Option Exception × Orchestrator S
  after_replacing limit_reached o = (none, o)
  after_replacing (raised x) o = (some x, o)
  after_replacing (job j) o =
      if api.has_bulk_parent && not (is_none o.running_partitions)
      then (let (more, looked) = look_ahead o in if more then (none, looked) else start_all looked)
      else start_all o

  -- `_start_jobs`
  unfoldable pub start_jobs : Orchestrator S → Option Exception × Orchestrator S
  start_jobs o =
      let (result, partitions, w) = replace_all_failed_jobs o.running_partitions o.session in
      after_replacing result (record o { running_partitions = partitions; session = w })
