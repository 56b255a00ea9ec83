-- ===== src/AsyncJob/Api.antt =====
-- What the orchestrator of airbyte_cdk/sources/declarative/async_job/job_orchestrator.py works with: the
-- jobs and their statuses, and the API. Each call of the API, and each reading of a job's status, is
-- told how many came before, so that a status may change between any two readings. `S` is the type of
-- slices.
use airbyte_python_cdk.Prelude.{
  ℕ, suc, ◌≡◌, ◌↔◌, Bool, true, false, Option, List, [], ◌∷◌, map, String, if◌then◌else◌, any, all,
  eqb, eqb_iff, Hashable, ap, arith,
}
use airbyte_python_cdk.Python.Exceptions.{Exception}
use airbyte_python_cdk.Python.Dict.{Dict}
use airbyte_python_cdk.AsyncJob.JobTracker.{JobTracker, remove_job}
use airbyte_python_cdk.AsyncJob.Lookahead.{LookaheadIterator}

pub data AsyncJobStatus : Type 0 where
  running completed failed timed_out : AsyncJobStatus

abbrev pub is_running : AsyncJobStatus → Bool
is_running running = true
is_running _ = false

abbrev pub is_completed : AsyncJobStatus → Bool
is_completed completed = true
is_completed _ = false

abbrev pub is_failed : AsyncJobStatus → Bool
is_failed failed = true
is_failed _ = false

abbrev pub is_timed_out : AsyncJobStatus → Bool
is_timed_out timed_out = true
is_timed_out _ = false

-- The object that was made at a call: by the repository, or in place of a job that could not start.
pub data Job : Type 0 where
  started : ℕ → Job
  could_not_start : ℕ → Job

abbrev pub same_job : Job → Job → Bool
same_job (started m) (started n) = eqb m n
same_job (could_not_start m) (could_not_start n) = eqb m n
same_job (started m) (could_not_start n) = false
same_job (could_not_start m) (started n) = false

pub same_job_iff : (a b : Job) → (same_job a b ≡ true) ↔ (a ≡ b)
same_job_iff (started m) (started n) = (λ h. ap started ((eqb_iff m n).0 h), λ e. ground arith)
same_job_iff (could_not_start m) (could_not_start n) =
    (λ h. ap could_not_start ((eqb_iff m n).0 h), λ e. ground arith)
same_job_iff (started m) (could_not_start n) = (λ h. cc, λ e. cc)
same_job_iff (could_not_start m) (started n) = (λ h. cc, λ e. cc)

instance abbrev pub job_key : Hashable Job
job_key = record { same = same_job; same_iff = same_job_iff }

pub record Api (S : Type 0) : Type 0 where
  -- What `start` raises, if anything; the id of the job, or of the one that takes its place.
  pub start : ℕ → S → Option Exception
  pub api_job_id : Job → String
  pub status : ℕ → ℕ → AsyncJobStatus
  pub abort_raises : ℕ → Job → Bool
  pub update_jobs_status : ℕ → List Job → Option Exception
  pub intent : ℕ → String
  pub is_breaking_exception : Exception → Bool
  pub has_bulk_parent : Bool

-- The tracker, and the number of calls and readings.
pub record Session : Type 0 where
  pub job_tracker : JobTracker
  pub calls : ℕ

pub record AsyncPartition (S : Type 0) : Type 0 where
  pub attempts_per_job : Dict Job ℕ
  pub stream_slice : S

abbrev pub jobs_of : {S : Type 0} → AsyncPartition S → List Job
jobs_of partition = map (λ entry. entry.0) partition.attempts_per_job

pub data Failure (S : Type 0) : Type 0 where
  caught : Exception → Failure S
  not_completed : S → Failure S

abbrev pub is_caught : {S : Type 0} → Failure S → Bool
is_caught (caught x) = true
is_caught (not_completed slice) = false

pub record Orchestrator (S : Type 0) : Type 0 where
  pub slice_iterator : LookaheadIterator S
  pub running_partitions : List (AsyncPartition S)
  pub session : Session
  pub non_breaking_exceptions : List (Failure S)
  pub yielded : List (AsyncPartition S)

pub data Ending (S : Type 0) : Type 0 where
  returned : Ending S
  incomplete : List (Failure S) → Ending S
  broken : Exception → Ending S
  out_of_fuel : Ending S

-- `_start_job` returns, or raises ConcurrentJobLimitReached or another exception.
pub data Started : Type 0 where
  job : Job → Started
  limit_reached : Started
  raised : Exception → Started

abbrev pub call : Session → Session
call w = record w { calls = suc w.calls }

abbrev pub remove : String → Session → Session
remove id w = record w { job_tracker = remove_job id w.job_tracker }

-- `status` of AsyncPartition
abbrev pub status_of_all : List AsyncJobStatus → AsyncJobStatus
status_of_all [] = running
status_of_all (s ∷ statuses) =
    if all is_completed (s ∷ statuses)
    then completed
    else if any is_failed (s ∷ statuses)
    then failed
    else if any is_timed_out (s ∷ statuses)
    then timed_out
    else running

abbrev pub each : (Job → Session → Session) → List Job → Session → Session
each step [] w = w
each step (j ∷ jobs) w = each step jobs (step j w)

module _ {S : Type 0} (api : Api S) where
  -- `job.status()`
  abbrev pub status_of : Job → Session → AsyncJobStatus × Session
  status_of (started n) w = (api.status w.calls n, call w)
  status_of (could_not_start n) w = (failed, call w)

  unfoldable pub read_statuses : List Job → Session → List AsyncJobStatus × Session
  read_statuses [] w = ([], w)
  read_statuses (j ∷ jobs) w =
      let (s, w') = status_of j w in
      let (statuses, w'') = read_statuses jobs w' in (s ∷ statuses, w'')

  -- The jobs whose status, read one after the other, satisfies a test.
  unfoldable pub jobs_with : (AsyncJobStatus → Bool) → List Job → Session → List Job × Session
  jobs_with test [] w = ([], w)
  jobs_with test (j ∷ jobs) w =
      let (s, w') = status_of j w in
      let (rest, w'') = jobs_with test jobs w' in (if test s then j ∷ rest else rest, w'')
