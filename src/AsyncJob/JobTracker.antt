-- ===== src/AsyncJob/JobTracker.antt =====
-- airbyte_cdk/sources/declarative/async_job/job_tracker.py: how many jobs run at once. What happens under
-- the lock is one step; `add_job` tests its argument before it takes the lock, which is a step of its own
-- between which and the next one other threads may step. A new intent, a UUID, is an argument.
use airbyte_python_cdk.Prelude.{
  ℕ, zero, suc, not, ◌++◌, ◌+◌, ◌≤◌, ◌≡◌, Bool, true, false, List, [], ◌∷◌, String, leb,
  if◌then◌else◌, text_key, length, ◌==◌,
}
use airbyte_python_cdk.Python.Exceptions.{Result, ok, raise, value_error, key_error, runtime_error}
use airbyte_python_cdk.Python.Dict.{contains, add, discard}

-- `_jobs` is a set.
pub record JobTracker : Type 0 where
  pub jobs : List String
  pub limit : ℕ

unfoldable pub has_reached_limit : JobTracker → Bool
has_reached_limit t = leb t.limit (length t.jobs)

-- ConcurrentJobLimitReached is a runtime error here.
unfoldable pub try_to_get_intent : String → JobTracker → Result String × JobTracker
unfolding has_reached_limit
try_to_get_intent intent t =
    if has_reached_limit t
    then (raise runtime_error, t)
    else (ok intent, record t { jobs = add t.jobs intent })

-- `add_job` before it takes the lock: whether there is something to replace.
unfoldable pub test_job : String → String → JobTracker → Result Bool
test_job intent_or_job_id job_id t =
    if contains t.jobs intent_or_job_id
    then ok (not (intent_or_job_id == job_id))
    else raise value_error

-- `add_job` under the lock: `remove` raises if another thread has taken the intent away meanwhile.
unfoldable pub swap_job : String → String → JobTracker → Result (Unit {0}) × JobTracker
swap_job intent_or_job_id job_id t =
    let jobs = add t.jobs job_id in
    if contains jobs intent_or_job_id
    then (ok tt, record t { jobs = discard jobs intent_or_job_id })
    else (raise key_error, record t { jobs = jobs })

abbrev pub after_test : Result Bool → String → String → JobTracker → Result (Unit {0}) × JobTracker
after_test (raise x) intent_or_job_id job_id t = (raise x, t)
after_test (ok false) intent_or_job_id job_id t = (ok tt, t)
after_test (ok true) intent_or_job_id job_id t = swap_job intent_or_job_id job_id t

-- `add_job` of a thread that no other one interrupts.
unfoldable pub add_job : String → String → JobTracker → Result (Unit {0}) × JobTracker
unfolding test_job swap_job
add_job intent_or_job_id job_id t =
    after_test (test_job intent_or_job_id job_id t) intent_or_job_id job_id t

unfoldable pub remove_job : String → JobTracker → JobTracker
remove_job job_id t = record t { jobs = discard t.jobs job_id }

-- A step of some thread: the two of `add_job` are `test` and, of the n-th thread that passed it and waits
-- for the lock, `swap`.
pub data Step : Type 0 where
  get_intent remove : String → Step
  test : String → String → Step
  swap : ℕ → Step

-- The tracker, the replacements that passed the test and wait for the lock, and how often a replacement
-- raised because its intent was taken away meanwhile.
pub record System : Type 0 where
  pub tracker : JobTracker
  pub waiting : List (String × String)
  pub lost : ℕ

abbrev pub begin : JobTracker → System
begin t = record { tracker = t; waiting = []; lost = 0 }

abbrev enter : Result Bool → String × String → List (String × String) → List (String × String)
enter (ok true) pair waiting = waiting ++ (pair ∷ [])
enter _ pair waiting = waiting

abbrev lost_by : Result (Unit {0}) → ℕ
lost_by (ok _) = 0
lost_by (raise x) = 1

abbrev swapped : Result (Unit {0}) × JobTracker → List (String × String) → ℕ → System
swapped (result, t) waiting lost = record {
  tracker = t;
  waiting = waiting;
  lost = lost + lost_by result;
}

abbrev swap_nth : ℕ → List (String × String) → List (String × String) → System → System
swap_nth n before [] sys = sys
swap_nth zero before (pair ∷ after) sys =
    swapped (swap_job pair.0 pair.1 sys.tracker) (before ++ after) sys.lost
swap_nth (suc n) before (pair ∷ after) sys = swap_nth n (before ++ (pair ∷ [])) after sys

unfoldable pub perform : Step → System → System
perform (get_intent intent) sys = record sys { tracker = (try_to_get_intent intent sys.tracker).1 }
perform (remove job_id) sys = record sys { tracker = remove_job job_id sys.tracker }
perform (test intent_or_job_id job_id) sys = record sys {
  waiting =
      enter (test_job intent_or_job_id job_id sys.tracker) (intent_or_job_id, job_id) sys.waiting;
}
perform (swap n) sys = swap_nth n [] sys.waiting sys

abbrev pub perform_all : List Step → System → System
perform_all [] sys = sys
perform_all (step ∷ steps) sys = perform_all steps (perform step sys)

-- At most as many jobs as the limit, and one more for each replacement that was lost.
abbrev pub IsWithin : ℕ → System → Type 0
IsWithin limit sys = (sys.tracker.limit ≡ limit) × (length sys.tracker.jobs ≤ limit + sys.lost)
