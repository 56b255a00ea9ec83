-- ===== src/AsyncJob/Orchestrator/Accounting.antt =====
-- Where the slices of an AsyncJobOrchestrator are, and how its loop ends.
use airbyte_python_cdk.Prelude.{
  ℕ, zero, suc, ◌+◌, ◌≡◌, refl, sym, ap, ◌∙◌, Bool, true, false, Option, none, some, List, [], ◌∷◌,
  ◌++◌, count, count-append, if◌then◌else◌, not, ◌&&◌, any, arith, Bool-cases, inl, inr, ◌⊎◌,
}
use airbyte_python_cdk.Python.Exceptions.{Exception}
use airbyte_python_cdk.AsyncJob.Api.{
  job_key, AsyncJobStatus, running, completed, Api, Session, AsyncPartition, Failure, caught,
  not_completed, is_caught, Orchestrator, Ending, returned, incomplete, broken, out_of_fuel,
  jobs_of, read_statuses, status_of_all,
}
use airbyte_python_cdk.AsyncJob.Partition.{has_reached_max_attempt}
use airbyte_python_cdk.AsyncJob.Lookahead.{upcoming, is_some_item, has_next_iff, upcoming-has_next}
use airbyte_python_cdk.AsyncJob.Starting.{start_jobs, look_ahead, is_none}
use airbyte_python_cdk.AsyncJob.Starting.Conserving.{
  at, failed_at, total, look_ahead-total, start_jobs-Conserves,
}
use airbyte_python_cdk.AsyncJob.Orchestrator.{
  handle_partition, process_partitions, process_running_partitions_and_yield_completed_ones,
  update_jobs_status, abort_all_running_jobs, on_failure, finish, after_update, continue, round,
  create_and_get_completed_partitions, init, remove_completed_jobs,
}

module _ {S : Type 0} where
  any-append_caught :
      (failures : List (Failure S)) (x : Exception)
      → any is_caught (failures ++ (caught x ∷ [])) ≡ true
  any-append_caught [] x = refl
  any-append_caught (f ∷ failures) x = ground (arith, any-append_caught failures x)

  any-append_not_completed :
      (failures : List (Failure S)) (slice : S)
      → any is_caught (failures ++ (not_completed slice ∷ [])) ≡ any is_caught failures
  any-append_not_completed [] slice = refl
  any-append_not_completed (f ∷ failures) slice =
      ground (arith, any-append_not_completed failures slice)

  nothing_coming : (p : S → Bool) (l : List S) → is_some_item l ≡ false → count p l ≡ 0
  nothing_coming p [] e = refl
  nothing_coming p (x ∷ l) e = cc

  nothing_running :
      (partitions : List (AsyncPartition S)) → is_none partitions ≡ true → partitions ≡ []
  nothing_running [] e = refl
  nothing_running (partition ∷ partitions) e = cc

module _ {S : Type 0} (api : Api S) (p : S → Bool) where
  -- The slices that are known, but for those that run.
  abbrev settled : Orchestrator S → ℕ
  settled o =
      count p (upcoming o.slice_iterator)
      + count (at p) o.yielded
      + count (failed_at p) o.non_breaking_exceptions

  -- A partition is yielded, goes on running or has failed.
  abbrev IsHandled :
      AsyncPartition S
      → List (AsyncPartition S)
      → Orchestrator S
      → List (AsyncPartition S) × Session × Orchestrator S
      → Type 0
  IsHandled partition current o (current', w, o') =
      (settled o' + count (at p) current'
        ≡ settled o + count (at p) current + (if p partition.stream_slice then 1 else 0))
      × (any is_caught o'.non_breaking_exceptions ≡ any is_caught o.non_breaking_exceptions)

  handle_error-IsHandled :
      (status : AsyncJobStatus) (partition : AsyncPartition S) (current : List (AsyncPartition S))
      (w : Session) (o : Orchestrator S)
      → IsHandled partition current o (handle_partition api status partition current w o)
  handle_error-IsHandled completed partition current w o =
      (omega (arith, count-append (at p) o.yielded (partition ∷ [])), refl)
  handle_error-IsHandled running partition current w o =
      (omega (arith, count-append (at p) current (partition ∷ [])), refl)
  handle_error-IsHandled _ partition current w o =
      elim (Bool-cases (has_reached_max_attempt partition.attempts_per_job)) [
        | inl reached ↦ rw reached (
          omega (
            arith,
            count-append (failed_at p) o.non_breaking_exceptions
                (not_completed partition.stream_slice ∷ []),
          ),
          any-append_not_completed o.non_breaking_exceptions partition.stream_slice,
        )
        | inr below ↦ rw below (omega arith, refl)
      ]

  process_partitions_lem :
      (partitions current : List (AsyncPartition S)) (w : Session) (o : Orchestrator S)
      → (total p (process_partitions api partitions current w o)
          ≡ settled o + count (at p) current + count (at p) partitions)
        × (any is_caught (process_partitions api partitions current w o).non_breaking_exceptions
            ≡ any is_caught o.non_breaking_exceptions)
  unfolding process_partitions
  process_partitions_lem [] current w o = (omega arith, refl)
  process_partitions_lem (partition ∷ partitions) current w o =
      let (statuses, w') = read_statuses api (jobs_of partition) w in
      let r = handle_partition api (status_of_all statuses) partition current w' o in
      let (moved, same) = handle_error-IsHandled (status_of_all statuses) partition current w' o in
      let (rest, same') =
        process_partitions_lem partitions r.0 (remove_completed_jobs api partition r.1) r.2 in
      (omega (arith, moved, rest), same' ∙ same)

  module _ (n : ℕ) where
    -- Unless an exception was caught, `n` slices that pass the test are known.
    abbrev IsKnown : Orchestrator S → Type 0
    IsKnown o = (any is_caught o.non_breaking_exceptions ≡ true) ⊎ (total p o ≡ n)

    abbrev pub IsAccounted : Ending S × Orchestrator S → Type 0
    IsAccounted (returned, o) = (o.non_breaking_exceptions ≡ []) × (count (at p) o.yielded ≡ n)
    IsAccounted (incomplete failures, o) =
        (any is_caught failures ≡ true)
        ⊎ (count (at p) o.yielded + count (failed_at p) failures ≡ n)
    IsAccounted (broken x, o) = (api.is_breaking_exception x ≡ true) × (o.running_partitions ≡ [])
    IsAccounted (out_of_fuel, o) = IsKnown o

    finish-IsAccounted :
        (failures : List (Failure S)) (o : Orchestrator S)
        → o.non_breaking_exceptions ≡ failures
        → is_some_item (upcoming o.slice_iterator) ≡ false
        → is_none o.running_partitions ≡ true
        → IsKnown o
        → IsAccounted (finish failures, o)
    finish-IsAccounted [] o e end idle (inl h) = (let uncaught = ap (any is_caught) e in cc)
    finish-IsAccounted [] o e end idle (inr h) = (
      e,
      omega (
        arith,
        h,
        nothing_coming p (upcoming o.slice_iterator) end,
        ap (count (at p)) (nothing_running o.running_partitions idle),
        ap (count (failed_at p)) e,
      ),
    )
    finish-IsAccounted (failure ∷ failures) o e end idle (inl h) = inl (rw e at h)
    finish-IsAccounted (failure ∷ failures) o e end idle (inr h) = inr (
        omega (
          arith,
          h,
          nothing_coming p (upcoming o.slice_iterator) end,
          ap (count (at p)) (nothing_running o.running_partitions idle),
          ap (count (failed_at p)) e,
        ))

    module _ (go_on : Orchestrator S → Ending S × Orchestrator S)
        (ih : (o : Orchestrator S) → IsKnown o → IsAccounted (go_on o)) where
      on_failure-IsAccounted :
          (x : Exception) (o : Orchestrator S) → IsAccounted (on_failure api go_on x o)
      unfolding abort_all_running_jobs
      on_failure-IsAccounted x o = elim (Bool-cases (api.is_breaking_exception x)) [
        | inl breaking ↦ rw breaking (breaking, refl)
        | inr other ↦ rw other (
            ih (record o { non_breaking_exceptions = o.non_breaking_exceptions ++ (caught x ∷ []) })
              (inl (any-append_caught o.non_breaking_exceptions x)))
      ]

      process-IsKnown :
          (o : Orchestrator S)
          → IsKnown o
          → IsKnown (process_running_partitions_and_yield_completed_ones api o)
      process-IsKnown o (inl h) =
          inl ((process_partitions_lem o.running_partitions [] o.session o).1 ∙ h)
      process-IsKnown o (inr h) =
          inr (omega (arith, h, (process_partitions_lem o.running_partitions [] o.session o).0))

      after_update-IsAccounted :
          (exception : Option Exception) (o : Orchestrator S)
          → IsKnown o
          → IsAccounted (after_update api go_on (exception, o))
      after_update-IsAccounted (some x) o h = on_failure-IsAccounted x o
      after_update-IsAccounted none o h =
          ih (process_running_partitions_and_yield_completed_ones api o) (process-IsKnown o h)

      continue-IsAccounted :
          (more : Bool) (o : Orchestrator S)
          → is_some_item (upcoming o.slice_iterator) ≡ more
          → IsKnown o
          → IsAccounted (continue api go_on (more, o))
      unfolding update_jobs_status
      continue-IsAccounted more o coming h =
          elim (Bool-cases (not more && is_none o.running_partitions)) [
            | inl over ↦ rw over (
                finish-IsAccounted o.non_breaking_exceptions o refl (ground (arith, coming))
                  (ground arith) h)
            | inr busy ↦ rw busy (after_update-IsAccounted _ _ h)
          ]

      round-IsAccounted :
          (exception : Option Exception) (o : Orchestrator S)
          → (exception ≡ none → IsKnown o)
          → IsAccounted (round api go_on (exception, o))
      round-IsAccounted (some x) o h = on_failure-IsAccounted x o
      round-IsAccounted none o h =
          continue-IsAccounted (look_ahead o).0 (look_ahead o).1
            (ap is_some_item (upcoming-has_next o.slice_iterator)
              ∙ sym (has_next_iff o.slice_iterator))
            (looked (h refl))
        where
          looked : IsKnown o → IsKnown (look_ahead o).1
          looked (inl caught_before) = inl caught_before
          looked (inr known) = inr (look_ahead-total api p o ∙ known)

    loop-IsAccounted :
        (fuel : ℕ) (o : Orchestrator S)
        → IsKnown o
        → IsAccounted (create_and_get_completed_partitions api fuel o)
    unfolding create_and_get_completed_partitions
    loop-IsAccounted zero o h = h
    loop-IsAccounted (suc fuel) o h =
        round-IsAccounted (create_and_get_completed_partitions api fuel) (loop-IsAccounted fuel)
          (start_jobs api o).0 (start_jobs api o).1 (known h)
      where
        known : IsKnown o → (start_jobs api o).0 ≡ none → IsKnown (start_jobs api o).1
        known (inl caught_before) e =
            inl (ap (any is_caught) (start_jobs-Conserves api p o).0 ∙ caught_before)
        known (inr all_known) e = inr ((start_jobs-Conserves api p o).1 e ∙ all_known)

-- The loop over a list of slices, in every API, with any tracker and after any number of rounds: if it
-- returns, the slices of the yielded partitions are the given ones, each as often; if it raises what it
-- collected, so are these with the slices of the partitions that were not completed, unless an exception
-- was caught in a round; another exception is one that breaks, and then no partition is left running; and
-- until then, unless an exception was caught, each slice is still to come, running, yielded or failed.
pub create_and_get_completed_partitions-IsAccounted :
    {S : Type 0} (api : Api S) (slices : List S) (w : Session) (fuel : ℕ) (p : S → Bool)
    → IsAccounted api p
        (count p slices)
        (create_and_get_completed_partitions api fuel (init slices w))
unfolding init
create_and_get_completed_partitions-IsAccounted api slices w fuel p =
    loop-IsAccounted api p (count p slices) fuel (init slices w) (inr (omega arith))
