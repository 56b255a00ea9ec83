-- ===== src/AsyncJob/Starting/Conserving.antt =====
-- Starting jobs moves slices from the iterator to the running partitions and loses none.
use airbyte_python_cdk.Prelude.{
  ℕ, zero, suc, ◌+◌, ◌≡◌, refl, ap, ◌∙◌, subst, Bool, false, Option, none, some, List, [], ◌∷◌,
  ◌++◌, count, count-append, if◌then◌else◌, not, ◌&&◌, length, arith, Bool-cases, Option-cases, inl,
  inr,
}
use airbyte_python_cdk.Python.Exceptions.{Exception}
use airbyte_python_cdk.AsyncJob.Api.{
  Job, started, Api, Session, AsyncPartition, Failure, caught, not_completed, Orchestrator, Started,
  job, limit_reached, raised,
}
use airbyte_python_cdk.AsyncJob.Lookahead.{
  next, upcoming, coming, IsNext, next-IsNext, upcoming-has_next, add_at_the_beginning,
}
use airbyte_python_cdk.AsyncJob.Starting.{
  start_job, replace_with, is_job, replace_jobs, replace_failed_jobs, replace_all_failed_jobs,
  new_partition, look_ahead, after_start, start_slices, is_none, after_replacing, start_jobs,
}

module _ {S : Type 0} where
  -- The slice of a partition, or of a failure, passes a test.
  abbrev pub at : (S → Bool) → AsyncPartition S → Bool
  at p partition = p partition.stream_slice

  abbrev pub failed_at : (S → Bool) → Failure S → Bool
  failed_at p (caught x) = false
  failed_at p (not_completed slice) = p slice

  -- How many slices that pass a test an orchestrator knows of: those to come, those that run, those
  -- that were yielded and those that failed.
  abbrev pub total : (S → Bool) → Orchestrator S → ℕ
  total p o =
      count p (upcoming o.slice_iterator)
      + count (at p) o.running_partitions
      + count (at p) o.yielded
      + count (failed_at p) o.non_breaking_exceptions

  count-coming :
      (p : S → Bool) (x : S) (buffer iterator : List S)
      → count p (coming buffer (x ∷ iterator))
        ≡ (if p x then 1 else 0) + count p (coming buffer iterator)
  count-coming p x [] iterator = refl
  count-coming p x (y ∷ buffer) iterator = omega (
    arith,
    count-coming p y buffer (x ∷ iterator),
    count-coming p x buffer iterator,
    count-coming p y buffer iterator,
  )

module _ {S : Type 0} (api : Api S) where
  replace_with-stream_slice :
      (result : Started × Session) (old : Job) (partition : AsyncPartition S)
      → (replace_with api result old partition).1.stream_slice ≡ partition.stream_slice
  replace_with-stream_slice (limit_reached, w) old partition = refl
  replace_with-stream_slice (raised x, w) old partition = refl
  replace_with-stream_slice (job j, w) old partition = refl

  replace_jobs-stream_slice :
      (jobs : List Job) (last : Job) (partition : AsyncPartition S) (w : Session)
      → (replace_jobs api jobs last partition w).1.stream_slice ≡ partition.stream_slice
  unfolding replace_jobs
  replace_jobs-stream_slice [] last partition w = refl
  replace_jobs-stream_slice (old ∷ jobs) last partition w =
      let r =
        replace_with api (start_job api partition.stream_slice (some (api.api_job_id old)) w) old
          partition in
      let kept =
        replace_with-stream_slice
          (start_job api partition.stream_slice (some (api.api_job_id old)) w) old partition in
      elim (Bool-cases (is_job r.0)) [
        | inl e ↦ rw e (replace_jobs-stream_slice jobs old r.1 r.2 ∙ kept)
        | inr e ↦ rw e kept
      ]

  replace_all-count :
      (p : S → Bool) (partitions : List (AsyncPartition S)) (w : Session)
      → count (at p) (replace_all_failed_jobs api partitions w).1 ≡ count (at p) partitions
  unfolding replace_all_failed_jobs replace_failed_jobs
  replace_all-count p [] w = refl
  replace_all-count p (partition ∷ partitions) w =
      let r = replace_failed_jobs api partition w in
      let kept : r.1.stream_slice ≡ partition.stream_slice =
        replace_jobs-stream_slice _ (started 0) partition _ in
      elim (Bool-cases (is_job r.0)) [
        | inl e ↦ rw (e, kept) (omega (arith, replace_all-count p partitions r.2))
        | inr e ↦ rw (e, kept) refl
      ]

  -- The call kept the failures, and if it did not raise, `n` slices that pass the test are known.
  abbrev pub Conserves :
      (S → Bool) → ℕ → List (Failure S) → Option Exception × Orchestrator S → Type 0
  Conserves p n failures (exception, o) =
      (o.non_breaking_exceptions ≡ failures) × (exception ≡ none → total p o ≡ n)

  pub look_ahead-total : (p : S → Bool) (o : Orchestrator S) → total p (look_ahead o).1 ≡ total p o
  look_ahead-total p o = rw (upcoming-has_next o.slice_iterator) refl

  after_start-Conserves :
      (p : S → Bool) (go_on : Orchestrator S → Option Exception × Orchestrator S)
      → ((o : Orchestrator S) → Conserves p (total p o) o.non_breaking_exceptions (go_on o))
      → (result : Started) (slice : S) (o : Orchestrator S)
      → Conserves p
          ((if p slice then 1 else 0) + total p o)
          o.non_breaking_exceptions
          (after_start api go_on result slice o)
  unfolding add_at_the_beginning
  after_start-Conserves p go_on ih limit_reached slice o = (
    refl,
    λ e. omega (arith, count-coming p slice o.slice_iterator.buffer o.slice_iterator.iterator),
  )
  after_start-Conserves p go_on ih (raised x) slice o = (refl, λ e. cc)
  after_start-Conserves p go_on ih (job j) slice o =
      let o' : Orchestrator S = record o {
        running_partitions = o.running_partitions ++ (new_partition j slice ∷ []);
      } in
      let added = count-append (at p) o.running_partitions (new_partition j slice ∷ []) in
      let more : total p o' ≡ (if p slice then 1 else 0) + total p o = omega (arith, added) in
      let looked = look_ahead-total p o' in
      elim (Bool-cases api.has_bulk_parent) [
        | inl bulk ↦ elim (Bool-cases (look_ahead o').0) [
          | inl coming ↦ rw (bulk, coming) (refl, λ e. looked ∙ more)
          | inr last ↦
              rw (bulk, last)
                ((ih (look_ahead o').1).0, λ e. (ih (look_ahead o').1).1 e ∙ looked ∙ more)
        ]
        | inr plain ↦ rw plain ((ih o').0, λ e. (ih o').1 e ∙ more)
      ]

  start_slices-Conserves :
      (p : S → Bool) (n : ℕ) (o : Orchestrator S)
      → Conserves p (total p o) o.non_breaking_exceptions (start_slices api n o)
  unfolding start_slices
  start_slices-Conserves p zero o = (refl, λ e. refl)
  start_slices-Conserves p (suc n) o = elim (Option-cases (next o.slice_iterator)) [
    | inl end ↦ rw (end, start_slices) (refl, λ e. refl)
    | inr ((slice, iterator), e) ↦
        let r = start_job api slice none o.session in
        let o' : Orchestrator S = record o { slice_iterator = iterator; session = r.1 } in
        let taken : upcoming o.slice_iterator ≡ slice ∷ upcoming iterator =
          subst (IsNext (upcoming o.slice_iterator)) e (next-IsNext o.slice_iterator) in
        let before : (if p slice then 1 else 0) + total p o' ≡ total p o =
          omega (arith, ap (count p) taken) in
        let (kept, conserved) =
          after_start-Conserves p (start_slices api n) (start_slices-Conserves p n) r.0 slice o' in
        rw (e, start_slices) (kept, λ f. conserved f ∙ before)
  ]

  after_replacing-Conserves :
      (p : S → Bool) (result : Started) (o : Orchestrator S)
      → Conserves p (total p o) o.non_breaking_exceptions (after_replacing api result o)
  after_replacing-Conserves p limit_reached o = (refl, λ e. refl)
  after_replacing-Conserves p (raised x) o = (refl, λ e. cc)
  after_replacing-Conserves p (job j) o =
      let looked = look_ahead-total p o in
      elim (Bool-cases (api.has_bulk_parent && not (is_none o.running_partitions))) [
        | inl child ↦ elim (Bool-cases (look_ahead o).0) [
          | inl more ↦ rw (child, more) (refl, λ e. looked)
          | inr last ↦
              let (kept, conserved) =
                start_slices-Conserves p (length (upcoming (look_ahead o).1.slice_iterator))
                  (look_ahead o).1 in
              rw (child, last) (kept, λ e. conserved e ∙ looked)
        ]
        | inr alone ↦ rw alone (start_slices-Conserves p (length (upcoming o.slice_iterator)) o)
      ]

  -- A call of `_start_jobs` keeps the failures, and if it does not raise, all slices.
  pub start_jobs-Conserves :
      (p : S → Bool) (o : Orchestrator S)
      → Conserves p (total p o) o.non_breaking_exceptions (start_jobs api o)
  unfolding start_jobs
  start_jobs-Conserves p o =
      let r = replace_all_failed_jobs api o.running_partitions o.session in
      let o' : Orchestrator S = record o { running_partitions = r.1; session = r.2 } in
      let same : total p o' ≡ total p o =
        omega (arith, replace_all-count p o.running_partitions o.session) in
      let (kept, conserved) = after_replacing-Conserves p r.0 o' in (kept, λ e. conserved e ∙ same)
