-- ===== src/AsyncJob/Partition.antt =====
-- AsyncPartition of airbyte_cdk/sources/declarative/async_job/job_orchestrator.py: the jobs of a
-- slice with their attempts. `J` is the type of jobs, told apart by identity.
use airbyte_python_cdk.Prelude.{
  ℕ, ◌+◌, ◌-◌, ◌*◌, ◌≤◌, ◌≡◌, refl, Bool, none, some, List, [], ◌∷◌, leb, if◌then◌else◌, Hashable,
  length, ◌==◌, any, Bool-cases, Option-cases, inl, inr, arith,
}
use airbyte_python_cdk.Python.Exceptions.{Result, ok, raise, value_error, ◌>>=◌, ok_of_bind}
use airbyte_python_cdk.Python.Dict
use airbyte_python_cdk.Python.Dict.{Dict}

abbrev pub max_number_of_attempts : ℕ
max_number_of_attempts = 3

module _ {J : Type 0} ⦃key : Hashable J⦄ where
  unfoldable pub set_all : Dict J ℕ → List J → ℕ → Dict J ℕ
  set_all attempts [] n = attempts
  set_all attempts (job ∷ jobs) n = set_all (Dict.set attempts job n) jobs n

  -- `__init__`
  unfoldable pub init : List J → Dict J ℕ
  unfolding set_all
  init jobs = set_all [] jobs 1

  unfoldable pub has_reached_max_attempt : Dict J ℕ → Bool
  has_reached_max_attempt attempts = any (λ entry. leb max_number_of_attempts entry.1) attempts

  -- The attempts are changed by a failing replacement too: the job is gone.
  unfoldable pub replace_job : J → List J → Dict J ℕ → Result (Unit {0}) × Dict J ℕ
  unfolding set_all
  replace_job job_to_replace new_jobs attempts =
      let rest = Dict.delete attempts job_to_replace in
      elim (Dict.get attempts job_to_replace) [
        | none ↦ (raise value_error, rest)
        | some n ↦
            if leb max_number_of_attempts n
            then (raise value_error, rest)
            else (ok tt, set_all rest new_jobs (n + 1))
      ]

  -- How many attempts the jobs have left.
  abbrev pub attempts_left : Dict J ℕ → ℕ
  attempts_left [] = 0
  attempts_left (entry ∷ attempts) = max_number_of_attempts - entry.1 + attempts_left attempts

  -- Replacements, each of a job by one job; an exception ends them.
  abbrev pub replace_each : List (J × J) → Dict J ℕ → Result (Unit {0})
  replace_each [] attempts = ok tt
  replace_each (pair ∷ pairs) attempts =
      let (result, attempts') = replace_job pair.0 (pair.1 ∷ []) attempts in
      result >>= (λ _. replace_each pairs attempts')

  attempts_left-set :
      (m : Dict J ℕ) (job : J) (n : ℕ)
      → attempts_left (Dict.set m job n) ≤ attempts_left m + (3 - n)
  unfolding Dict.set
  attempts_left-set [] job n = omega arith
  attempts_left-set ((j, k) ∷ m) job n = elim (Bool-cases (j == job)) [
    | inl same ↦ rw same (omega arith)
    | inr other ↦ rw other (omega (arith, attempts_left-set m job n))
  ]

  attempts_left-delete_all :
      (m : Dict J ℕ) (job : J) → attempts_left (Dict.delete m job) ≤ attempts_left m
  unfolding Dict.delete
  attempts_left-delete_all [] job = omega arith
  attempts_left-delete_all ((j, k) ∷ m) job = elim (Bool-cases (j == job)) [
    | inl same ↦ rw same (omega (arith, attempts_left-delete_all m job))
    | inr other ↦ rw other (omega (arith, attempts_left-delete_all m job))
  ]

  attempts_left-delete :
      (m : Dict J ℕ) (job : J) (n : ℕ)
      → Dict.get m job ≡ some n
      → attempts_left (Dict.delete m job) + (3 - n) ≤ attempts_left m
  unfolding Dict.delete Dict.get
  attempts_left-delete [] job n h = cc
  attempts_left-delete ((j, k) ∷ m) job n h = elim (Bool-cases (j == job)) [
    | inl same ↦
        let e : some k ≡ some n = rw same at h in
        let e' : k ≡ n = cc in rw (same, e') (omega (arith, attempts_left-delete_all m job))
    | inr other ↦ rw other (omega (arith, attempts_left-delete m job n (rw other at h)))
  ]

  attempts_left-replace :
      (job new_job : J) (m : Dict J ℕ)
      → (replace_job job (new_job ∷ []) m).0 ≡ ok tt
      → attempts_left (replace_job job (new_job ∷ []) m).1 + 1 ≤ attempts_left m
  unfolding replace_job set_all
  attempts_left-replace job new_job m h = elim (Option-cases (Dict.get m job)) [
    | inl missing ↦ absurd (no_error refl (rw (missing, replace_job) at h))
    | inr (n, e) ↦ elim (Bool-cases (leb 3 n)) [
      | inl reached ↦ absurd (no_error refl (rw (e, replace_job, reached) at h))
      | inr below ↦
          let left = attempts_left-delete m job n e in
          let added = attempts_left-set (Dict.delete m job) new_job (n + 1) in
          rw (e, replace_job, below) (ground (arith, below, left, added))
    ]
  ]
    where
      no_error : {r : Result (Unit {0})} → r ≡ raise value_error → r ≡ ok tt → ⊥
      no_error e h = cc

  replace_each_bound :
      (pairs : List (J × J)) (m : Dict J ℕ)
      → replace_each pairs m ≡ ok tt
      → length pairs ≤ attempts_left m
  replace_each_bound [] m h = omega arith
  replace_each_bound (pair ∷ pairs) m h =
      let (value, first, rest) =
        ok_of_bind (replace_job pair.0 (pair.1 ∷ []) m).0
          (λ _. replace_each pairs (replace_job pair.0 (pair.1 ∷ []) m).1) h in
      omega (
        arith,
        attempts_left-replace pair.0 pair.1 m first,
        replace_each_bound pairs (replace_job pair.0 (pair.1 ∷ []) m).1 rest,
      )

  attempts_left-set_all :
      (jobs : List J) (m : Dict J ℕ)
      → attempts_left (set_all m jobs 1) ≤ attempts_left m + 2 * length jobs
  unfolding set_all
  attempts_left-set_all [] m = omega arith
  attempts_left-set_all (job ∷ jobs) m =
      omega (arith, attempts_left-set m job 1, attempts_left-set_all jobs (Dict.set m job 1))

  -- A new partition lets each of its jobs be replaced twice at most: a sequence of replacements by
  -- one job each that does not raise is no longer than twice the number of its jobs.
  pub replacements_bound :
      (jobs : List J) (pairs : List (J × J))
      → replace_each pairs (init jobs) ≡ ok tt
      → length pairs ≤ 2 * length jobs
  unfolding init
  replacements_bound jobs pairs h =
      omega (arith, replace_each_bound pairs (set_all [] jobs 1) h, attempts_left-set_all jobs [])
