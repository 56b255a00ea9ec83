-- ===== src/HttpClient/Answers.antt =====
-- What HttpClient makes of each response with HttpStatusErrorHandler and the default mapping.
use airbyte_python_cdk.Prelude.{
  ℕ, zero, suc, Option, Bool, not, none, some, List, [], ◌∷◌, any, eqb, if◌then◌else◌, ◌&&◌,
  number_key,
}
use airbyte_python_cdk.Python.Exceptions.{Result, ok, raise}
use airbyte_python_cdk.Python.Dict.{Dict}
use airbyte_python_cdk.HttpClient.Errors.{response, Received, system_error, config_error}
use airbyte_python_cdk.HttpClient.{
  Outcome, traced_error, user_defined_backoff, rate_limit_backoff, default_backoff, BackoffStrategy,
  raised,
}

abbrev pub is_one_of : ℕ → List ℕ → Bool
is_one_of n numbers = any (λ m. eqb m n) numbers

-- What a strategy says, or the strategies behind it
abbrev time_of : Result (Option ℕ) → Result (Option ℕ) → Result (Option ℕ)
time_of (raise x) later = raise x
time_of (ok none) later = later
time_of (ok (some zero)) later = later
time_of (ok (some (suc time))) later = ok (some (suc time))

-- The first time that a strategy gives and that is not 0
abbrev pub first_time : {R : Type 0} → List (BackoffStrategy R) → Received R → ℕ → Result (Option ℕ)
first_time [] received attempt = ok none
first_time (strategy ∷ strategies) received attempt =
    time_of (strategy received attempt) (first_time strategies received attempt)

-- The exception after which the request is sent again, unless a strategy raises
abbrev pub back_off : {R : Type 0} → Bool → R → Result (Option ℕ) → Outcome R
back_off is_rate_limit r (raise x) = raised x
back_off is_rate_limit r (ok (some time)) = user_defined_backoff time (response r)
back_off is_rate_limit r (ok none) =
    if is_rate_limit then rate_limit_backoff none else default_backoff (response r)

-- An error status: the request fails for good, or is sent again.
abbrev pub answer_to_error : {R : Type 0} → List (BackoffStrategy R) → Bool → ℕ → R → ℕ → Outcome R
answer_to_error strategies exit_on_rate_limit status r attempt =
    if is_one_of status (400 ∷ 404 ∷ 405 ∷ [])
    then traced_error (some system_error)
    else if is_one_of status (401 ∷ 403 ∷ [])
    then traced_error (some config_error)
    else back_off (eqb 429 status && not exit_on_rate_limit) r
        (first_time strategies (response r) attempt)
