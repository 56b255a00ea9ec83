-- ===== src/HttpClient.antt =====
-- airbyte_cdk/sources/streams/http/http_client.py: what HttpClient does with one request, and the count of
-- its attempts. `Q` is a prepared request, a key by its identity, and `R` a response of the requests
-- library; the answer of the session is an argument. Messages and the log are not modelled, nor is the
-- authenticator that signs a request again.
pub mod Errors
pub mod Handled
pub mod Attempts
pub mod Filters
pub mod Answers
mod Tests
use airbyte_python_cdk.Prelude.{
  ℕ, suc, ◌+◌, Bool, true, false, not, Option, none, some, List, [], ◌∷◌, eqb, if◌then◌else◌,
  Hashable,
}
use airbyte_python_cdk.Python.Dict
use airbyte_python_cdk.Python.Exceptions.{Exception, Result, ok, raise, key_error, ◌>>=◌}
use airbyte_python_cdk.Python.Dict.{Dict, get, set, delete}
use airbyte_python_cdk.HttpClient.Errors.{
  ErrorResolution, FailureType, ResponseAction, success, retry, fail, ignore, rate_limited,
  Received, response, request_exception, Responses,
}

-- How a call of `_send` ends: a response, which is missing where an exception is ignored, or an exception.
pub data Outcome (R : Type 0) : Type 0 where
  returned : Option R → Outcome R
  traced_error : Option FailureType → Outcome R
  user_defined_backoff : ℕ → Received R → Outcome R
  rate_limit_backoff : Option (Received R) → Outcome R
  default_backoff : Received R → Outcome R
  http_error : R → Outcome R
  raised : Exception → Outcome R

-- What sending a request gives: what is received, or an exception that is no RequestException, such as
-- the CallRateLimitHit of a limiter, which `_send` does not catch.
pub data Answer (R : Type 0) : Type 0 where
  answered : Received R → Answer R
  escaped : Exception → Answer R

-- `_ACTIONS_TO_RETRY_ON`
unfoldable pub is_to_retry : Option ResponseAction → Bool
is_to_retry (some retry) = true
is_to_retry (some rate_limited) = true
is_to_retry _ = false

-- A strategy gives a time, or None, from what was received and the number of the attempt, or raises; a
-- time is a whole number of its unit.
abbrev pub BackoffStrategy : Type 0 → Type 0
BackoffStrategy R = Received R → ℕ → Result (Option ℕ)

abbrev pub time_or_later : Option ℕ → Result (Option ℕ) → Result (Option ℕ)
time_or_later none later = later
time_or_later (some time) later = if eqb time 0 then later else ok (some time)

-- The first time that is there and not 0. Each strategy is asked with `_request_attempt_count[request]`,
-- a KeyError where there is no count.
unfoldable pub user_defined_backoff_time :
    {R : Type 0} → List (BackoffStrategy R) → Received R → Option ℕ → Result (Option ℕ)
user_defined_backoff_time [] received count = ok none
user_defined_backoff_time (strategy ∷ strategies) received none = raise key_error
user_defined_backoff_time (strategy ∷ strategies) received (some attempt) =
    let later = user_defined_backoff_time strategies received (some attempt) in
    strategy received attempt >>= λ time. time_or_later time later

abbrev pub received_response : {R : Type 0} → Received R → Option R
received_response (response r) = some r
received_response (request_exception c) = none

module _ {R : Type 0} (responses : Responses R) where
  -- `response or exc`: a response that is not ok is false.
  abbrev pub response_or_exc : Received R → Option (Received R)
  response_or_exc (response r) = if responses.ok r then some (response r) else none
  response_or_exc (request_exception c) = some (request_exception c)

  abbrev pub backoff : Result (Option ℕ) → Bool → Received R → Outcome R
  backoff (raise x) retry_endlessly received = raised x
  backoff (ok (some time)) retry_endlessly received = user_defined_backoff time received
  backoff (ok none) retry_endlessly received =
      if retry_endlessly
      then rate_limit_backoff (response_or_exc received)
      else default_backoff received

  -- `elif response`: again only a response that is ok
  abbrev pub check_status : Received R → Outcome R
  check_status (request_exception c) = returned none
  check_status (response r) =
      if responses.ok r
      then (if responses.raises_for_status r then http_error r else returned (some r))
      else returned (some r)

  abbrev pub handle_action :
      List (BackoffStrategy R)
      → Bool
      → Option ResponseAction
      → Option FailureType
      → Received R
      → Option ℕ
      → Outcome R
  handle_action strategies exit_on_rate_limit (some fail) failure_type received count =
      traced_error failure_type
  handle_action strategies exit_on_rate_limit (some ignore) failure_type received count =
      returned (received_response received)
  handle_action strategies exit_on_rate_limit (some retry) failure_type received count =
      backoff (user_defined_backoff_time strategies received count) false received
  handle_action strategies exit_on_rate_limit (some rate_limited) failure_type received count =
      backoff (user_defined_backoff_time strategies received count) (not exit_on_rate_limit)
        received
  handle_action strategies exit_on_rate_limit (some success) failure_type received count =
      check_status received
  handle_action strategies exit_on_rate_limit none failure_type received count =
      check_status received

  -- What `_handle_error_resolution` raises, or `_send` returns; `count` is that of the request after a
  -- request that is not retried was evicted.
  unfoldable pub handle_error_resolution :
      List (BackoffStrategy R) → Bool → ErrorResolution → Received R → Option ℕ → Outcome R
  handle_error_resolution strategies exit_on_rate_limit resolution received count =
      handle_action strategies exit_on_rate_limit resolution.response_action resolution.failure_type
        received count

-- The attempts of a request with the one that starts.
abbrev pub count_attempt : Option ℕ → ℕ
count_attempt none = 1
count_attempt (some attempts) = suc attempts

module _ {Q : Type 0} ⦃key : Hashable Q⦄ where
  -- `_request_attempt_count` before the request is sent
  unfoldable pub start_attempt : Q → Dict Q ℕ → Dict Q ℕ
  start_attempt request counts = set counts request (count_attempt (get counts request))

  -- `_evict_key`
  unfoldable pub evict_key : Q → Dict Q ℕ → Dict Q ℕ
  evict_key request counts = delete counts request

  unfoldable pub counts_after : Q → Option ResponseAction → Dict Q ℕ → Dict Q ℕ
  counts_after request action counts =
      if is_to_retry action then counts else evict_key request counts

  -- `_send`, when the session gives `answer`
  unfoldable pub send :
      {R : Type 0}
      → Responses R
      → (Received R → ErrorResolution)
      → List (BackoffStrategy R)
      → Bool
      → Q
      → Answer R
      → Dict Q ℕ
      → Outcome R × Dict Q ℕ
  unfolding start_attempt counts_after
  send responses interpret_response strategies exit_on_rate_limit request (escaped x) counts =
      (raised x, start_attempt request counts)
  send responses interpret_response strategies exit_on_rate_limit request (answered received)
        counts =
      let resolution = interpret_response received in
      let counts' =
        counts_after request resolution.response_action (start_attempt request counts) in
      (
        handle_error_resolution responses strategies exit_on_rate_limit resolution received
            (get counts' request),
        counts',
      )
