-- ===== src/CallRate/Budget.antt =====
-- APIBudget and HttpAPIBudget of airbyte_cdk/sources/streams/call_rate.py, over policies of every
-- kind. `Q` is the type of requests, `B` that of the buckets of pyrate_limiter.
use airbyte_python_cdk.Prelude.{
  ℕ, zero, suc, ◌+◌, ◌-◌, Bool, true, false, Option, none, some, List, [], ◌∷◌, ltb, min,
  if◌then◌else◌,
}
use airbyte_python_cdk.Python.Exceptions.{Result, ok, raise, value_error, call_rate_limit_hit}
use airbyte_python_cdk.CallRate.FixedWindow
use airbyte_python_cdk.CallRate.FixedWindow.{
  Acquisition, acquired, rejected, limit_hit, matches, FixedWindowCallRatePolicy,
}

pub record MovingWindowCallRatePolicy (Q B : Type 0) : Type 0 where
  pub bucket : B
  pub matchers : List (Q → Bool)

-- What pyrate_limiter does with a bucket at a time: it takes a weight or says how long to wait.
pub record Limiter (B : Type 0) : Type 0 where
  pub limiter_try_acquire : B → ℕ → ℕ → Acquisition × B
  pub bucket_count : B → ℕ
  pub first_limit : B → ℕ
  pub put : B → ℕ → ℕ → B

-- UnlimitedCallRatePolicy is its matchers.
pub data Policy (Q B : Type 0) : Type 0 where
  unlimited : List (Q → Bool) → Policy Q B
  fixed_window : FixedWindowCallRatePolicy Q → Policy Q B
  moving_window : MovingWindowCallRatePolicy Q B → Policy Q B

-- The clock as the attempts of one call see it: how long an attempt takes between its two readings,
-- and how much longer than asked the sleep after it takes.
pub record Clock : Type 0 where
  pub lag : ℕ → ℕ
  pub oversleep : ℕ → ℕ

-- `items_to_add` is the truth value of a comparison, as a number.
unfoldable pub items_to_add : {B : Type 0} → Limiter B → B → ℕ
items_to_add limiter bucket =
    if ltb (limiter.bucket_count bucket) (limiter.first_limit bucket) then 1 else 0

-- The time to sleep after a hit.
abbrev pub time_to_wait : Option ℕ → ℕ → ℕ
time_to_wait none wait = wait
time_to_wait (some timeout) wait = min timeout wait

abbrev raise_last : Bool → Result (Unit {0})
raise_last true = raise call_rate_limit_hit
raise_last false = ok tt

module _ {Q B : Type 0} (limiter : Limiter B) where
  open limiter use {limiter_try_acquire, put}

  abbrev pub policy_matches : Policy Q B → Q → Bool
  policy_matches (unlimited matchers) request = matches matchers request
  policy_matches (fixed_window p) request = matches p.matchers request
  policy_matches (moving_window p) request = matches p.matchers request

  moving_acquire : MovingWindowCallRatePolicy Q B → Acquisition × B → Acquisition × Policy Q B
  moving_acquire p (result, bucket) = (result, moving_window (record p { bucket = bucket }))

  unfoldable pub try_acquire : ℕ → ℕ → Q → ℕ → Policy Q B → Acquisition × Policy Q B
  unfolding moving_acquire
  try_acquire now later request weight (unlimited matchers) = (acquired, unlimited matchers)
  try_acquire now later request weight (fixed_window p) =
      let (result, p') = FixedWindow.try_acquire now later request weight p in
      (result, fixed_window p')
  try_acquire now later request weight (moving_window p) =
      if matches p.matchers request
      then moving_acquire p (limiter_try_acquire p.bucket now weight)
      else (rejected, moving_window p)

  unfoldable pub moving_update :
      ℕ → Option ℕ → Option ℕ → MovingWindowCallRatePolicy Q B → MovingWindowCallRatePolicy Q B
  unfolding items_to_add
  moving_update now (some zero) none p =
      if ltb 0 (items_to_add limiter p.bucket)
      then record p { bucket = put p.bucket now (items_to_add limiter p.bucket) }
      else p
  moving_update now _ _ p = p

  unfoldable pub update : ℕ → Option ℕ → Option ℕ → Policy Q B → Policy Q B
  update now available reset_ts (unlimited matchers) = unlimited matchers
  update now available reset_ts (fixed_window p) =
      fixed_window (FixedWindow.update now available reset_ts p)
  update now available reset_ts (moving_window p) =
      moving_window (moving_update now available reset_ts p)

  -- What follows an attempt: a hit limit raises, or sleeps and tries again.
  unfoldable pub after_attempt :
      Bool
      → Acquisition
      → Policy Q B
      → (ℕ → Result (Unit {0}) × Policy Q B)
      → Result (Unit {0}) × Policy Q B
  after_attempt block acquired policy retry = (ok tt, policy)
  after_attempt block rejected policy retry = (raise value_error, policy)
  after_attempt true (limit_hit wait) policy retry = retry wait
  after_attempt false (limit_hit wait) policy retry = (raise call_rate_limit_hit, policy)

  -- The loop of `_do_acquire` with the attempts that are left; `hit` says whether there is a last
  -- exception, the time is that at which the attempt starts.
  unfoldable pub attempt :
      Clock → Q → Bool → Option ℕ → ℕ → Bool → ℕ → Policy Q B → Result (Unit {0}) × Policy Q B
  attempt clock request block timeout zero hit now policy = (raise_last hit, policy)
  attempt clock request block timeout (suc left) hit now policy =
      let later = now + clock.lag left in
      let (result, policy') = try_acquire now later request 1 policy in
      after_attempt block result policy' (λ wait.
        attempt clock request block timeout left true
          (later + time_to_wait timeout wait + clock.oversleep left) policy')

  -- `_do_acquire`: the attempts are `range(1, self._maximum_attempts_to_acquire)`.
  unfoldable pub do_acquire :
      Clock → ℕ → Q → Bool → Option ℕ → ℕ → Policy Q B → Result (Unit {0}) × Policy Q B
  do_acquire clock maximum_attempts_to_acquire request block timeout now policy =
      attempt clock request block timeout (maximum_attempts_to_acquire - 1) false now policy

  -- `get_matching_policy` with the change of the policy that it finds, in its place.
  unfoldable pub with_matching_policy :
      {A : Type 0}
      → A
      → (Policy Q B → A × Policy Q B)
      → Q
      → List (Policy Q B)
      → A × List (Policy Q B)
  with_matching_policy unmatched change request [] = (unmatched, [])
  with_matching_policy unmatched change request (policy ∷ policies) =
      let (there, rest) = with_matching_policy unmatched change request policies in
      let (here, policy') = change policy in
      if policy_matches policy request then (here, policy' ∷ policies) else (there, policy ∷ rest)

  unfoldable pub acquire_call :
      Clock
      → ℕ
      → Q
      → Bool
      → Option ℕ
      → ℕ
      → List (Policy Q B)
      → Result (Unit {0}) × List (Policy Q B)
  acquire_call clock maximum_attempts_to_acquire request block timeout now policies =
      with_matching_policy (ok tt)
        (do_acquire clock maximum_attempts_to_acquire request block timeout now) request policies

  -- `update_from_response` of HttpAPIBudget.
  unfoldable pub update_from_response :
      ℕ → Q → Option ℕ → Option ℕ → List (Policy Q B) → List (Policy Q B)
  update_from_response now request available_calls reset_ts policies =
      (with_matching_policy tt (λ p. (tt, update now available_calls reset_ts p)) request
        policies).1

-- `get_calls_left_from_response`, from the value of the header, empty or missing as `none`.
unfoldable pub get_calls_left_from_response : Option ℕ → (ℕ → Bool) → ℕ → Option ℕ
get_calls_left_from_response (some left) is_ratelimit_hit status_code = some left
get_calls_left_from_response none is_ratelimit_hit status_code =
    if is_ratelimit_hit status_code then some 0 else none
