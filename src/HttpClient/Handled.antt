-- ===== src/HttpClient/Handled.antt =====
-- The count with which HttpClient handles what it received.
use airbyte_python_cdk.Prelude.{
  ℕ, Bool, true, false, Option, none, some, List, if◌then◌else◌, Hashable, ◌==◌, ◌≡◌, refl, ap, ◌∙◌,
  arith, Bool-cases, inl, inr,
}
use airbyte_python_cdk.Python.Dict.{Dict, get, get-set, get-delete}
use airbyte_python_cdk.HttpClient.Errors.{
  ErrorResolution, Received, Responses, ResponseAction, FailureType, success, retry, fail, ignore,
  rate_limited,
}
use airbyte_python_cdk.HttpClient.{
  answered, BackoffStrategy, is_to_retry, count_attempt, start_attempt, evict_key, counts_after,
  send, handle_error_resolution, handle_action,
}

pub get-start_attempt :
    {Q : Type 0} ⦃key : Hashable Q⦄ (other request : Q) (counts : Dict Q ℕ)
    → get (start_attempt other counts) request
      ≡ (if other == request then some (count_attempt (get counts other)) else get counts request)
unfolding start_attempt
get-start_attempt other request counts =
    get-set counts other request (count_attempt (get counts other))

pub get-counts_after :
    {Q : Type 0} ⦃key : Hashable Q⦄ (other request : Q) (action : Option ResponseAction)
    (counts : Dict Q ℕ)
    → get (counts_after other action (start_attempt other counts)) request ≡ (
        if other == request
        then (if is_to_retry action then some (count_attempt (get counts other)) else none)
        else get counts request)
unfolding counts_after evict_key
get-counts_after other request action counts = elim (Bool-cases (is_to_retry action)) [
  | inl e ↦ rw e (get-start_attempt other request counts)
  | inr e ↦
      rw
        (
          e,
          get-delete (start_attempt other counts) other request,
          get-start_attempt other request counts,
        )
        ground arith
]

module _ {R : Type 0} (responses : Responses R) (strategies : List (BackoffStrategy R))
    (exit_on_rate_limit : Bool) where
  -- Where the action is not to retry, nothing asks for the count.
  handle_action-count :
      (action : Option ResponseAction) (failure_type : Option FailureType) (received : Received R)
      (count count' : Option ℕ)
      → is_to_retry action ≡ false
      → handle_action responses strategies exit_on_rate_limit action failure_type received count
        ≡ handle_action responses strategies exit_on_rate_limit action failure_type received count'
  unfolding is_to_retry
  handle_action-count none failure_type received count count' e = refl
  handle_action-count (some retry) failure_type received count count' e = cc
  handle_action-count (some rate_limited) failure_type received count count' e = cc
  handle_action-count (some success) failure_type received count count' e = refl
  handle_action-count (some fail) failure_type received count count' e = refl
  handle_action-count (some ignore) failure_type received count count' e = refl

  module _ {Q : Type 0} ⦃key : Hashable Q⦄ (interpret_response : Received R → ErrorResolution)
      (request : Q) where
    -- What is received is handled with the number of the attempt; no count is missing.
    pub send-handled :
        (received : Received R) (counts : Dict Q ℕ)
        → (send responses interpret_response strategies exit_on_rate_limit request
            (answered received)
            counts).0
          ≡ handle_error_resolution responses strategies exit_on_rate_limit
              (interpret_response received)
              received
              (some (count_attempt (get counts request)))
    unfolding send handle_error_resolution
    send-handled received counts =
        let resolution = interpret_response received in
        let action = resolution.response_action in
        let handled =
          handle_action responses strategies exit_on_rate_limit action resolution.failure_type
            received in
        let same : (request == request) ≡ true = (key.same_iff request request).1 refl in
        elim (Bool-cases (is_to_retry action)) [
          | inl e ↦ ap handled (get-counts_after request request action counts ∙ rw (same, e) refl)
          | inr e ↦ handle_action-count action resolution.failure_type received _ _ e
        ]
