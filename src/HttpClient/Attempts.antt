-- ===== src/HttpClient/Attempts.antt =====
-- The count of attempts that HttpClient keeps, over any order of sends.
use airbyte_python_cdk.Prelude.{
  ℕ, zero, suc, Bool, true, false, Option, none, some, List, [], ◌∷◌, if◌then◌else◌, Hashable, ◌==◌,
  ◌≡◌, refl, sym, ap, ◌∙◌, arith, Bool-cases, inl, inr,
}
use airbyte_python_cdk.Python.Exceptions.{Result, ok, raise}
use airbyte_python_cdk.Python.Dict.{Dict, get}
use airbyte_python_cdk.HttpClient.Errors.{
  ErrorResolution, Received, response, request_exception, Responses, ResponseAction, FailureType,
  success, retry, fail, ignore, rate_limited,
}
use airbyte_python_cdk.HttpClient.{
  Outcome, returned, traced_error, user_defined_backoff, rate_limit_backoff, default_backoff,
  http_error, raised, Answer, answered, escaped, BackoffStrategy, is_to_retry, count_attempt,
  start_attempt, counts_after, send, handle_error_resolution, handle_action, backoff, check_status,
}
use airbyte_python_cdk.HttpClient.Handled.{get-start_attempt, get-counts_after, send-handled}

abbrev pub positive : ℕ → Option ℕ
positive zero = none
positive (suc n) = some (suc n)

count_attempt-positive : (n : ℕ) → count_attempt (positive n) ≡ suc n
count_attempt-positive zero = refl
count_attempt-positive (suc n) = refl

-- The send left off with an exception that asks for another attempt, or that `_send` lets through.
abbrev pub is_unfinished : {R : Type 0} → Outcome R → Bool
is_unfinished (user_defined_backoff time received) = true
is_unfinished (rate_limit_backoff received) = true
is_unfinished (default_backoff received) = true
is_unfinished (raised x) = true
is_unfinished (returned r) = false
is_unfinished (traced_error failure_type) = false
is_unfinished (http_error r) = false

module _ {R : Type 0} (responses : Responses R) where
  backoff-is_unfinished :
      (time : Result (Option ℕ)) (endlessly : Bool) (received : Received R)
      → is_unfinished (backoff responses time endlessly received) ≡ true
  backoff-is_unfinished (raise x) endlessly received = refl
  backoff-is_unfinished (ok (some time)) endlessly received = refl
  backoff-is_unfinished (ok none) true received = refl
  backoff-is_unfinished (ok none) false received = refl

  check_status-is_unfinished :
      (received : Received R) → is_unfinished (check_status responses received) ≡ false
  check_status-is_unfinished (request_exception c) = refl
  check_status-is_unfinished (response r) = ground arith

  handle_action-is_unfinished :
      (strategies : List (BackoffStrategy R)) (exit_on_rate_limit : Bool)
      (action : Option ResponseAction) (failure_type : Option FailureType) (received : Received R)
      (count : Option ℕ)
      → is_unfinished
          (handle_action responses strategies exit_on_rate_limit action failure_type received count)
        ≡ is_to_retry action
  unfolding is_to_retry
  handle_action-is_unfinished strategies flag none failure_type received count =
      check_status-is_unfinished received
  handle_action-is_unfinished strategies flag (some success) failure_type received count =
      check_status-is_unfinished received
  handle_action-is_unfinished strategies flag (some retry) failure_type received count =
      backoff-is_unfinished _ _ received
  handle_action-is_unfinished strategies flag (some rate_limited) failure_type received count =
      backoff-is_unfinished _ _ received
  handle_action-is_unfinished strategies flag (some fail) failure_type received count = refl
  handle_action-is_unfinished strategies flag (some ignore) failure_type received count = refl

module _ {Q R : Type 0} ⦃key : Hashable Q⦄ (responses : Responses R)
    (interpret_response : Received R → ErrorResolution) (strategies : List (BackoffStrategy R))
    (exit_on_rate_limit : Bool) where
  abbrev sent : Q → Answer R → Dict Q ℕ → Outcome R × Dict Q ℕ
  sent request answer counts =
      send responses interpret_response strategies exit_on_rate_limit request answer counts

  -- The counts after the sends of a list, the last one first.
  abbrev pub send_all : List (Q × Answer R) → Dict Q ℕ
  send_all [] = []
  send_all ((request, answer) ∷ earlier) = (sent request answer (send_all earlier)).1

  -- How often a request was sent without being finished, one time after the other.
  abbrev pub unfinished : Q → List (Q × Answer R) → ℕ
  unfinished request [] = 0
  unfinished request ((other, answer) ∷ earlier) =
      if other == request
      then (if is_unfinished (sent other answer (send_all earlier)).0
          then suc (unfinished request earlier)
          else 0)
      else unfinished request earlier

  get-send :
      (other request : Q) (answer : Answer R) (counts : Dict Q ℕ)
      → get (sent other answer counts).1 request ≡ (
          if other == request
          then (if is_unfinished (sent other answer counts).0
              then some (count_attempt (get counts other))
              else none)
          else get counts request)
  unfolding send handle_error_resolution
  get-send other request (escaped x) counts = get-start_attempt other request counts
  get-send other request (answered received) counts =
      let resolution = interpret_response received in
      let counts' = counts_after other resolution.response_action (start_attempt other counts) in
      get-counts_after other request resolution.response_action counts
      ∙ ap
          (λ kept.
            if other == request
            then (if kept then some (count_attempt (get counts other)) else none)
            else get counts request)
          (sym (
            handle_action-is_unfinished responses strategies exit_on_rate_limit
              resolution.response_action resolution.failure_type received (get counts' other)))

  get-send_all :
      (request : Q) (sends : List (Q × Answer R))
      → get (send_all sends) request ≡ positive (unfinished request sends)
  unfolding get
  get-send_all request [] = refl
  get-send_all request ((other, answer) ∷ earlier) =
      get-send other request answer (send_all earlier) ∙ elim (Bool-cases (other == request)) [
        | inl e ↦
            let counted = count_attempt-positive (unfinished request earlier) in
            let at_request = get-send_all request earlier in
            let count : count_attempt (get (send_all earlier) other)
                ≡ suc (unfinished request earlier) =
              ap (λ q. count_attempt (get (send_all earlier) q)) ((key.same_iff other request).0 e)
              ∙ ap count_attempt at_request
              ∙ counted in
            rw (e, count) ground arith
        | inr e ↦ rw (e, get-send_all request earlier) refl
      ]

  -- After any sends of any requests, in any order: the client keeps a count for exactly the requests whose
  -- last send raised an exception to back off or one that `_send` lets through, which is how often that
  -- happened in a row; and what the next send of a request receives is handled as the attempt of that
  -- number and one more.
  pub send-attempts :
      (sends : List (Q × Answer R)) (request : Q) (received : Received R)
      → (get (send_all sends) request ≡ positive (unfinished request sends))
        × ((send responses interpret_response strategies exit_on_rate_limit request
              (answered received)
              (send_all sends)).0
            ≡ handle_error_resolution responses strategies exit_on_rate_limit
                (interpret_response received)
                received
                (some (suc (unfinished request sends))))
  send-attempts sends request received =
      let counted = get-send_all request sends in
      let handled : ℕ → Outcome R = λ n.
        handle_error_resolution responses strategies exit_on_rate_limit
          (interpret_response received) received (some n) in
      (
        counted,
        send-handled responses strategies exit_on_rate_limit interpret_response request received
              (send_all sends)
            ∙ ap (λ count. handled (count_attempt count)) counted
            ∙ ap handled (count_attempt-positive (unfinished request sends)),
      )
