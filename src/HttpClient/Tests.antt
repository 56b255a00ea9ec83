-- ===== src/HttpClient/Tests.antt =====
-- Runs of HttpClient with numbers for requests and responses that are their status.
use airbyte_python_cdk.Prelude.{
  ℕ, false, none, some, List, [], ◌∷◌, leb, not, ◌≡◌, refl, number_key, suc,
}
use airbyte_python_cdk.Python.Dict.{get, set, delete, contains}
use airbyte_python_cdk.Python.Exceptions.{ok, call_rate_limit_hit}
use airbyte_python_cdk.HttpClient.Errors.{
  ErrorResolution, Received, response, Responses, retry, default_error_mapping, interpret_response,
  interpret_by_all, system_error,
}
use airbyte_python_cdk.HttpClient.{
  send, handle_error_resolution, is_to_retry, user_defined_backoff_time, Answer, answered, escaped,
  BackoffStrategy, start_attempt, counts_after, evict_key,
}
use airbyte_python_cdk.HttpClient.Attempts.{send-attempts, send_all, unfinished, positive}
use airbyte_python_cdk.HttpClient.Filters.{interpret_with_filters, matches, matches_filter}

abbrev responses : Responses ℕ
responses = record {
  ok = λ status. not (leb 400 status);
  raises_for_status = λ status. leb 400 status;
  status_code = λ status. some status;
}

abbrev interpret : Received ℕ → ErrorResolution
interpret received = interpret_response responses default_error_mapping (some received)

-- The last send is the first of the list; the budget of calls was used up before it.
abbrev sends : List (ℕ × Answer ℕ)
sends =
    (7, escaped call_rate_limit_hit)
    ∷ (8, answered (response 200))
    ∷ (7, answered (response 429))
    ∷ (8, answered (response 500))
    ∷ []

-- A strategy that waits as many seconds as there were attempts.
abbrev strategies : List (BackoffStrategy ℕ)
strategies = (λ received attempt. ok (some attempt)) ∷ []

twice : unfinished responses interpret strategies false 7 sends ≡ 2
unfolding is_to_retry interpret_response default_error_mapping get send handle_error_resolution
    user_defined_backoff_time start_attempt counts_after evict_key set delete
twice = refl

finished : unfinished responses interpret strategies false 8 sends ≡ 0
unfolding is_to_retry interpret_response default_error_mapping get send handle_error_resolution
    user_defined_backoff_time start_attempt counts_after evict_key set delete
finished = refl

send-attempts_example :
    (get (send_all responses interpret strategies false sends) 7
      ≡ positive (unfinished responses interpret strategies false 7 sends))
    × ((send responses interpret strategies false 7
          (answered (response 500))
          (send_all responses interpret strategies false sends)).0
        ≡ handle_error_resolution responses strategies false
            (interpret (response 500))
            (response 500)
            (some (suc (unfinished responses interpret strategies false 7 sends))))
send-attempts_example = send-attempts responses interpret strategies false sends 7 (response 500)

-- A failure that the first handler finds gives way to a retry of the second one.
composed :
    interpret_by_all
      ((λ r. some (interpret (response r)))
        ∷ (λ r. some (record { response_action = some retry; failure_type = none }))
        ∷ [])
      404
    ≡ record { response_action = some retry; failure_type = none }
unfolding interpret_by_all interpret_response default_error_mapping get
composed = refl

-- A filter for a code comes before the mapping, and takes its failure type where it has none.
filtered :
    interpret_with_filters responses default_error_mapping
      (record {
        action = some retry;
        failure_type = none;
        http_codes = 404 ∷ [];
        predicate = λ r. false;
        error_message_contains = λ r. false;
      }
        ∷ [])
      (response 404)
    ≡ record { response_action = some retry; failure_type = some system_error }
unfolding interpret_with_filters matches matches_filter default_error_mapping get contains
filtered = refl
