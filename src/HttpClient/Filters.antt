-- ===== src/HttpClient/Filters.antt =====
-- HttpResponseFilter and DefaultErrorHandler of airbyte_cdk/sources/declarative/requesters/error_handlers.
-- A predicate and an error message are what the templates say of a response.
use airbyte_python_cdk.Prelude.{
  ℕ, Bool, true, false, Option, none, some, List, [], ◌∷◌, if◌then◌else◌, ◌||◌, number_key, ◌≡◌,
  refl, ap, ◌∙◌,
}
use airbyte_python_cdk.Python.Dict.{get, contains}
use airbyte_python_cdk.HttpClient.Errors.{
  ErrorResolution, FailureType, system_error, ResponseAction, fail, Received, response,
  request_exception, Responses, ErrorMapping, success_resolution, mapped_or_retry,
  interpret_response, resolution_of_response,
}

-- `predicate` and `error_message_contains` are given and hold of a response.
pub record HttpResponseFilter (R : Type 0) : Type 0 where
  pub action : Option ResponseAction
  pub failure_type : Option FailureType
  pub http_codes : List ℕ
  pub predicate : R → Bool
  pub error_message_contains : R → Bool

module _ {R : Type 0} (responses : Responses R) (default_mapping : ErrorMapping) where
  abbrev pub has_code : Option ℕ → List ℕ → Bool
  has_code none http_codes = false
  has_code (some status) http_codes = contains http_codes status

  -- `_matches_filter`
  unfoldable pub matches_filter : HttpResponseFilter R → Received R → Option ResponseAction
  matches_filter f (request_exception c) = none
  matches_filter f (response r) =
      if has_code (responses.status_code r) f.http_codes
        || f.predicate r
        || f.error_message_contains r
      then f.action
      else none

  abbrev pub mapped_status : Option ℕ → Option ErrorResolution
  mapped_status none = none
  mapped_status (some status) = get default_mapping.for_status status

  -- Of an exception the filter looks up nothing.
  abbrev pub default_mapped : Received R → Option ErrorResolution
  default_mapped (request_exception c) = none
  default_mapped (response r) = mapped_status (responses.status_code r)

  abbrev pub default_failure_type : Option ErrorResolution → Option FailureType
  default_failure_type none = some system_error
  default_failure_type (some resolution) = resolution.failure_type

  abbrev pub failure_type_of :
      ResponseAction → Option FailureType → Option FailureType → Option FailureType
  failure_type_of fail (some own) by_default = some own
  failure_type_of action own by_default = by_default

  abbrev pub resolved :
      Option ResponseAction → HttpResponseFilter R → Received R → Option ErrorResolution
  resolved none f received = none
  resolved (some action) f received = some (record {
    response_action = some action;
    failure_type =
        failure_type_of action f.failure_type (default_failure_type (default_mapped received));
  })

  -- `matches`: its last condition compares a Boolean or a number with None and never holds.
  unfoldable pub matches : HttpResponseFilter R → Received R → Option ErrorResolution
  matches f received = resolved (matches_filter f received) f received

  abbrev pub no_condition : HttpResponseFilter R
  no_condition = record {
    action = none;
    failure_type = none;
    http_codes = [];
    predicate = λ r. false;
    error_message_contains = λ r. false;
  }

  -- `__post_init__`
  abbrev pub given_or_default : List (HttpResponseFilter R) → List (HttpResponseFilter R)
  given_or_default [] = no_condition ∷ []
  given_or_default filters = filters

  abbrev pub or_else : Option ErrorResolution → Option ErrorResolution → Option ErrorResolution
  or_else none later = later
  or_else (some resolution) later = some resolution

  abbrev pub first_match : List (HttpResponseFilter R) → Received R → Option ErrorResolution
  first_match [] received = none
  first_match (f ∷ filters) received = or_else (matches f received) (first_match filters received)

  -- `DefaultHttpResponseFilter.matches`, which always gives a resolution
  abbrev pub default_match : Received R → ErrorResolution
  default_match (request_exception c) = mapped_or_retry (default_mapping.for_exception c)
  default_match (response r) = mapped_or_retry (mapped_status (responses.status_code r))

  abbrev pub unfiltered : Received R → ErrorResolution
  unfiltered (request_exception c) = default_match (request_exception c)
  unfiltered (response r) =
      if responses.ok r then success_resolution else default_match (response r)

  abbrev pub matched_or_unfiltered : Option ErrorResolution → Received R → ErrorResolution
  matched_or_unfiltered none received = unfiltered received
  matched_or_unfiltered (some resolution) received = resolution

  -- `DefaultErrorHandler.interpret_response`
  unfoldable pub interpret_with_filters : List (HttpResponseFilter R) → Received R → ErrorResolution
  interpret_with_filters response_filters received =
      matched_or_unfiltered (first_match (given_or_default response_filters) received) received

  no_action :
      (b : Bool) (f : HttpResponseFilter R)
      → f.action ≡ none
      → (if b then f.action else none) ≡ none
  no_action true f e = e
  no_action false f e = refl

  matches-no_condition : (received : Received R) → matches no_condition received ≡ none
  unfolding matches matches_filter
  matches-no_condition (request_exception c) = refl
  matches-no_condition (response r) =
      ap (λ action. resolved action no_condition (response r))
        (no_action (has_code (responses.status_code r) [] || false || false) no_condition refl)

  of_status :
      (r : R) (code : Option ℕ) (status : ℕ)
      → code ≡ some status
      → (if responses.ok r then success_resolution else mapped_or_retry (mapped_status code))
        ≡ resolution_of_response responses default_mapping r code
  of_status r none status known = cc
  of_status r (some status) other known = refl

  -- Without filters, DefaultErrorHandler resolves a response with a status as HttpStatusErrorHandler does.
  pub interpret_with_filters-response :
      (r : R) (status : ℕ)
      → responses.status_code r ≡ some status
      → interpret_with_filters [] (response r)
        ≡ interpret_response responses default_mapping (some (response r))
  unfolding interpret_with_filters interpret_response
  interpret_with_filters-response r status known =
      ap (λ matched. matched_or_unfiltered (or_else matched none) (response r))
        (matches-no_condition (response r))
      ∙ of_status r (responses.status_code r) status known
