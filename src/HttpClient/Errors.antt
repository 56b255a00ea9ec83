-- ===== src/HttpClient/Errors.antt =====
-- airbyte_cdk/sources/streams/http/error_handlers: HttpStatusErrorHandler and the default mapping, and the
-- CompositeErrorHandler of airbyte_cdk/sources/declarative/requesters/error_handlers. An exception is its class.
use airbyte_python_cdk.Prelude.{
  ℕ, Bool, true, false, Option, none, some, List, [], ◌∷◌, if◌then◌else◌, number_key,
}
use airbyte_python_cdk.Python.Dict.{Dict, get}

pub data ResponseAction : Type 0 where
  success retry fail ignore rate_limited : ResponseAction

pub data FailureType : Type 0 where
  system_error config_error transient_error : FailureType

pub record ErrorResolution : Type 0 where
  pub response_action : Option ResponseAction
  pub failure_type : Option FailureType

-- The classes that the default mapping tells apart.
pub data ExceptionClass : Type 0 where
  invalid_schema invalid_url plain_request_exception other_exception : ExceptionClass

pub data Received (R : Type 0) : Type 0 where
  response : R → Received R
  request_exception : ExceptionClass → Received R

-- What the requests library says about a response.
pub record Responses (R : Type 0) : Type 0 where
  pub ok : R → Bool
  pub raises_for_status : R → Bool
  pub status_code : R → Option ℕ

abbrev resolve : ResponseAction → FailureType → ErrorResolution
resolve action failure_type = record {
  response_action = some action;
  failure_type = some failure_type;
}

abbrev pub success_resolution : ErrorResolution
success_resolution = record { response_action = some success; failure_type = none }

pub record ErrorMapping : Type 0 where
  pub for_exception : ExceptionClass → Option ErrorResolution
  pub for_status : Dict ℕ ErrorResolution

abbrev for_default_exception : ExceptionClass → Option ErrorResolution
for_default_exception invalid_schema = some (resolve fail config_error)
for_default_exception invalid_url = some (resolve fail config_error)
for_default_exception plain_request_exception = some (resolve retry transient_error)
for_default_exception other_exception = none

unfoldable pub default_error_mapping : ErrorMapping
default_error_mapping = record {
  for_exception = for_default_exception;
  for_status =
      (400, resolve fail system_error)
      ∷ (401, resolve fail config_error)
      ∷ (403, resolve fail config_error)
      ∷ (404, resolve fail system_error)
      ∷ (405, resolve fail system_error)
      ∷ (408, resolve retry transient_error)
      ∷ (429, resolve rate_limited transient_error)
      ∷ (500, resolve retry transient_error)
      ∷ (502, resolve retry transient_error)
      ∷ (503, resolve retry transient_error)
      ∷ (504, resolve retry transient_error)
      ∷ [];
}

abbrev pub mapped_or_retry : Option ErrorResolution → ErrorResolution
mapped_or_retry (some resolution) = resolution
mapped_or_retry none = resolve retry system_error

-- A response with this status code, or without one
abbrev pub resolution_of_response :
    {R : Type 0} → Responses R → ErrorMapping → R → Option ℕ → ErrorResolution
resolution_of_response responses error_mapping r none = resolve retry transient_error
resolution_of_response responses error_mapping r (some status) =
    if responses.ok r
    then success_resolution
    else mapped_or_retry (get error_mapping.for_status status)

-- `HttpStatusErrorHandler.interpret_response`; `none` stands for what is neither.
unfoldable pub interpret_response :
    {R : Type 0} → Responses R → ErrorMapping → Option (Received R) → ErrorResolution
interpret_response responses error_mapping none = resolve fail system_error
interpret_response responses error_mapping (some (request_exception c)) =
    mapped_or_retry (error_mapping.for_exception c)
interpret_response responses error_mapping (some (response r)) =
    resolution_of_response responses error_mapping r (responses.status_code r)

-- The actions at which CompositeErrorHandler asks no further handler.
abbrev is_decisive : Option ResponseAction → Bool
is_decisive (some success) = true
is_decisive (some retry) = true
is_decisive (some ignore) = true
is_decisive _ = false

-- The loop of `CompositeErrorHandler.interpret_response`, with what matched last.
abbrev first_decisive :
    {A : Type 0}
    → List (A → Option ErrorResolution)
    → A
    → Option ErrorResolution
    → Option ErrorResolution
first_decisive [] received matched = matched
first_decisive (handler ∷ handlers) received matched =
    let later = first_decisive handlers received (handler received) in
    elim (handler received) [
      | none ↦ later
      | some resolution ↦ if is_decisive resolution.response_action then some resolution else later
    ]

-- `CompositeErrorHandler.interpret_response`: the fallback is what `mapped_or_retry` makes of None.
unfoldable pub interpret_by_all :
    {A : Type 0} → List (A → Option ErrorResolution) → A → ErrorResolution
interpret_by_all error_handlers received =
    mapped_or_retry (first_decisive error_handlers received none)
