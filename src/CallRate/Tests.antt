-- ===== src/CallRate/Tests.antt =====
-- The policies and the budget of CallRate at concrete calls.
use airbyte_python_cdk.Prelude.{
  ℕ, ◌≡◌, refl, true, none, some, [], ◌∷◌, ◌≤◌, ◌<◌, ◌+◌, ◌⊎◌, ◌↔◌, arith, ltb, if◌then◌else◌, All,
  text_key,
}
use airbyte_python_cdk.Python.Exceptions.{ok}
use airbyte_python_cdk.Python.Dict
use airbyte_python_cdk.CallRate.FixedWindow
use airbyte_python_cdk.CallRate.FixedWindow.{
  acquired, limit_hit, FixedWindowCallRatePolicy, matches,
}
use airbyte_python_cdk.CallRate.Budget.{
  Limiter, fixed_window, MovingWindowCallRatePolicy, Clock, do_acquire, acquire_call, moving_update,
}
use airbyte_python_cdk.CallRate.Window.{
  call, response, granted, granted_bound, try_acquire_iff, idle_burst,
}
use airbyte_python_cdk.CallRate.Acquire.{
  do_acquire_lem, acquire_call-one_attempt, moving_update-room,
}
use airbyte_python_cdk.CallRate.Matching
use airbyte_python_cdk.CallRate.Matching.{
  HttpRequestMatcher, PreparedRequest, call_iff, method_matches, url_matches,
}

-- Two calls per 100, of which one is spent.
abbrev policy : FixedWindowCallRatePolicy ℕ
policy = record { next_reset_ts = 50; offset = 100; call_limit = 2; calls_num = 1; matchers = [] }

-- A bucket is the weight that it holds, of which three fit.
abbrev limiter : Limiter ℕ
limiter = record {
  limiter_try_acquire =
      λ b t weight. if ltb 3 (b + weight) then (limit_hit 10, b) else (acquired, b + weight);
  bucket_count = λ b. b;
  first_limit = λ b. 3;
  put = λ b t weight. if ltb 3 (b + weight) then b else b + weight;
}

abbrev clock : Clock
clock = record { lag = λ k. 1; oversleep = λ k. 1 }

second_call_is_hit : granted (call 10 10 7 1 ∷ call 20 20 7 1 ∷ call 60 60 7 1 ∷ []) policy ≡ 2
unfolding FixedWindow.try_acquire FixedWindow.update_current_window FixedWindow.spend
second_call_is_hit = refl

granted_bound_example :
    granted (call 10 10 7 1 ∷ response 15 (some 1) ∷ call 20 20 7 1 ∷ []) policy + 1 ≤ 2
granted_bound_example =
    granted_bound (call 10 10 7 1 ∷ response 15 (some 1) ∷ call 20 20 7 1 ∷ []) policy
      (omega arith, (omega arith, (omega arith, tt))) (omega arith)

try_acquire_iff_example :
    ((FixedWindow.try_acquire 10 10 7 1 policy).0 ≡ acquired)
    ↔ ((1 ≤ 2) × (matches policy.matchers 7 ≡ true) × ((50 < 10) ⊎ (1 + 1 ≤ 2)))
try_acquire_iff_example = try_acquire_iff 10 10 7 1 policy

idle_burst_example : granted (call 200 200 7 2 ∷ call 200 200 7 2 ∷ []) policy ≡ 2 + 2
idle_burst_example = idle_burst 200 7 policy refl (omega arith)

do_acquire_lem_example :
    (p' : FixedWindowCallRatePolicy ℕ) × (do_acquire limiter clock 3 7 true none 10
        (fixed_window policy)
      ≡ (ok tt, fixed_window p'))
    × (1 ≤ p'.calls_num)
do_acquire_lem_example =
    do_acquire_lem limiter clock 3 7 10 policy (omega arith) (omega arith) refl (λ k. omega arith)

acquire_call-one_attempt_example :
    acquire_call limiter clock 1 7 true none 10 (fixed_window policy ∷ [])
    ≡ (ok tt, fixed_window policy ∷ [])
acquire_call-one_attempt_example =
    acquire_call-one_attempt limiter clock 1 7 true none 10 (fixed_window policy ∷ []) (omega arith)

abbrev one_item : MovingWindowCallRatePolicy ℕ ℕ
one_item = record { bucket = 1; matchers = [] }

moving_update-room_example : (moving_update limiter 10 (some 0) none one_item).bucket < 3
moving_update-room_example =
    moving_update-room limiter 10 one_item (λ b t weight. (ground arith, refl)) (omega arith)

abbrev matcher : HttpRequestMatcher
matcher = record { method = some "GET"; url = none; params = ("page", "1") ∷ []; headers = [] }

abbrev request : PreparedRequest
request = record {
  method = "GET";
  url = some (record { without_params = "/users"; params = ("page", "1") ∷ ("size", "9") ∷ [] });
  headers = λ name. none;
  number_of_headers = 0;
}

call_iff_example : (Matching.call matcher (some request) ≡ true) ↔ (
    (method_matches (some "GET") "GET" ≡ true)
    × (url_matches none request.url ≡ true)
    × ((1 ≤ 2)
        × All
            (λ item. Dict.get (("page", "1") ∷ ("size", "9") ∷ []) item.0 ≡ some item.1)
            matcher.params)
    × ((0 ≤ 0) × Unit {0}))
call_iff_example = call_iff matcher request
