-- ===== src/CallRate/FixedWindow.antt =====
-- FixedWindowCallRatePolicy of airbyte_cdk/sources/streams/call_rate.py: a number of calls in each
-- window of time. A time is a number of microseconds; a policy that is used is returned changed.
use airbyte_python_cdk.Prelude.{
  ℕ, ◌+◌, ◌-◌, Bool, true, not, Option, none, some, List, [], ◌∷◌, ltb, if◌then◌else◌, any,
}

-- What `try_acquire` does: a hit limit comes with the time to wait, where a negative one is 0.
pub data Acquisition : Type 0 where
  acquired rejected : Acquisition
  limit_hit : ℕ → Acquisition

-- BaseCallRatePolicy.matches
abbrev pub matches : {Q : Type 0} → List (Q → Bool) → Q → Bool
matches [] request = true
matches (matcher ∷ matchers) request = any (λ m. m request) (matcher ∷ matchers)

pub record FixedWindowCallRatePolicy (Q : Type 0) : Type 0 where
  pub next_reset_ts : ℕ
  pub offset : ℕ
  pub call_limit : ℕ
  pub calls_num : ℕ
  pub matchers : List (Q → Bool)

module _ {Q : Type 0} where
  unfoldable pub update_current_window :
      ℕ → FixedWindowCallRatePolicy Q → FixedWindowCallRatePolicy Q
  update_current_window now p =
      if ltb p.next_reset_ts now
      then record p { next_reset_ts = p.next_reset_ts + p.offset; calls_num = 0 }
      else p

  -- The two times are those of the two readings of the clock.
  unfoldable pub spend :
      ℕ → ℕ → FixedWindowCallRatePolicy Q → Acquisition × FixedWindowCallRatePolicy Q
  spend later weight p =
      if ltb p.call_limit (p.calls_num + weight)
      then (limit_hit (p.next_reset_ts - later), p)
      else (acquired, record p { calls_num = p.calls_num + weight })

  unfoldable pub try_acquire :
      ℕ → ℕ → Q → ℕ → FixedWindowCallRatePolicy Q → Acquisition × FixedWindowCallRatePolicy Q
  unfolding spend
  try_acquire now later request weight p =
      if ltb p.call_limit weight
      then (rejected, p)
      else if not (matches p.matchers request)
      then (rejected, p)
      else spend later weight (update_current_window now p)

  unfoldable pub lower_available :
      Option ℕ → FixedWindowCallRatePolicy Q → FixedWindowCallRatePolicy Q
  lower_available none p = p
  lower_available (some available) p =
      if ltb (available + p.calls_num) p.call_limit
      then record p { calls_num = p.call_limit - available }
      else p

  unfoldable pub move_reset : Option ℕ → FixedWindowCallRatePolicy Q → FixedWindowCallRatePolicy Q
  move_reset none p = p
  move_reset (some reset_ts) p = record p { next_reset_ts = reset_ts }

  unfoldable pub update :
      ℕ → Option ℕ → Option ℕ → FixedWindowCallRatePolicy Q → FixedWindowCallRatePolicy Q
  unfolding lower_available move_reset
  update now available_calls call_reset_ts p =
      move_reset call_reset_ts (lower_available available_calls (update_current_window now p))
