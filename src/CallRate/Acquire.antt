-- ===== src/CallRate/Acquire.antt =====
-- The loop of `_do_acquire` of CallRate.Budget.
use airbyte_python_cdk.Prelude.{
  ℕ, zero, suc, ◌+◌, ◌-◌, ◌≤◌, ◌<◌, ◌≡◌, refl, ◌∙◌, Bool, true, false, Option, none, some, List, [],
  ◌∷◌, ltb, Bool-cases, inl, inr, arith, ◌⊎◌,
}
use airbyte_python_cdk.Python.Exceptions.{ok}
use airbyte_python_cdk.CallRate.FixedWindow
use airbyte_python_cdk.CallRate.FixedWindow.{
  Acquisition, acquired, rejected, limit_hit, matches, FixedWindowCallRatePolicy,
  update_current_window, spend,
}
use airbyte_python_cdk.CallRate.Budget.{
  Limiter, Policy, fixed_window, MovingWindowCallRatePolicy, Clock, time_to_wait, items_to_add,
  moving_update, try_acquire, after_attempt, attempt, do_acquire, with_matching_policy,
  acquire_call, policy_matches,
}

module _ {Q : Type 0} where
  -- What one try with weight 1 does: the call is counted, or the window is full and lasts.
  one_try :
      (now later : ℕ) (request : Q) (p : FixedWindowCallRatePolicy Q)
      → 1 ≤ p.call_limit
      → matches p.matchers request ≡ true
      → ((p' : FixedWindowCallRatePolicy Q) × (FixedWindow.try_acquire now later request 1 p
            ≡ (acquired, p'))
          × (1 ≤ p'.calls_num))
        ⊎ ((FixedWindow.try_acquire now later request 1 p
              ≡ (limit_hit (p.next_reset_ts - later), p))
            × (now ≤ p.next_reset_ts))
  unfolding FixedWindow.try_acquire spend update_current_window
  one_try now later request p limit known =
      let light : ltb p.call_limit 1 ≡ false = ground (arith, limit) in
      elim (Bool-cases (ltb p.next_reset_ts now)) [
        | inl over ↦ inl (
          record p { next_reset_ts = p.next_reset_ts + p.offset; calls_num = 1 },
          rw (light, known, over) (rw light),
          omega arith,
        )
        | inr current ↦ elim (Bool-cases (ltb p.call_limit (p.calls_num + 1))) [
          | inl full ↦ inr (rw (light, known, current, full), ground (arith, current))
          | inr fits ↦ inl (
            record p { calls_num = p.calls_num + 1 },
            rw (light, known, current, fits),
            omega arith,
          )
        ]
      ]

module _ {Q B : Type 0} (limiter : Limiter B) where
  tried :
      (now later : ℕ) (request : Q) (p p' : FixedWindowCallRatePolicy Q) (result : Acquisition)
      → FixedWindow.try_acquire now later request 1 p ≡ (result, p')
      → try_acquire limiter now later request 1 (fixed_window p) ≡ (result, fixed_window p')
  unfolding try_acquire
  tried now later request p p' result e = rw e

  attempt_granted :
      (clock : Clock) (request : Q) (timeout : Option ℕ) (left : ℕ) (hit : Bool) (now : ℕ)
      (policy policy' : Policy Q B)
      → try_acquire limiter now (now + clock.lag left) request 1 policy ≡ (acquired, policy')
      → attempt limiter clock request true timeout (suc left) hit now policy ≡ (ok tt, policy')
  unfolding attempt after_attempt
  attempt_granted clock request timeout left hit now policy policy' e = rw (e, after_attempt)

  attempt_hit :
      (clock : Clock) (request : Q) (timeout : Option ℕ) (left wait : ℕ) (hit : Bool) (now : ℕ)
      (policy policy' : Policy Q B)
      → try_acquire limiter now (now + clock.lag left) request 1 policy ≡ (limit_hit wait, policy')
      → attempt limiter clock request true timeout (suc left) hit now policy
        ≡ attempt limiter clock request true timeout left true
            (now + clock.lag left + time_to_wait timeout wait + clock.oversleep left)
            policy'
  unfolding attempt after_attempt
  attempt_hit clock request timeout left wait hit now policy policy' e = rw (e, after_attempt)

  -- A blocked call without a timeout, of a request that matches a fixed window whose limit is not 0, where
  -- `maximum_attempts` is at least 3, nobody else spends and every sleep overruns the time asked for: it
  -- returns after two attempts at most, and the window has counted it.
  pub do_acquire_lem :
      (clock : Clock) (maximum_attempts : ℕ) (request : Q) (now : ℕ)
      (p : FixedWindowCallRatePolicy Q)
      → 3 ≤ maximum_attempts
      → 1 ≤ p.call_limit
      → matches p.matchers request ≡ true
      → ((k : ℕ) → 1 ≤ clock.oversleep k)
      → (p' : FixedWindowCallRatePolicy Q) × (do_acquire limiter clock maximum_attempts request true
            none now
            (fixed_window p)
          ≡ (ok tt, fixed_window p'))
        × (1 ≤ p'.calls_num)
  unfolding do_acquire
  do_acquire_lem clock (suc (suc (suc k))) request now p enough limit known over =
      let attempts : suc (suc (suc k)) - 1 ≡ suc (suc k) = omega arith in
      let later = now + clock.lag (suc k) in
      let next = later + (p.next_reset_ts - later) + clock.oversleep (suc k) in
      elim (one_try now later request p limit known) [
        | inl (p', e, counted) ↦ (
          p',
          rw attempts (
              attempt_granted clock request none (suc k) false now _ _
                (tried now later request p p' acquired e)),
          counted,
        )
        | inr (e, current) ↦ elim (one_try next (next + clock.lag k) request p limit known) [
          | inl (p', e', counted) ↦ (
            p',
            rw attempts (
                attempt_hit clock request none (suc k) (p.next_reset_ts - later) false now _ _
                  (tried now later request p p (limit_hit (p.next_reset_ts - later)) e)
                ∙ attempt_granted clock request none k true next _ _
                    (tried next (next + clock.lag k) request p p' acquired e')),
            counted,
          )
          | inr (e', full) ↦ absurd (omega (arith, full, over (suc k)))
        ]
      ]
  do_acquire_lem clock zero request now p enough limit known over = absurd (omega arith)
  do_acquire_lem clock (suc zero) request now p enough limit known over = absurd (omega arith)
  do_acquire_lem clock (suc (suc zero)) request now p enough limit known over = absurd (omega arith)

  -- With one attempt allowed at most, a call is let through without any credit being taken.
  pub acquire_call-one_attempt :
      (clock : Clock) (maximum_attempts : ℕ) (request : Q) (block : Bool) (timeout : Option ℕ)
      (now : ℕ) (policies : List (Policy Q B))
      → maximum_attempts ≤ 1
      → acquire_call limiter clock maximum_attempts request block timeout now policies
        ≡ (ok tt, policies)
  unfolding acquire_call with_matching_policy do_acquire attempt
  acquire_call-one_attempt clock maximum_attempts request block timeout now policies few =
      unchanged policies
    where
      none_left : maximum_attempts - 1 ≡ 0
      none_left = omega (arith, few)

      unchanged :
          (l : List (Policy Q B))
          → with_matching_policy limiter
              (ok tt)
              (do_acquire limiter clock maximum_attempts request block timeout now)
              request
              l
            ≡ (ok tt, l)
      unchanged [] = refl
      unchanged (policy ∷ l) = elim (Bool-cases (policy_matches limiter policy request)) [
        | inl known ↦ rw (known, none_left)
        | inr other ↦ rw (other, unchanged l)
      ]

  -- Where putting an item into a bucket adds at most its weight, or nothing if it is refused, and leaves
  -- the limit: after a report that no calls are left and no reset time, a bucket with room for two calls
  -- still has room.
  pub moving_update-room :
      (now : ℕ) (p : MovingWindowCallRatePolicy Q B)
      → ((b : B) (t weight : ℕ)
          → (limiter.bucket_count (limiter.put b t weight) ≤ limiter.bucket_count b + weight)
            × (limiter.first_limit (limiter.put b t weight) ≡ limiter.first_limit b))
      → limiter.bucket_count p.bucket + 1 < limiter.first_limit p.bucket
      → limiter.bucket_count (moving_update limiter now (some 0) none p).bucket
        < limiter.first_limit (moving_update limiter now (some 0) none p).bucket
  unfolding moving_update items_to_add
  moving_update-room now p put_adds room =
      let open_still : ltb (limiter.bucket_count p.bucket) (limiter.first_limit p.bucket) ≡ true =
        ground (arith, room) in
      rw open_still (omega (arith, (put_adds p.bucket now 1).0, (put_adds p.bucket now 1).1, room))
