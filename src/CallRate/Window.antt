-- ===== src/CallRate/Window.antt =====
-- How many calls the fixed window of CallRate.FixedWindow lets through.
use airbyte_python_cdk.Prelude.{
  ℕ, ◌+◌, ◌≤◌, ◌<◌, ◌≡◌, refl, true, Option, none, some, List, [], ◌∷◌, ltb, All, Bool-cases, inl,
  inr, arith, ◌⊎◌, ◌↔◌,
}
use airbyte_python_cdk.CallRate.FixedWindow.{
  Acquisition, acquired, rejected, limit_hit, matches, FixedWindowCallRatePolicy,
  update_current_window, spend, try_acquire, lower_available, move_reset, update,
}

-- A use of the policy: a call of some weight, or a response that says how many calls are left.
pub data Event (Q : Type 0) : Type 0 where
  call : ℕ → ℕ → Q → ℕ → Event Q
  response : ℕ → Option ℕ → Event Q

-- The weight that a result lets through.
abbrev pub weight_of : Acquisition → ℕ → ℕ
weight_of acquired weight = weight
weight_of rejected weight = 0
weight_of (limit_hit wait) weight = 0

module _ {Q : Type 0} where
  abbrev pub time_of : Event Q → ℕ
  time_of (call now later request weight) = now
  time_of (response now available) = now

  abbrev pub step : Event Q → FixedWindowCallRatePolicy Q → ℕ × FixedWindowCallRatePolicy Q
  step (call now later request weight) p =
      let (result, p') = try_acquire now later request weight p in (weight_of result weight, p')
  step (response now available) p = (0, update now available none p)

  -- The weight that is let through by a sequence of uses.
  abbrev pub granted : List (Event Q) → FixedWindowCallRatePolicy Q → ℕ
  granted [] p = 0
  granted (e ∷ events) p = let (weight, p') = step e p in weight + granted events p'

  -- A use inside a window: what it lets through is counted, and the window stays.
  abbrev IsCounted : FixedWindowCallRatePolicy Q → ℕ × FixedWindowCallRatePolicy Q → Type 0
  IsCounted p r =
      (r.0 + p.calls_num ≤ r.1.calls_num)
      × (r.1.calls_num ≤ p.call_limit)
      × (r.1.next_reset_ts ≡ p.next_reset_ts)
      × (r.1.call_limit ≡ p.call_limit)

  same_window :
      (now : ℕ) (p : FixedWindowCallRatePolicy Q)
      → now ≤ p.next_reset_ts
      → update_current_window now p ≡ p
  unfolding update_current_window
  same_window now p h = elim (Bool-cases (ltb p.next_reset_ts now)) [
    | inl later ↦ absurd (ground (arith, later))
    | inr current ↦ rw current
  ]

  spend-IsCounted :
      (later weight : ℕ) (p : FixedWindowCallRatePolicy Q)
      → p.calls_num ≤ p.call_limit
      → IsCounted p (weight_of (spend later weight p).0 weight, (spend later weight p).1)
  unfolding spend
  spend-IsCounted later weight p bound =
      elim (Bool-cases (ltb p.call_limit (p.calls_num + weight))) [
        | inl over ↦ rw over (omega arith, bound, refl, refl)
        | inr fits ↦ rw fits (omega arith, ground (arith, fits), refl, refl)
      ]

  call-IsCounted :
      (now later : ℕ) (request : Q) (weight : ℕ) (p : FixedWindowCallRatePolicy Q)
      → now ≤ p.next_reset_ts
      → p.calls_num ≤ p.call_limit
      → IsCounted p (step (call now later request weight) p)
  unfolding try_acquire
  call-IsCounted now later request weight p h bound = elim (Bool-cases (ltb p.call_limit weight)) [
    | inl heavy ↦ rw heavy (omega arith, bound, refl, refl)
    | inr light ↦ elim (Bool-cases (matches p.matchers request)) [
      | inl known ↦ rw (light, known, same_window now p h) (spend-IsCounted later weight p bound)
      | inr other ↦ rw (light, other) (omega arith, bound, refl, refl)
    ]
  ]

  response-IsCounted :
      (now : ℕ) (available : Option ℕ) (p : FixedWindowCallRatePolicy Q)
      → now ≤ p.next_reset_ts
      → p.calls_num ≤ p.call_limit
      → IsCounted p (step (response now available) p)
  unfolding update lower_available move_reset
  response-IsCounted now none p h bound = rw (same_window now p h) (omega arith, bound, refl, refl)
  response-IsCounted now (some available) p h bound =
      rw (same_window now p h) (elim (Bool-cases (ltb (available + p.calls_num) p.call_limit)) [
        | inl lower ↦ rw lower (ground (arith, lower), omega arith, refl, refl)
        | inr higher ↦ rw higher (omega arith, bound, refl, refl)
      ])

  step-IsCounted :
      (e : Event Q) (p : FixedWindowCallRatePolicy Q)
      → time_of e ≤ p.next_reset_ts
      → p.calls_num ≤ p.call_limit
      → IsCounted p (step e p)
  step-IsCounted (call now later request weight) p h bound =
      call-IsCounted now later request weight p h bound
  step-IsCounted (response now available) p h bound = response-IsCounted now available p h bound

  -- Until its window ends, a policy that has spent no more than its limit lets through calls of at
  -- most the weight that is left, in any order of calls and responses that lower it.
  pub granted_bound :
      (events : List (Event Q)) (p : FixedWindowCallRatePolicy Q)
      → All (λ e. time_of e ≤ p.next_reset_ts) events
      → p.calls_num ≤ p.call_limit
      → granted events p + p.calls_num ≤ p.call_limit
  granted_bound [] p h bound = omega arith
  granted_bound (e ∷ events) p h bound =
      let (counted, bound', reset, limit) = step-IsCounted e p h.0 bound in
      let h' : All (λ x. time_of x ≤ (step e p).1.next_reset_ts) events = rw reset h.1 in
      let rest = granted_bound events (step e p).1 h' (rw limit bound') in
      omega (arith, counted, rest, limit)

  -- A call is let through exactly if it weighs no more than the limit, the policy matches it, and
  -- the window is over or has room for it.
  pub try_acquire_iff :
      (now later : ℕ) (request : Q) (weight : ℕ) (p : FixedWindowCallRatePolicy Q)
      → ((try_acquire now later request weight p).0 ≡ acquired) ↔ (
          (weight ≤ p.call_limit)
          × (matches p.matchers request ≡ true)
          × ((p.next_reset_ts < now) ⊎ (p.calls_num + weight ≤ p.call_limit)))
  unfolding try_acquire spend update_current_window
  try_acquire_iff now later request weight p = ground arith

  -- A policy that was not used for more than one window after its last one lets through its whole
  -- limit twice at one instant.
  pub idle_burst :
      (now : ℕ) (request : Q) (p : FixedWindowCallRatePolicy Q)
      → matches p.matchers request ≡ true
      → p.next_reset_ts + p.offset < now
      → granted (call now now request p.call_limit ∷ call now now request p.call_limit ∷ []) p
        ≡ p.call_limit + p.call_limit
  unfolding try_acquire spend update_current_window
  idle_burst now request p known idle = simp known (ground (arith, known, idle))
