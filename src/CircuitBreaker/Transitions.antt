-- ===== src/CircuitBreaker/Transitions.antt =====
-- The state machine that the calls follow.
use likes_service.Common.{
  ◌/◌, ◌++◌, ◌⊎◌, leb→le, Bool, Bool-cases, subst, sym, ◌∙◌, All, ℕ, ◌-◌, ◌*◌, ◌≤◌, ◌<◌, ◌≡◌, inl,
  inr, refl, true, false, List, [], ◌∷◌, arith, leb, length,
}
use likes_service.Common.Results.{err}
use likes_service.CircuitBreaker.{
  CircuitBreaker, CircuitBreakerOpenError, nanos_per_second, OutcomeRecord, CircuitBreakerState,
  ClosedState, closed, half_open, opened, increment_u32, fresh_closed, allow_request_in,
  record_success_in, record_failure_in, allow_request, record_success, record_failure, failures,
  prune_outcomes, push_outcome, is_failure_rate_threshold_reached,
}
use likes_service.CircuitBreaker.Outcomes.{is_failure_rate_threshold_reached_iff}
use likes_service.CircuitBreaker.Invariant.{Call, allows, succeeds, fails, step, run}

-- Enough samples, of which more than half are failures.
abbrev pub IsFailing : CircuitBreaker → List OutcomeRecord → Type 0
IsFailing b os = (b.failure_threshold ≤ length os) × (length os < failures os * 2)

-- The window after one more outcome: what is left of it at `p`, and the outcome, at `q`.
abbrev pub window_after : CircuitBreaker → ClosedState → Bool → ℕ → ℕ → List OutcomeRecord
window_after b c success p q =
    prune_outcomes c.recent_outcomes b.failure_window p ++ record { at = q; success = success } ∷ []

-- The ways from one state to another, in terms of the breaker's parameters.
pub data Move (b : CircuitBreaker) : CircuitBreakerState → Call → CircuitBreakerState → Type 0 where
  passes : {c : ClosedState} {now : ℕ} → Move b (closed c) (allows now) (closed c)
  probes : {n now : ℕ} → Move b (half_open n) (allows now) (half_open n)
  rejects : {t now : ℕ} → now - t < b.open_duration → Move b (opened t) (allows now) (opened t)
  cools : {t now : ℕ} → b.open_duration ≤ now - t → Move b (opened t) (allows now) (half_open 0)
  late_success : {t p q r : ℕ} → Move b (opened t) (succeeds p q r) (opened t)
  late_failure : {t p q r : ℕ} → Move b (opened t) (fails p q r) (opened t)
  counts_success :
      {c d : ClosedState} {p q r : ℕ}
      → d.consecutive_failures ≡ 0
      → d.recent_outcomes ≡ window_after b c true p q
      → ¬ IsFailing b (window_after b c true p q)
      → Move b (closed c) (succeeds p q r) (closed d)
  counts_failure :
      {c d : ClosedState} {p q r : ℕ}
      → d.consecutive_failures ≡ increment_u32 c.consecutive_failures
      → d.recent_outcomes ≡ window_after b c false p q
      → d.consecutive_failures < b.failure_threshold
      → ¬ IsFailing b (window_after b c false p q)
      → Move b (closed c) (fails p q r) (closed d)
  trips_on_success :
      {c : ClosedState} {p q r : ℕ}
      → IsFailing b (window_after b c true p q)
      → Move b (closed c) (succeeds p q r) (opened r)
  trips_on_failure :
      {c : ClosedState} {p q r : ℕ}
      → (b.failure_threshold ≤ increment_u32 c.consecutive_failures)
        ⊎ IsFailing b (window_after b c false p q)
      → Move b (closed c) (fails p q r) (opened r)
  heals :
      {n p q r : ℕ}
      → increment_u32 n < b.success_threshold
      → Move b (half_open n) (succeeds p q r) (half_open (increment_u32 n))
  closes :
      {n p q r : ℕ}
      → b.success_threshold ≤ increment_u32 n
      → Move b (half_open n) (succeeds p q r) (closed fresh_closed)
  reopens : {n p q r : ℕ} → Move b (half_open n) (fails p q r) (opened r)

module _ (b : CircuitBreaker) where
  allow-Move :
      (s : CircuitBreakerState) (now : ℕ)
      → b.state ≡ s
      → Move b s (allows now) (allow_request_in s b now).0.state
  unfolding allow_request_in
  allow-Move (closed c) now e = subst (Move b (closed c) (allows now)) (sym e) passes
  allow-Move (half_open n) now e = subst (Move b (half_open n) (allows now)) (sym e) probes
  allow-Move (opened t) now e = elim (Bool-cases (leb b.open_duration (now - t))) [
    | inl over ↦ rw over (cools (ground arith))
    | inr early ↦ rw early (subst (Move b (opened t) (allows now)) (sym e) (rejects (ground arith)))
  ]

  success-Move :
      (s : CircuitBreakerState) (p q r : ℕ)
      → b.state ≡ s
      → Move b s (succeeds p q r) (record_success_in s b p q r).state
  unfolding record_success_in push_outcome
  success-Move (closed c) p q r e =
      let os : List OutcomeRecord = push_outcome c.recent_outcomes b.failure_window true p q in
      let high_iff = is_failure_rate_threshold_reached_iff os b.failure_threshold in
      elim (Bool-cases (is_failure_rate_threshold_reached os b.failure_threshold)) [
        | inl high ↦ rw high (trips_on_success (high_iff.0 high))
        | inr low ↦
            rw low (counts_success refl refl (λ failing. absurd (cc (high_iff.1 failing, low))))
      ]
  success-Move (half_open n) p q r e =
      elim (Bool-cases (leb b.success_threshold (increment_u32 n))) [
        | inl enough ↦ rw enough (closes (ground arith))
        | inr few ↦ rw few (heals (ground arith))
      ]
  success-Move (opened t) p q r e = subst (Move b (opened t) (succeeds p q r)) (sym e) late_success

  failure-Move :
      (s : CircuitBreakerState) (p q r : ℕ)
      → b.state ≡ s
      → Move b s (fails p q r) (record_failure_in s b p q r).state
  unfolding record_failure_in push_outcome
  failure-Move (closed c) p q r e =
      let os : List OutcomeRecord = push_outcome c.recent_outcomes b.failure_window false p q in
      let high_iff = is_failure_rate_threshold_reached_iff os b.failure_threshold in
      elim (Bool-cases (leb b.failure_threshold (increment_u32 c.consecutive_failures))) [
        | inl many ↦ rw many (trips_on_failure (inl (leb→le _ _ many)))
        | inr few ↦ elim (Bool-cases (is_failure_rate_threshold_reached os b.failure_threshold)) [
          | inl high ↦ rw (few, high) (trips_on_failure (inr (high_iff.0 high)))
          | inr low ↦
              rw (few, low)
                (counts_failure refl refl (ground arith)
                  (λ failing. absurd (cc (high_iff.1 failing, low))))
        ]
      ]
  failure-Move (half_open n) p q r e = reopens
  failure-Move (opened t) p q r e = subst (Move b (opened t) (fails p q r)) (sym e) late_failure

-- Every call of every breaker, at any readings of the clock, makes one of the moves of the diagram:
-- an open breaker is left only by a request that comes when the open duration is over, and only to
-- half-open; a half-open one closes only on enough successes and reopens on one failure; a closed
-- one opens exactly if its window, with the new outcome, has enough samples of which more than half
-- are failures, or if that outcome is a failure with which the failures in a row reach the
-- threshold, and else it keeps that window and the number of failures in a row.
pub step-Move : (b : CircuitBreaker) (c : Call) → Move b b.state c (step b c).state
unfolding step allow_request record_success record_failure
step-Move b (allows now) = allow-Move b b.state now refl
step-Move b (succeeds p q r) = success-Move b b.state p q r refl
step-Move b (fails p q r) = failure-Move b b.state p q r refl

-- A call at a time at which an opening at `t` is not over. Outcomes may come at any time.
abbrev pub IsEarly : ℕ → ℕ → Call → Type 0
IsEarly d t (allows now) = now - t < d
IsEarly d t (succeeds p q r) = Unit {0}
IsEarly d t (fails p q r) = Unit {0}

step_early :
    (b : CircuitBreaker) (t : ℕ) (c : Call)
    → b.state ≡ opened t
    → IsEarly b.open_duration t c
    → ((step b c).state ≡ opened t) × ((step b c).open_duration ≡ b.open_duration)
unfolding step allow_request record_success record_failure
step_early b t (allows now) e h = ground arith
step_early b t (succeeds p q r) e h = ground arith
step_early b t (fails p q r) e h = ground arith

run_early :
    (b : CircuitBreaker) (t d : ℕ) (cs : List Call)
    → b.state ≡ opened t
    → b.open_duration ≡ d
    → All (IsEarly d t) cs
    → ((run b cs).state ≡ opened t) × ((run b cs).open_duration ≡ d)
unfolding run
run_early b t d [] e k h = (e, k)
run_early b t d (c ∷ cs) e k h =
    let p : ((step b c).state ≡ opened t) × ((step b c).open_duration ≡ b.open_duration) =
      step_early b t c e (subst (λ x. IsEarly x t c) (sym k) h.0) in
    run_early (step b c) t d cs p.0 (p.1 ∙ k) h.1

rejected_early :
    (b : CircuitBreaker) (t now : ℕ)
    → b.state ≡ opened t
    → now - t < b.open_duration
    → (e : CircuitBreakerOpenError) × ((allow_request b now).1 ≡ err e)
unfolding allow_request
rejected_early b t now s k = (
  record {
    service_name = b.service_name;
    remaining_open_seconds = (b.open_duration - (now - t)) / nanos_per_second;
  },
  ground arith,
)

-- A breaker that opened at `t` rejects every request that comes before its open duration is over,
-- whatever requests and outcomes came in between, as long as none of the requests came later.
pub open_rejects :
    (b : CircuitBreaker) (t now : ℕ) (cs : List Call)
    → b.state ≡ opened t
    → All (IsEarly b.open_duration t) cs
    → now - t < b.open_duration
    → (e : CircuitBreakerOpenError) × ((allow_request (run b cs) now).1 ≡ err e)
open_rejects b t now cs e h k =
    let p : ((run b cs).state ≡ opened t) × ((run b cs).open_duration ≡ b.open_duration) =
      run_early b t b.open_duration cs e refl h in
    rejected_early (run b cs) t now p.0 (subst (λ (d : ℕ). now - t < d) (sym p.1) k)
