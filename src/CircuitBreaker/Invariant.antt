-- ===== src/CircuitBreaker/Invariant.antt =====
-- What holds of a breaker between two calls, and the calls as one step function.
use likes_service.Common.{ℕ, ◌+◌, ◌<◌, ◌≡◌, ◌⊎◌, inl, inr, refl, List, [], ◌∷◌, arith, Text}
use likes_service.CircuitBreaker.{
  CircuitBreaker, CircuitBreakerState, Metrics, closed, half_open, opened, u32_mod, increment_u32,
  new, allow_request, record_success, record_failure,
}

-- One call with its readings of the clock.
pub data Call : Type 0 where
  allows : ℕ → Call
  succeeds fails : ℕ → ℕ → ℕ → Call

unfoldable pub step : CircuitBreaker → Call → CircuitBreaker
step b (allows now) = (allow_request b now).0
step b (succeeds pruned_at pushed_at opened_at) = record_success b pruned_at pushed_at opened_at
step b (fails pruned_at pushed_at opened_at) = record_failure b pruned_at pushed_at opened_at

unfoldable pub run : CircuitBreaker → List Call → CircuitBreaker
run b [] = b
run b (c ∷ cs) = run (step b c) cs

abbrev pub gauge_of : CircuitBreakerState → ℕ
gauge_of (closed c) = 0
gauge_of (half_open n) = 1
gauge_of (opened t) = 2

-- A counter is below its threshold, or has just been reset.
abbrev pub Counts : CircuitBreakerState → ℕ → ℕ → Type 0
Counts (closed c) failure_threshold success_threshold =
    (c.consecutive_failures ≡ 0) ⊎ (c.consecutive_failures < failure_threshold)
Counts (half_open n) failure_threshold success_threshold = (n ≡ 0) ⊎ (n < success_threshold)
Counts (opened t) failure_threshold success_threshold = Unit {0}

pub record IsWellFormed (b : CircuitBreaker) : Type 0 where
  pub failure_u32 : b.failure_threshold < u32_mod
  pub success_u32 : b.success_threshold < u32_mod
  pub gauge_agrees : b.metrics.state_gauge ≡ gauge_of b.state
  pub counts : Counts b.state b.failure_threshold b.success_threshold

-- A counter that is reset or below a `u32` threshold does not wrap.
pub increment_u32_exact : (x n : ℕ) → n < u32_mod → (x ≡ 0) ⊎ (x < n) → increment_u32 x ≡ x + 1
unfolding increment_u32
increment_u32_exact x n h (inl z) = omega arith
increment_u32_exact x n h (inr l) = omega arith

module _ (b : CircuitBreaker) (now pushed_at opened_at : ℕ) where
  allow_request-IsWellFormed :
      (s : CircuitBreakerState)
      → b.state ≡ s
      → IsWellFormed b
      → IsWellFormed (allow_request b now).0
  unfolding allow_request
  allow_request-IsWellFormed (closed c) e v = ground arith
  allow_request-IsWellFormed (half_open n) e v = ground arith
  allow_request-IsWellFormed (opened t) e v = ground arith

  record_success-IsWellFormed :
      (s : CircuitBreakerState)
      → b.state ≡ s
      → IsWellFormed b
      → IsWellFormed (record_success b now pushed_at opened_at)
  unfolding record_success
  record_success-IsWellFormed (closed c) e v = ground arith
  record_success-IsWellFormed (half_open n) e v =
      ground (arith, increment_u32_exact n b.success_threshold)
  record_success-IsWellFormed (opened t) e v = ground arith

  record_failure-IsWellFormed :
      (s : CircuitBreakerState)
      → b.state ≡ s
      → IsWellFormed b
      → IsWellFormed (record_failure b now pushed_at opened_at)
  unfolding record_failure
  record_failure-IsWellFormed (closed c) e v =
      ground (arith, increment_u32_exact c.consecutive_failures b.failure_threshold)
  record_failure-IsWellFormed (half_open n) e v = ground arith
  record_failure-IsWellFormed (opened t) e v = ground arith

pub step-IsWellFormed : (b : CircuitBreaker) (c : Call) → IsWellFormed b → IsWellFormed (step b c)
unfolding step
step-IsWellFormed b (allows now) v = allow_request-IsWellFormed b now 0 0 b.state refl v
step-IsWellFormed b (succeeds p q r) v = record_success-IsWellFormed b p q r b.state refl v
step-IsWellFormed b (fails p q r) v = record_failure-IsWellFormed b p q r b.state refl v

run-IsWellFormed : (b : CircuitBreaker) (cs : List Call) → IsWellFormed b → IsWellFormed (run b cs)
unfolding run
run-IsWellFormed b [] v = v
run-IsWellFormed b (c ∷ cs) v = run-IsWellFormed (step b c) cs (step-IsWellFormed b c v)

-- A new breaker whose thresholds fit `u32` is, after any calls at any times, such that its gauge
-- shows its state and each counter of the state is zero or below the breaker's threshold for it, and
-- the thresholds still fit `u32`.
pub run-new-IsWellFormed :
    (name : Text) (ft od st fw : ℕ) (m : Metrics) (cs : List Call)
    → ft < u32_mod
    → st < u32_mod
    → IsWellFormed (run (new name ft od st fw m) cs)
unfolding new
run-new-IsWellFormed name ft od st fw m cs h k =
    run-IsWellFormed _ cs
      (record { failure_u32 = h; success_u32 = k; gauge_agrees = refl; counts = inl refl })
