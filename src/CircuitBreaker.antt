-- ===== src/CircuitBreaker.antt =====
-- The circuit breaker around an external service: src/resilience/circuit_breaker.rs.
-- An `Instant` and a `Duration` are numbers of nanoseconds. Every reading of the clock is an
-- argument of the operation that makes it, in the order in which it makes them. The mutex makes
-- each operation one step. The three metrics of the service (src/infra/metrics.rs) are a part of
-- the state, since the operations write them; log lines are not modelled.
pub mod Outcomes
pub mod Invariant
pub mod Transitions
pub mod Runs
mod Tests
use likes_service.Common.{
  ℕ, ◌+◌, ◌-◌, ◌*◌, ◌/◌, ◌%◌, Bool, true, false, not, ◌||◌, List, [], ◌∷◌, ◌++◌, Text, ltb, leb,
  length, select, if◌then◌else◌,
}
use likes_service.Common.Results.{Result, ok, err}

pub record OutcomeRecord : Type 0 where
  pub at : ℕ
  pub success : Bool

pub record ClosedState : Type 0 where
  pub consecutive_failures : ℕ
  pub recent_outcomes : List OutcomeRecord

pub data CircuitBreakerState : Type 0 where
  closed : ClosedState → CircuitBreakerState
  half_open : ℕ → CircuitBreakerState
  opened : ℕ → CircuitBreakerState

-- social_api_circuit_breaker_state, _open_total and _rejected_total, at the service's label.
pub record Metrics : Type 0 where
  pub state_gauge : ℕ
  pub open_total : ℕ
  pub rejected_total : ℕ

pub record CircuitBreaker : Type 0 where
  pub service_name : Text
  pub failure_threshold : ℕ
  pub open_duration : ℕ
  pub success_threshold : ℕ
  pub failure_window : ℕ
  pub state : CircuitBreakerState
  pub metrics : Metrics

pub record CircuitBreakerOpenError : Type 0 where
  pub service_name : Text
  pub remaining_open_seconds : ℕ

abbrev pub u32_mod : ℕ
u32_mod = 4294967296

abbrev pub nanos_per_second : ℕ
nanos_per_second = 1000000000

-- `x += 1` on a `u32`, in a release build.
unfoldable pub increment_u32 : ℕ → ℕ
increment_u32 x = (x + 1) % u32_mod

set_circuit_breaker_state : Metrics → ℕ → Metrics
set_circuit_breaker_state m g = record m { state_gauge = g }

record_circuit_breaker_open : Metrics → Metrics
record_circuit_breaker_open m = record m { open_total = m.open_total + 1 }

record_circuit_breaker_rejected : Metrics → Metrics
record_circuit_breaker_rejected m = record m { rejected_total = m.rejected_total + 1 }

abbrev pub fresh_closed : ClosedState
fresh_closed = record { consecutive_failures = 0; recent_outcomes = [] }

-- The counters are the process', and go on from what they were.
unfoldable pub new : Text → ℕ → ℕ → ℕ → ℕ → Metrics → CircuitBreaker
unfolding set_circuit_breaker_state
new service_name failure_threshold open_duration success_threshold failure_window m = record {
  service_name = service_name;
  failure_threshold = failure_threshold;
  open_duration = open_duration;
  success_threshold = success_threshold;
  failure_window = failure_window;
  state = closed fresh_closed;
  metrics = set_circuit_breaker_state m 0;
}

-- `while let Some(front)`: the front is popped as long as it is older than the window.
unfoldable pub prune_outcomes : List OutcomeRecord → ℕ → ℕ → List OutcomeRecord
prune_outcomes [] failure_window now = []
prune_outcomes (front ∷ rest) failure_window now =
    let pruned = prune_outcomes rest failure_window now in
    if ltb failure_window (now - front.at) then pruned else front ∷ rest

abbrev pub failures : List OutcomeRecord → ℕ
failures outcomes = length (select (λ o. not o.success) outcomes)

unfoldable pub is_failure_rate_threshold_reached : List OutcomeRecord → ℕ → Bool
is_failure_rate_threshold_reached outcomes minimum_samples =
    if ltb (length outcomes) minimum_samples
    then false
    else ltb (length outcomes) (failures outcomes * 2)

-- `*state = Open { opened_at }` with its two metrics.
trip : CircuitBreaker → ℕ → CircuitBreaker
unfolding set_circuit_breaker_state record_circuit_breaker_open
trip b opened_at = record b {
  state = opened opened_at;
  metrics = set_circuit_breaker_state (record_circuit_breaker_open b.metrics) 2;
}

allow_request_in :
    CircuitBreakerState → CircuitBreaker → ℕ → CircuitBreaker × Result CircuitBreakerOpenError Unit
unfolding set_circuit_breaker_state record_circuit_breaker_rejected
allow_request_in (closed c) b now = (b, ok tt)
allow_request_in (half_open n) b now = (b, ok tt)
allow_request_in (opened opened_at) b now =
    if leb b.open_duration (now - opened_at)
    then (record b { state = half_open 0; metrics = set_circuit_breaker_state b.metrics 1 }, ok tt)
    else (
      record b { metrics = record_circuit_breaker_rejected b.metrics },
      err (record {
        service_name = b.service_name;
        remaining_open_seconds = (b.open_duration - (now - opened_at)) / nanos_per_second;
      }),
    )

unfoldable pub allow_request :
    CircuitBreaker → ℕ → CircuitBreaker × Result CircuitBreakerOpenError Unit
unfolding allow_request_in
allow_request b now = allow_request_in b.state b now

-- The outcomes after one more: pruned at `pruned_at`, then extended at `pushed_at`.
unfoldable pub push_outcome : List OutcomeRecord → ℕ → Bool → ℕ → ℕ → List OutcomeRecord
unfolding prune_outcomes
push_outcome outcomes failure_window success pruned_at pushed_at =
    prune_outcomes outcomes failure_window pruned_at
    ++ record { at = pushed_at; success = success } ∷ []

record_success_in : CircuitBreakerState → CircuitBreaker → ℕ → ℕ → ℕ → CircuitBreaker
unfolding trip set_circuit_breaker_state is_failure_rate_threshold_reached push_outcome
record_success_in (closed c) b pruned_at pushed_at opened_at =
    let outcomes = push_outcome c.recent_outcomes b.failure_window true pruned_at pushed_at in
    if is_failure_rate_threshold_reached outcomes b.failure_threshold
    then trip b opened_at
    else record b {
      state = closed (record { consecutive_failures = 0; recent_outcomes = outcomes });
    }
record_success_in (half_open consecutive_successes) b pruned_at pushed_at opened_at =
    let successes = increment_u32 consecutive_successes in
    if leb b.success_threshold successes
    then record b { state = closed fresh_closed; metrics = set_circuit_breaker_state b.metrics 0 }
    else record b { state = half_open successes }
record_success_in (opened at) b pruned_at pushed_at opened_at = b

unfoldable pub record_success : CircuitBreaker → ℕ → ℕ → ℕ → CircuitBreaker
unfolding record_success_in
record_success b pruned_at pushed_at opened_at =
    record_success_in b.state b pruned_at pushed_at opened_at

record_failure_in : CircuitBreakerState → CircuitBreaker → ℕ → ℕ → ℕ → CircuitBreaker
unfolding trip is_failure_rate_threshold_reached push_outcome
record_failure_in (closed c) b pruned_at pushed_at opened_at =
    let consecutive = increment_u32 c.consecutive_failures in
    let outcomes = push_outcome c.recent_outcomes b.failure_window false pruned_at pushed_at in
    if leb b.failure_threshold consecutive
      || is_failure_rate_threshold_reached outcomes b.failure_threshold
    then trip b opened_at
    else record b {
      state = closed (record { consecutive_failures = consecutive; recent_outcomes = outcomes });
    }
record_failure_in (half_open n) b pruned_at pushed_at opened_at = trip b opened_at
record_failure_in (opened at) b pruned_at pushed_at opened_at = b

unfoldable pub record_failure : CircuitBreaker → ℕ → ℕ → ℕ → CircuitBreaker
unfolding record_failure_in
record_failure b pruned_at pushed_at opened_at =
    record_failure_in b.state b pruned_at pushed_at opened_at
