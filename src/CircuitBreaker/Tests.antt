-- ===== src/CircuitBreaker/Tests.antt =====
-- The source's unit tests, and the theorems at concrete inputs.
use likes_service.Common.{
  ℕ, ◌*◌, ◌≡◌, refl, inr, List, [], ◌∷◌, arith, text, replicate, select, true, false,
}
use likes_service.Common.Results.{err}
use likes_service.CircuitBreaker.{
  CircuitBreaker, CircuitBreakerState, ClosedState, CircuitBreakerOpenError, Metrics, OutcomeRecord,
  closed, half_open, opened, fresh_closed, new, allow_request, record_success, record_failure,
  increment_u32, prune_outcomes,
}
use likes_service.CircuitBreaker.Outcomes.{in_window, prune_outcomes-select}
use likes_service.CircuitBreaker.Invariant.{
  Call, allows, succeeds, fails, run, step, IsWellFormed, run-new-IsWellFormed,
}
use likes_service.CircuitBreaker.Transitions.{Move, step-Move, open_rejects}
use likes_service.CircuitBreaker.Runs.{
  Instants, fail_all, succeed_all, fail_all-opens, fail_all-new, succeed_all-half_open,
}

abbrev seconds : ℕ → ℕ
seconds n = n * 1000000000

abbrev no_metrics : Metrics
no_metrics = record { state_gauge = 0; open_total = 0; rejected_total = 0 }

-- The breaker of the first unit test: 5 failures, 30 s open, 3 successes, 30 s window.
abbrev breaker : CircuitBreaker
breaker = new (text "test_service") 5 (seconds 30) 3 (seconds 30) no_metrics

abbrev mixed : List Call
mixed = fails 1 1 1 ∷ succeeds 2 2 2 ∷ fails 3 3 3 ∷ fails 4 4 4 ∷ succeeds 5 5 5 ∷ []

-- opens_when_failure_rate_exceeds_half_with_enough_samples
opens_on_rate : (run breaker mixed).state ≡ opened 5
unfolding run step new record_success record_failure increment_u32
opens_on_rate = refl

run-new-IsWellFormed_example : IsWellFormed (run breaker mixed)
run-new-IsWellFormed_example =
    run-new-IsWellFormed (text "test_service") 5 (seconds 30) 3 (seconds 30) no_metrics mixed
      (omega arith) (omega arith)

step-Move_example : Move breaker breaker.state (fails 1 2 3) (step breaker (fails 1 2 3)).state
step-Move_example = step-Move breaker (fails 1 2 3)

-- The same breaker in a given state.
abbrev in_state : CircuitBreakerState → CircuitBreaker
in_state s = record {
  service_name = text "test_service";
  failure_threshold = 5;
  open_duration = seconds 30;
  success_threshold = 3;
  failure_window = seconds 30;
  state = s;
  metrics = no_metrics;
}

-- A request one nanosecond before the opening is over, after a late success and an early request.
open_rejects_example :
    (e : CircuitBreakerOpenError) × ((allow_request
        (run (in_state (opened 5)) (succeeds 6 6 6 ∷ allows 7 ∷ []))
        30000000004).1
      ≡ err e)
open_rejects_example =
    open_rejects (in_state (opened 5)) 5 30000000004 (succeeds 6 6 6 ∷ allows 7 ∷ []) refl
      (omega arith) (omega arith)

abbrev one_failure : ClosedState
one_failure = record {
  consecutive_failures = 1;
  recent_outcomes = record { at = 1; success = false } ∷ [];
}

abbrev instants : ℕ → List Instants
instants n = replicate n (2, 2, 2)

fail_all-opens_example :
    (t : ℕ) × ((fail_all (in_state (closed one_failure)) (instants 4)).state ≡ opened t)
fail_all-opens_example =
    fail_all-opens (in_state (closed one_failure)) one_failure (instants 4) refl (omega arith)
      (inr (omega arith)) (omega arith) (omega arith)

fail_all-new_example : (t : ℕ) × ((fail_all breaker (instants 5)).state ≡ opened t)
fail_all-new_example =
    (fail_all-new (text "test_service") 5 (seconds 30) 3 (seconds 30) no_metrics (instants 5)
        (omega arith) (omega arith)).1
      (omega arith)

-- half_open_requires_success_threshold_to_close
succeed_all-half_open_example :
    (succeed_all (in_state (half_open 0)) (instants 3)).state ≡ closed fresh_closed
succeed_all-half_open_example =
    (succeed_all-half_open (in_state (half_open 0)) 0 (instants 3) refl (omega arith)
        (omega arith)).1
      refl

abbrev two_outcomes : List OutcomeRecord
two_outcomes = record { at = 1; success = true } ∷ record { at = 9; success = false } ∷ []

prune_outcomes-select_example :
    prune_outcomes two_outcomes 5 10 ≡ select (in_window 5 10) two_outcomes
prune_outcomes-select_example = prune_outcomes-select two_outcomes 5 10 (omega arith)
