-- ===== src/CircuitBreaker/Runs.antt =====
-- How many outcomes in a row open and close a breaker.
use native.Mathlib.Decide.{dec_lt}
use likes_service.Common.{
  ap, ◌∙◌, ℕ, ◌+◌, ◌≤◌, ◌<◌, ◌≡◌, ◌⊎◌, inl, inr, refl, false, Bool, Bool-cases, List, [], ◌∷◌,
  arith, leb, length, ◌||◌, length-append, Text,
}
use likes_service.CircuitBreaker.{
  CircuitBreaker, ClosedState, Metrics, OutcomeRecord, closed, half_open, opened, u32_mod,
  increment_u32, fresh_closed, new, record_success, record_failure, push_outcome, prune_outcomes,
  is_failure_rate_threshold_reached,
}

-- The three readings of the clock of one outcome.
abbrev pub Instants : Type 0
Instants = ℕ × ℕ × ℕ

unfoldable pub fail_all : CircuitBreaker → List Instants → CircuitBreaker
fail_all b [] = b
fail_all b ((p, q, r) ∷ ts) = fail_all (record_failure b p q r) ts

unfoldable pub succeed_all : CircuitBreaker → List Instants → CircuitBreaker
succeed_all b [] = b
succeed_all b ((p, q, r) ∷ ts) = succeed_all (record_success b p q r) ts

-- An open breaker ignores outcomes.
fail_all-opened :
    (b : CircuitBreaker) (t : ℕ) (ts : List Instants)
    → b.state ≡ opened t
    → (fail_all b ts).state ≡ opened t
unfolding fail_all record_failure
fail_all-opened b t [] e = e
fail_all-opened b t ((p, q, r) ∷ ts) e =
    fail_all-opened (record_failure b p q r) t ts (ground arith)

length-prune-le :
    (os : List OutcomeRecord) (w now : ℕ) → length (prune_outcomes os w now) ≤ length os
unfolding prune_outcomes
length-prune-le [] w now = omega arith
length-prune-le (o ∷ os) w now = ground (arith, length-prune-le os w now)

length-push_outcome-le :
    (os : List OutcomeRecord) (w : ℕ) (s : Bool) (p q : ℕ)
    → length (push_outcome os w s p q) ≤ length os + 1
unfolding push_outcome
length-push_outcome-le os w s p q = omega (
  arith,
  length-prune-le os w p,
  length-append (prune_outcomes os w p) (record { at = q; success = s } ∷ []),
)

-- Too few samples never reach the rate.
few_samples :
    (os : List OutcomeRecord) (n : ℕ)
    → length os < n
    → is_failure_rate_threshold_reached os n ≡ false
unfolding is_failure_rate_threshold_reached
few_samples os n h = ground arith

-- What a failure does to a closed breaker: it opens, or counts one more below the threshold.
abbrev Failed : CircuitBreaker → ClosedState → CircuitBreaker → Type 0
Failed b c b' =
    ((t : ℕ) × (b'.state ≡ opened t))
    ⊎ ((d : ClosedState) × (b'.state ≡ closed d)
        × (d.consecutive_failures ≡ c.consecutive_failures + 1)
        × (c.consecutive_failures + 1 < b.failure_threshold)
        × (b'.failure_threshold ≡ b.failure_threshold))

record_failure-closed :
    (b : CircuitBreaker) (c : ClosedState) (p q r : ℕ)
    → b.state ≡ closed c
    → c.consecutive_failures + 1 < u32_mod
    → Failed b c (record_failure b p q r)
unfolding record_failure increment_u32
record_failure-closed b c p q r e h =
    let os : List OutcomeRecord = push_outcome c.recent_outcomes b.failure_window false p q in
    elim (Bool-cases (
      leb b.failure_threshold (c.consecutive_failures + 1)
      || is_failure_rate_threshold_reached os b.failure_threshold)) [
        | inl high ↦ inl (r, ground arith)
        | inr low ↦ inr (
          record { consecutive_failures = c.consecutive_failures + 1; recent_outcomes = os },
          ground arith,
          refl,
          ground arith,
          ground arith,
        )
      ]

-- From a closed breaker whose threshold fits `u32`, failures in a row that bring the count of
-- consecutive failures to the threshold open it, whatever outcomes came before and whenever they
-- come: it may only open sooner.
pub fail_all-opens :
    (b : CircuitBreaker) (c : ClosedState) (ts : List Instants)
    → b.state ≡ closed c
    → b.failure_threshold < u32_mod
    → (c.consecutive_failures ≡ 0) ⊎ (c.consecutive_failures < b.failure_threshold)
    → 1 ≤ length ts
    → b.failure_threshold ≤ c.consecutive_failures + length ts
    → (t : ℕ) × ((fail_all b ts).state ≡ opened t)
unfolding fail_all
fail_all-opens b c [] e u v n h = absurd (omega arith)
fail_all-opens b c ((p, q, r) ∷ ts) e u v n h =
    elim (record_failure-closed b c p q r e (omega arith)) [
      | inl (t, o) ↦ (t, fail_all-opened (record_failure b p q r) t ts o)
      | inr (d, s, k, below, same) ↦
          fail_all-opens (record_failure b p q r) d ts s (omega arith) (omega arith) (omega arith)
            (omega arith)
    ]

record_failure_few :
    (b : CircuitBreaker) (c : ClosedState) (p q r : ℕ)
    → b.state ≡ closed c
    → b.failure_threshold < u32_mod
    → c.consecutive_failures + 1 < b.failure_threshold
    → length c.recent_outcomes + 1 < b.failure_threshold
    → (d : ClosedState) × ((record_failure b p q r).state ≡ closed d)
      × (d.consecutive_failures ≡ c.consecutive_failures + 1)
      × (length d.recent_outcomes ≤ length c.recent_outcomes + 1)
      × ((record_failure b p q r).failure_threshold ≡ b.failure_threshold)
unfolding record_failure increment_u32
record_failure_few b c p q r e u h k =
    let os : List OutcomeRecord = push_outcome c.recent_outcomes b.failure_window false p q in
    let short = length-push_outcome-le c.recent_outcomes b.failure_window false p q in
    (
      record { consecutive_failures = c.consecutive_failures + 1; recent_outcomes = os },
      ground (arith, few_samples os b.failure_threshold, short),
      refl,
      short,
      ground (arith, few_samples os b.failure_threshold, short),
    )

fail_all_few :
    (b : CircuitBreaker) (c : ClosedState) (ts : List Instants)
    → b.state ≡ closed c
    → b.failure_threshold < u32_mod
    → c.consecutive_failures + length ts < b.failure_threshold
    → length c.recent_outcomes + length ts < b.failure_threshold
    → (d : ClosedState) × ((fail_all b ts).state ≡ closed d)
      × (d.consecutive_failures ≡ c.consecutive_failures + length ts)
unfolding fail_all
fail_all_few b c [] e u h k = (c, e, omega arith)
fail_all_few b c ((p, q, r) ∷ ts) e u h k =
    let (d, s, x, y, z) = record_failure_few b c p q r e u (omega arith) (omega arith) in
    let (f, s', x') =
      fail_all_few (record_failure b p q r) d ts s (omega arith) (omega arith) (omega arith) in
    (f, s', omega arith)

-- A new breaker with a threshold between 1 and `u32::MAX`, and nothing but failures: after fewer
-- than the threshold it is closed and has counted each, after the threshold or more it is open.
pub fail_all-new :
    (name : Text) (ft od st fw : ℕ) (m : Metrics) (ts : List Instants)
    → 1 ≤ ft
    → ft < u32_mod
    → (length ts < ft
        → (d : ClosedState) × ((fail_all (new name ft od st fw m) ts).state ≡ closed d)
          × (d.consecutive_failures ≡ length ts))
      × (ft ≤ length ts → (t : ℕ) × ((fail_all (new name ft od st fw m) ts).state ≡ opened t))
unfolding new
fail_all-new name ft od st fw m ts pos u = (
  λ few.
      let (d, s, x) =
        fail_all_few (new name ft od st fw m) fresh_closed ts refl u (omega arith) (omega arith) in
      (d, s, omega arith),
  λ many.
      fail_all-opens (new name ft od st fw m) fresh_closed ts refl u (inl refl) (omega arith)
        (omega arith),
)

record_success-half_open :
    (b : CircuitBreaker) (n p q r : ℕ)
    → b.state ≡ half_open n
    → n + 1 < u32_mod
    → (n + 1 < b.success_threshold → (record_success b p q r).state ≡ half_open (n + 1))
      × (b.success_threshold ≤ n + 1 → (record_success b p q r).state ≡ closed fresh_closed)
      × ((record_success b p q r).success_threshold ≡ b.success_threshold)
unfolding record_success increment_u32
record_success-half_open b n p q r e h = (λ few. ground arith, λ many. ground arith, ground arith)

-- A half-open breaker with a threshold between 1 and `u32::MAX` closes, with nothing counted, on
-- exactly as many successes in a row as are missing to the threshold, and counts them until then.
pub succeed_all-half_open :
    (b : CircuitBreaker) (n : ℕ) (ts : List Instants)
    → b.state ≡ half_open n
    → b.success_threshold < u32_mod
    → n < b.success_threshold
    → (n + length ts < b.success_threshold → (succeed_all b ts).state ≡ half_open (n + length ts))
      × (n + length ts ≡ b.success_threshold → (succeed_all b ts).state ≡ closed fresh_closed)
unfolding succeed_all
succeed_all-half_open b n [] e u h = (λ few. ground (arith), λ all. absurd (omega arith))
succeed_all-half_open b n ((p, q, r) ∷ []) e u h =
    let (few, enough, same) = record_success-half_open b n p q r e (omega arith) in
    (λ l. few (omega arith), λ l. enough (omega arith))
succeed_all-half_open b n ((p, q, r) ∷ t ∷ ts) e u h =
    let (few, enough, same) = record_success-half_open b n p q r e (omega arith) in
    elim (dec_lt (n + 1) b.success_threshold) [
      | yes more ↦
          let (counts, closes) =
            succeed_all-half_open (record_success b p q r) (n + 1) (t ∷ ts) (few more) (omega arith)
              (omega arith) in
          (λ l. counts (omega arith) ∙ ap half_open (omega arith), λ l. closes (omega arith))
      | no last ↦ (λ l. absurd (omega arith), λ l. absurd (omega arith))
    ]
