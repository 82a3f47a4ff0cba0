-- ===== src/CircuitBreaker/Outcomes.antt =====
-- The sliding window of outcomes (prune_outcomes, is_failure_rate_threshold_reached).
use likes_service.Common.{
  ℕ, ◌-◌, ◌*◌, ◌≤◌, ◌<◌, ◌≡◌, ◌↔◌, refl, Bool, true, List, [], ◌∷◌, ◌++◌, arith, ltb, leb, length,
  select, All, All-append, Bool-cases, inl, inr,
}
use likes_service.CircuitBreaker.{
  OutcomeRecord, failures, prune_outcomes, push_outcome, is_failure_rate_threshold_reached,
}

-- Oldest first.
abbrev pub IsChronological : List OutcomeRecord → Type 0
IsChronological [] = Unit {0}
IsChronological (o ∷ os) = All (λ p. o.at ≤ p.at) os × IsChronological os

-- Whether an outcome is no older than the window.
abbrev pub in_window : ℕ → ℕ → OutcomeRecord → Bool
in_window failure_window now o = leb (now - o.at) failure_window

select_recent :
    (w now t : ℕ) (os : List OutcomeRecord)
    → now - t ≤ w
    → All (λ p. t ≤ p.at) os
    → select (in_window w now) os ≡ os
select_recent w now t [] h a = refl
select_recent w now t (o ∷ os) h a = ground (arith, select_recent w now t os h a.1)

-- On outcomes in the order of time, popping old ones from the front keeps exactly those that are
-- in the window.
pub prune_outcomes-select :
    (os : List OutcomeRecord) (w now : ℕ)
    → IsChronological os
    → prune_outcomes os w now ≡ select (in_window w now) os
unfolding prune_outcomes
prune_outcomes-select [] w now c = refl
prune_outcomes-select (o ∷ os) w now c =
    ground (arith, prune_outcomes-select os w now c.1, select_recent w now o.at os)

All-prune :
    (P : OutcomeRecord → Type 0) (os : List OutcomeRecord) (w now : ℕ)
    → All P os
    → All P (prune_outcomes os w now)
unfolding prune_outcomes
All-prune P [] w now a = tt
All-prune P (o ∷ os) w now a = elim (Bool-cases (ltb w (now - o.at))) [
  | inl old ↦ rw old (All-prune P os w now a.1)
  | inr recent ↦ rw recent a
]

prune-IsChronological :
    (os : List OutcomeRecord) (w now : ℕ)
    → IsChronological os
    → IsChronological (prune_outcomes os w now)
unfolding prune_outcomes
prune-IsChronological [] w now c = tt
prune-IsChronological (o ∷ os) w now c = elim (Bool-cases (ltb w (now - o.at))) [
  | inl old ↦ rw old (prune-IsChronological os w now c.1)
  | inr recent ↦ rw recent c
]

append-IsChronological :
    (os : List OutcomeRecord) (o : OutcomeRecord)
    → IsChronological os
    → All (λ p. p.at ≤ o.at) os
    → IsChronological (os ++ o ∷ [])
append-IsChronological [] o c a = (tt, tt)
append-IsChronological (p ∷ os) o c a =
    (All-append _ os (o ∷ []) c.0 (a.0, tt), append-IsChronological os o c.1 a.1)

All-at_mono :
    (os : List OutcomeRecord) (t u : ℕ) → t ≤ u → All (λ p. p.at ≤ t) os → All (λ p. p.at ≤ u) os
All-at_mono [] t u h a = tt
All-at_mono (o ∷ os) t u h a = (omega arith, All-at_mono os t u h a.1)

module _ (os : List OutcomeRecord) (w : ℕ) (success : Bool) (now pushed_at : ℕ)
    (c : IsChronological os) (past : All (λ p. p.at ≤ now) os) (later : now ≤ pushed_at) where
  pub push_outcome-IsChronological : IsChronological (push_outcome os w success now pushed_at)
  unfolding push_outcome
  push_outcome-IsChronological =
      append-IsChronological (prune_outcomes os w now) _ (prune-IsChronological os w now c)
        (All-at_mono (prune_outcomes os w now) now pushed_at later (All-prune _ os w now past))

  pub push_outcome-past : All (λ p. p.at ≤ pushed_at) (push_outcome os w success now pushed_at)
  unfolding push_outcome
  push_outcome-past =
      All-append _ (prune_outcomes os w now) _
        (All-at_mono (prune_outcomes os w now) now pushed_at later (All-prune _ os w now past))
        (omega arith, tt)

-- The rate is reached exactly with enough samples, more than half of them failures.
pub is_failure_rate_threshold_reached_iff :
    (os : List OutcomeRecord) (n : ℕ)
    → (is_failure_rate_threshold_reached os n ≡ true)
      ↔ ((n ≤ length os) × (length os < failures os * 2))
unfolding is_failure_rate_threshold_reached
is_failure_rate_threshold_reached_iff os n = ground arith
