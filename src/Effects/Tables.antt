-- ===== src/Effects/Tables.antt =====
-- Actions that leave the primary's tables as they are.
use likes_service.Common.{ℕ, ◌≡◌, refl, ◌∙◌, List, [], ◌∷◌}
use likes_service.Storage.{Database}
use likes_service.Effects.{
  World, Exec, Metric, modify, after_reading, read_clock, redis_outcome, record_metric,
}
use likes_service.Effects.Keeps.{Keeps}

abbrev pub HasTables : Database → World → Type 0
HasTables d w = w.db ≡ d

-- `m` leaves the primary's tables as they are, if they are `d`.
abbrev pub KeepsTables : {E A : Type 0} → Database → Exec E A → Type 0
KeepsTables d m = Keeps (HasTables d) m

after_reading-db : (ds : List ℕ) (w : World) → (after_reading ds w).1.db ≡ w.db
unfolding after_reading
after_reading-db [] w = refl
after_reading-db (t ∷ ds) w = refl

module _ {E : Type 0} {d : Database} where
  pub KeepsTables-modify :
      (f : World → World) → ((w : World) → (f w).db ≡ w.db) → KeepsTables d (modify {E = E} f)
  unfolding modify
  KeepsTables-modify f same = record { kept = λ w h. same w ∙ h }

  pub KeepsTables-read_clock : KeepsTables d (read_clock {E = E})
  unfolding read_clock
  KeepsTables-read_clock = record { kept = λ w h. after_reading-db w.elapses w ∙ h }

  pub KeepsTables-redis_outcome : KeepsTables d (redis_outcome {E = E})
  unfolding redis_outcome
  KeepsTables-redis_outcome = record { kept = λ w h. h }

  pub KeepsTables-record_metric : (m : Metric) → KeepsTables d (record_metric {E = E} m)
  unfolding record_metric modify
  KeepsTables-record_metric m = record { kept = λ w h. h }

pub ruleset tables_rules =
    (KeepsTables-read_clock, KeepsTables-redis_outcome, KeepsTables-record_metric)
