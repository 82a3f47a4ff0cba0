-- ===== src/Effects/Frame.antt =====
-- Actions that leave the replica's tables and the fills in flight as they are.
use likes_service.Common.{ℕ, ◌≡◌, List, [], ◌∷◌, Text, Bool, true, false, if◌then◌else◌}
use likes_service.Common.Maps.{Map}
use likes_service.Storage.{Database}
use likes_service.Effects.{
  World, Exec, Metric, modify, after_reading, read_clock, redis_outcome, record_metric,
}
use likes_service.Effects.Keeps.{Keeps}

-- The replica's tables are `d`, and the fills in flight `m`.
abbrev pub Frame : Database → Map Text ℕ → World → Type 0
Frame d m w = (w.read_db ≡ d) × (w.like_count_cache_inflight ≡ m)

abbrev pub KeepsFrame : {E A : Type 0} → Database → Map Text ℕ → Exec E A → Type 0
KeepsFrame d m a = Keeps (Frame d m) a

module _ {d : Database} {m : Map Text ℕ} where
  after_reading-Frame : (ds : List ℕ) (w : World) → Frame d m w → Frame d m (after_reading ds w).1
  unfolding after_reading
  after_reading-Frame [] w h = h
  after_reading-Frame (t ∷ ds) w h = h

  pub if-Frame :
      {A : Type 0} (b : Bool) (x y : A × World)
      → Frame d m x.1
      → Frame d m y.1
      → Frame d m (if b then x else y).1
  if-Frame true x y h k = h
  if-Frame false x y h k = k

module _ {E : Type 0} {d : Database} {m : Map Text ℕ} where
  pub KeepsFrame-read_clock : KeepsFrame d m (read_clock {E = E})
  unfolding read_clock
  KeepsFrame-read_clock = record { kept = λ w h. after_reading-Frame w.elapses w h }

  pub KeepsFrame-modify :
      (f : World → World)
      → ((w : World) → Frame d m w → Frame d m (f w))
      → KeepsFrame d m (modify {E = E} f)
  unfolding modify
  KeepsFrame-modify f same = record { kept = same }

  pub KeepsFrame-record_metric : (x : Metric) → KeepsFrame d m (record_metric {E = E} x)
  unfolding record_metric modify
  KeepsFrame-record_metric x = record { kept = λ w h. h }

  pub KeepsFrame-redis_outcome : KeepsFrame d m (redis_outcome {E = E})
  unfolding redis_outcome
  KeepsFrame-redis_outcome = record { kept = λ w h. h }
