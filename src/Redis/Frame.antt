-- ===== src/Redis/Frame.antt =====
-- A GET or an MGET leaves the replica's tables and the fills in flight as they are.
use likes_service.Common.{ℕ, List, Text}
use likes_service.Common.Maps.{Map}
use likes_service.Storage.{Database}
use likes_service.Effects.{Outcome, done, failed, unacknowledged, redis_outcome}
use likes_service.Effects.Frame.{KeepsFrame, KeepsFrame-redis_outcome, if-Frame}
use likes_service.Effects.Keeps.{Keeps-bind, Keeps-pure, Keeps-raise}
use likes_service.Redis.{
  answered, execute, connected, connect, get_redis_connection, get_integer, get_integers,
}

module _ {d : Database} {m : Map Text ℕ} where
  answered-Frame : (key : Text) (o : Outcome) → KeepsFrame d m (answered (get_integer key) o)
  unfolding answered get_integer
  answered-Frame key done = record { kept = λ w h. h }
  answered-Frame key (failed e) = record { kept = λ w h. h }
  answered-Frame key (unacknowledged e) = record { kept = λ w h. h }

  pub get_integer-Frame : (key : Text) → KeepsFrame d m (execute (get_integer key))
  unfolding execute
  get_integer-Frame key = Keeps-bind redis_outcome _ KeepsFrame-redis_outcome (answered-Frame key)

  answered_all-Frame :
      (keys : List Text) (o : Outcome) → KeepsFrame d m (answered (get_integers keys) o)
  unfolding answered get_integers
  answered_all-Frame keys done = record { kept = λ w h. h }
  answered_all-Frame keys (failed e) = record { kept = λ w h. h }
  answered_all-Frame keys (unacknowledged e) = record { kept = λ w h. h }

  pub get_integers-Frame : (keys : List Text) → KeepsFrame d m (execute (get_integers keys))
  unfolding execute
  get_integers-Frame keys =
      Keeps-bind redis_outcome _ KeepsFrame-redis_outcome (answered_all-Frame keys)

  connected-Frame : (o : Outcome) → KeepsFrame d m (connected o)
  unfolding connected
  connected-Frame done = Keeps-pure tt
  connected-Frame (failed e) = Keeps-raise e
  connected-Frame (unacknowledged e) = Keeps-raise e

  connect-Frame : KeepsFrame d m connect
  unfolding connect
  connect-Frame = Keeps-bind redis_outcome _ KeepsFrame-redis_outcome connected-Frame

  pub get_redis_connection-Frame : KeepsFrame d m get_redis_connection
  unfolding get_redis_connection
  get_redis_connection-Frame = record {
    kept = λ w h. if-Frame w.redis_connection _ (connect w) h (connect-Frame.kept w h);
  }
