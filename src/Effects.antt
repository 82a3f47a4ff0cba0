-- ===== src/Effects.antt =====
-- What a request handler acts on: the state of the process (src/app_state.rs, AppState), of Postgres
-- and of Redis, and what the environment does. A handler is an action of `Exec`.
--
-- The environment is a schedule: each call of Postgres, of Redis and of the two HTTP services takes
-- the next outcome of its list, and succeeds (for HTTP: gets no response) when the list is at its
-- end; each reading of the clock first lets the next number of nanoseconds pass. So a statement
-- about all schedules is one about all failures and delays.
pub mod Keeps
pub mod Success
pub mod Returns
pub mod Tables
pub mod Frame
pub mod Examples
use likes_service.Common.{
  ℕ, ◌+◌, ◌-◌, ◌*◌, ◌≤◌, ◌<◌, ◌≡◌, Bool, true, false, List, [], ◌∷◌, ◌++◌, Text, text, Option, none,
  some, ltb, leb, if◌then◌else◌, text_eq, Eq,
}
use likes_service.Common.Int.{ℤ, pos, suc_ℤ, pred_ℤ}
use likes_service.Common.Maps.{Map, get, insert, remove}
use likes_service.Common.Results.{Result, ok, err, map_err}
use likes_service.CircuitBreaker.{CircuitBreaker, nanos_per_second}
use likes_service.Storage.{Database}

-- What happens to one call: done; failed, with nothing done; or done, with the reply lost.
pub data Outcome : Type 0 where
  done : Outcome
  failed : Text → Outcome
  unacknowledged : Text → Outcome

-- What a Redis key holds: an integer in decimal, or a text that is none.
pub data RedisValue : Type 0 where
  integer : ℤ → RedisValue
  payload : Text → RedisValue

pub record RedisEntry : Type 0 where
  pub value : RedisValue
  pub expires_at : Option ℕ

pub record LocalLikeCountCacheEntry : Type 0 where
  pub count : ℤ
  pub expires_at : ℕ

pub record ReadRateLimitLease : Type 0 where
  pub current_floor : ℕ
  pub remaining : ℕ
  pub reset_epoch_seconds : ℕ

-- A GET request that was sent, with its Authorization header.
pub record HttpRequest : Type 0 where
  pub url : Text
  pub authorization : Option Text

-- The body of a token validation, once decoded.
pub record ValidateTokenResponse : Type 0 where
  pub valid : Bool
  pub user_id : Text
  pub display_name : Text

-- A response of the content API; only its status is read.
pub data ContentReply : Type 0 where
  content_lost : Text → ContentReply
  content_status : ℕ → ContentReply

-- A response of the profile API: its status, and its body if that decodes, else the error.
pub data ProfileReply : Type 0 where
  profile_lost : Text → ProfileReply
  profile_status : ℕ → Result Text ValidateTokenResponse → ProfileReply

-- One increment of a Prometheus counter, with its labels; latencies are left out.
pub data Metric : Type 0 where
  rate_limit_allowed rate_limit_rejected rate_limit_fail_open : Text → Metric
  cache_operation : Text → Text → Metric
  external_call : Text → Text → Text → Metric
  like_operation : Text → Text → Metric

pub record World : Type 0 where
  pub db : Database
  pub read_db : Database
  pub db_outcomes : List Outcome
  pub redis : Map Text RedisEntry
  pub redis_outcomes : List Outcome
  pub redis_connection : Bool
  pub published : List (Text × Text)
  pub content_replies : List ContentReply
  pub profile_replies : List ProfileReply
  pub now : ℕ
  pub elapses : List ℕ
  pub content_breaker : CircuitBreaker
  pub profile_breaker : CircuitBreaker
  pub local_like_count_cache : Map Text LocalLikeCountCacheEntry
  pub read_rate_limit_leases : Map Text ReadRateLimitLease
  pub like_count_cache_inflight : Map Text ℕ
  pub recorded : List Metric
  pub requests : List HttpRequest

abbrev pub Exec : Type 0 → Type 0 → Type 0
Exec E A = World → Result E A × World

module _ {E A : Type 0} where
  unfoldable pub pure : A → Exec E A
  pure a w = (ok a, w)

  unfoldable pub raise : E → Exec E A
  raise e w = (err e, w)

  unfoldable pub lift : Result E A → Exec E A
  lift r w = (r, w)

  unfoldable pub gets : (World → A) → Exec E A
  gets f w = (ok (f w), w)

unfoldable pub modify : {E : Type 0} → (World → World) → Exec E Unit
modify f w = (ok tt, f w)

module _ {E A B : Type 0} where
  abbrev pub continue : Result E A → (A → Exec E B) → Exec E B
  continue (ok a) f w = f a w
  continue (err e) f w = (err e, w)

  infixl 5 ◌>>=◌ ◌>>◌
  -- Opening this opens `pure`, `raise`, `lift`, `gets` and `modify` too.
  unfoldable pub ◌>>=◌ : Exec E A → (A → Exec E B) → Exec E B
  unfolding pure raise lift gets modify
  ◌>>=◌ m f w = let (r, w') = m w in continue r f w'

  abbrev pub ◌>>◌ : Exec E A → Exec E B → Exec E B
  m >> n = m >>= λ _. n

module _ {E F A : Type 0} where
  -- The result of an action as a value: what `match` and `if let Err` look at.
  unfoldable pub attempt : Exec E A → Exec F (Result E A)
  attempt m w = let (r, w') = m w in (ok r, w')

  -- m.map_err(f), and the conversion that `?` makes
  unfoldable pub convert : (E → F) → Exec E A → Exec F A
  convert f m w = let (r, w') = m w in (map_err f r, w')

-- The functions of src/infra/metrics.rs: a counter is the number of its entries in the list.
unfoldable pub record_metric : {E : Type 0} → Metric → Exec E Unit
unfolding modify
record_metric m = modify (λ w. record w { recorded = m ∷ w.recorded })

-- One reading of the clock.
unfoldable pub after_reading : List ℕ → World → ℕ × World
after_reading [] w = (w.now, w)
after_reading (d ∷ ds) w = (w.now + d, record w { now = w.now + d; elapses = ds })

unfoldable pub read_clock : {E : Type 0} → Exec E ℕ
unfolding after_reading
read_clock w = let (t, w') = after_reading w.elapses w in (ok t, w')

unfoldable pub next_outcome : List Outcome → Outcome × List Outcome
next_outcome [] = (done, [])
next_outcome (o ∷ os) = (o, os)

unfoldable pub db_outcome : {E : Type 0} → Exec E Outcome
unfolding next_outcome
db_outcome w = let (o, os) = next_outcome w.db_outcomes in (ok o, record w { db_outcomes = os })

unfoldable pub redis_outcome : {E : Type 0} → Exec E Outcome
unfolding next_outcome
redis_outcome w =
    let (o, os) = next_outcome w.redis_outcomes in (ok o, record w { redis_outcomes = os })
