-- ===== src/Redis.antt =====
-- Redis as the service uses it: the keys of the world, with their expiry, and one action for each
-- command. A command takes the next outcome of Redis; an error is its message. A value that is an
-- integer answers `INCR` and `GET` into an integer; a reply that does not have the type that is
-- asked for is an error. The range of integers is not modelled.
pub mod Tables
pub mod Frame
use likes_service.Common.{
  ℕ, ◌+◌, ◌*◌, Bool, true, false, List, [], ◌∷◌, Text, text, Option, none, some, leb, nat_eqb,
  if◌then◌else◌, text_eq,
}
use likes_service.Common.Decimal.{show_integer}
use likes_service.Common.Int.{ℤ, pos, suc_ℤ, pred_ℤ}
use likes_service.Common.Maps.{get, insert, remove}
use likes_service.Common.Results.{Result, ok, err}
use likes_service.CircuitBreaker.{nanos_per_second}
use likes_service.Effects.{
  World, Exec, Outcome, done, failed, unacknowledged, RedisValue, RedisEntry, integer, payload,
  pure, raise, ◌>>=◌, redis_outcome,
}

-- The entry of a key, if it has not expired.
abbrev unless_expired : ℕ → Option RedisEntry → Option RedisEntry
unless_expired now none = none
unless_expired now (some e) = elim e.expires_at [
  | none ↦ some e
  | some t ↦ if leb t now then none else some e
]

unfoldable pub live : World → Text → Option RedisEntry
live w key = unless_expired w.now (get w.redis key)

abbrev pub put : Text → RedisEntry → World → World
put key e w = record w { redis = insert w.redis key e }

abbrev pub deadline : World → ℕ → ℕ
deadline w ttl_seconds = w.now + ttl_seconds * nanos_per_second

-- A command as what it replies and the world after it, if it is executed.
abbrev pub Command : Type 0 → Type 0
Command A = World → Result Text A × World

answered : {A : Type 0} → Command A → Outcome → Exec Text A
answered command done w = command w
answered command (failed e) w = (err e, w)
answered command (unacknowledged e) w = (err e, (command w).1)

unfoldable pub execute : {A : Type 0} → Command A → Exec Text A
unfolding answered
execute command = do o ← redis_outcome; answered command o

connected : Outcome → Exec Text Unit
connected done = pure tt
connected (failed e) = raise e
connected (unacknowledged e) = raise e

-- redis::Client::get_multiplexed_async_connection
unfoldable pub connect : Exec Text Unit
unfolding connected
connect = do o ← redis_outcome; connected o

-- AppState::get_redis_connection: a connection that is there needs no new one.
unfoldable pub get_redis_connection : Exec Text Unit
unfolding connect
get_redis_connection w = if w.redis_connection then (ok tt, w) else connect w

abbrev pub wrong_type : Text
wrong_type = text "ERR value is not an integer or out of range"

integer_of : Option RedisEntry → Result Text (Option ℤ)
integer_of none = ok none
integer_of (some e) = elim e.value [ integer n ↦ ok (some n) | payload s ↦ err wrong_type ]

-- GET key, into Option<i64>
unfoldable pub get_integer : Text → Command (Option ℤ)
unfolding integer_of
get_integer key w = (integer_of (live w key), w)

and_more : {A : Type 0} → Result Text A → Result Text (List A) → Result Text (List A)
and_more (err e) r = err e
and_more (ok n) (err e) = err e
and_more (ok n) (ok ns) = ok (n ∷ ns)

integers_of : World → List Text → Result Text (List (Option ℤ))
unfolding integer_of live and_more
integers_of w [] = ok []
integers_of w (key ∷ keys) = and_more (integer_of (live w key)) (integers_of w keys)

-- MGET keys, into Vec<Option<i64>>
unfoldable pub get_integers : List Text → Command (List (Option ℤ))
unfolding integers_of
get_integers keys w = (integers_of w keys, w)

exists_in : Option RedisEntry → Bool
exists_in none = false
exists_in (some e) = true

text_of : Option RedisEntry → Option Text
unfolding show_integer
text_of none = none
text_of (some e) = elim e.value [ integer n ↦ some (show_integer n) | payload s ↦ some s ]

-- GET key, into Option<String>
unfoldable pub get_text : Text → Command (Option Text)
unfolding text_of
get_text key w = (ok (text_of (live w key)), w)

-- EXISTS key
unfoldable pub exists : Text → Command Bool
unfolding exists_in
exists key w = (ok (exists_in (live w key)), w)

-- A key's integer changed by `f`, 0 where there is no key; the expiry stays.
step_entry : (ℤ → ℤ) → Text → Option RedisEntry → Command ℤ
step_entry f key none w =
    (ok (f (pos 0)), put key (record { value = integer (f (pos 0)); expires_at = none }) w)
step_entry f key (some e) w = elim e.value [
  | integer n ↦ (ok (f n), put key (record { value = integer (f n); expires_at = e.expires_at }) w)
  | payload s ↦ (err wrong_type, w)
]

-- INCR key, DECR key
unfoldable pub incr : Text → Command ℤ
unfolding step_entry
incr key w = step_entry suc_ℤ key (live w key) w

unfoldable pub decr : Text → Command ℤ
unfolding step_entry
decr key w = step_entry pred_ℤ key (live w key) w

-- SET key value; SETEX key ttl value
unfoldable pub set : Text → RedisValue → Command Unit
set key v w = (ok tt, put key (record { value = v; expires_at = none }) w)

unfoldable pub set_ex : Text → RedisValue → ℕ → Command Unit
set_ex key v ttl_seconds w =
    if nat_eqb ttl_seconds 0
    then (err (text "ERR invalid expire time in 'setex' command"), w)
    else (ok tt, put key (record { value = v; expires_at = some (deadline w ttl_seconds) }) w)

expire_entry : Text → ℕ → Option RedisEntry → Command Bool
expire_entry key ttl_seconds none w = (ok false, w)
expire_entry key ttl_seconds (some e) w =
    if nat_eqb ttl_seconds 0
    then (ok true, record w { redis = remove w.redis key })
    else (ok true, put key (record e { expires_at = some (deadline w ttl_seconds) }) w)

-- EXPIRE key ttl
unfoldable pub expire : Text → ℕ → Command Bool
unfolding expire_entry
expire key ttl_seconds w = expire_entry key ttl_seconds (live w key) w

-- PUBLISH channel message
unfoldable pub publish : Text → Text → Command Unit
publish channel message w = (ok tt, record w { published = (channel, message) ∷ w.published })
