-- ===== src/RateLimit.antt =====
-- Rate limits per minute: src/resilience/rate_limit.rs. Writes are counted in Redis by user; reads by
-- address, of which a process reserves up to READ_LEASE_SIZE at a time and hands them out itself.
-- A Lua script is one step of Redis. A header's value is given if `to_str` accepts it.
pub mod Middleware
pub mod Windows
pub mod Reservation
mod Tests
use likes_service.Common.{
  ℕ, ◌+◌, ◌-◌, ◌*◌, ◌/◌, min, Bool, true, false, List, [], ◌∷◌, ◌++◌, Text, text, Option, none,
  some, ltb, leb, nat_eqb, if◌then◌else◌, text_eq, trim, split_once,
}
use likes_service.Common.Decimal.{show_nat}
use likes_service.Common.Int.{ℤ, pos, negsuc, is_negative}
use likes_service.Common.Maps.{Map, get, insert, remove}
use likes_service.Common.Results.{Result, ok, err, unwrap_or}
use likes_service.CircuitBreaker.{u32_mod, nanos_per_second}
use likes_service.Error.{AppError}
use likes_service.Effects.{
  World, Exec, RedisValue, RedisEntry, integer, payload, ReadRateLimitLease, rate_limit_allowed,
  rate_limit_rejected, rate_limit_fail_open, pure, lift, modify, ◌>>=◌, ◌>>◌, attempt,
  record_metric, read_clock,
}
use likes_service.Redis.{
  Command, live, put, deadline, wrong_type, execute, get_redis_connection, incr, expire,
}
use likes_service.Http.{Response, rate_limited, set_rate_limit_headers, set_logged_user}

abbrev pub read_lease_size : ℕ
read_lease_size = 50

abbrev pub u32_max : ℕ
u32_max = 4294967295

-- saturating_add on u32
unfoldable pub saturating_add : ℕ → ℕ → ℕ
saturating_add a b = min (a + b) u32_max

-- The reply of a script as a u32.
u32_of : ℤ → Result Text ℕ
u32_of (pos n) = if ltb n u32_mod then ok n else err wrong_type
u32_of (negsuc n) = err wrong_type

started : Text → ℕ → Result Text ℤ → World → Result Text ℤ × World
started key ttl (err e) w = (err e, w)
started key ttl (ok (pos n)) w =
    if nat_eqb n 1 then (ok (pos n), (expire key ttl w).1) else (ok (pos n), w)
started key ttl (ok (negsuc n)) w = (ok (negsuc n), w)

-- RATE_LIMIT_INCREMENT_SCRIPT
unfoldable pub increment_script : Text → ℕ → Command ℤ
unfolding started
increment_script key ttl w = let (r, w') = incr key w in started key ttl r w'

-- The end of the reservation: INCRBY, and EXPIRE if the counter began with it.
reserve_in : Text → ℕ → ℕ → ℕ → Option RedisEntry → Command (ℕ × ℕ)
reserve_in key ttl requested limit none w =
    let granted = min requested limit in
    if nat_eqb limit 0 then (ok (0, 0), w) else (
      ok (granted, granted),
      put key (record { value = integer (pos granted); expires_at = some (deadline w ttl) }) w,
    )
reserve_in key ttl requested limit (some e) w = elim e.value [
  | payload s ↦ (err wrong_type, w)
  | integer (negsuc n) ↦ (err wrong_type, w)
  | integer (pos current) ↦
      let granted = min requested (limit - current) in
      if leb limit current then (ok (current, 0), w) else (
        ok (current + granted, granted),
        put key
            (record {
              value = integer (pos (current + granted));
              expires_at = if nat_eqb current 0 then some (deadline w ttl) else e.expires_at;
            })
            w,
      )
]

-- RATE_LIMIT_RESERVE_SCRIPT, for counters that are not negative, as the scripts leave them, and a
-- request and a time to live of at least 1.
unfoldable pub reserve_script : Text → ℕ → ℕ → ℕ → Command (ℕ × ℕ)
unfolding reserve_in
reserve_script key ttl requested limit w = reserve_in key ttl requested limit (live w key) w

-- The key, the end of its minute, and the seconds until then.
unfoldable pub rate_limit_window_key : Text → Text → ℕ → Text × (ℕ × ℕ)
rate_limit_window_key scope subject now_seconds =
    let window_start = now_seconds / 60 in
    let reset_epoch_seconds = (window_start + 1) * 60 in
    (
      text "rate_limit:" ++ (scope ++ b':' ∷ (subject ++ b':' ∷ show_nat window_start)),
      (reset_epoch_seconds, reset_epoch_seconds - now_seconds),
    )

-- What a request says of its client: the two headers, and the address of its peer.
pub record ClientInfo : Type 0 where
  pub x_forwarded_for : Option Text
  pub x_real_ip : Option Text
  pub peer : Option Text

-- value.split(',').next()
first_of : Text → Text
first_of value = elim (split_once b',' value) [ none ↦ value | some (a, b) ↦ a ]

unless_empty : Text → Text → Text
unless_empty [] other = other
unless_empty (c ∷ s) other = c ∷ s

unfoldable pub client_ip : ClientInfo → Text
unfolding first_of unless_empty
client_ip request =
    let peer_ip = unwrap_or request.peer (text "unknown") in
    let real_ip : Text = elim request.x_real_ip [
      | none ↦ peer_ip
      | some value ↦ unless_empty (trim value) peer_ip
    ] in
    elim request.x_forwarded_for [
      | none ↦ real_ip
      | some value ↦ unless_empty (trim (first_of value)) real_ip
    ]

abbrev put_leases : Map Text ReadRateLimitLease → World → World
put_leases leases w = record w { read_rate_limit_leases = leases }

consume_lease :
    Map Text ReadRateLimitLease
    → Text
    → ℕ
    → Option ReadRateLimitLease
    → Option ℕ × Map Text ReadRateLimitLease
consume_lease leases key reset none = (none, leases)
consume_lease leases key reset (some lease) =
    if not_current
    then (none, remove leases key)
    else if nat_eqb lease.remaining 0
    then (none, remove leases key)
    else (
      some consumed,
      (if nat_eqb (lease.remaining - 1) 0
          then remove leases key
          else insert leases key
              (record lease { current_floor = consumed; remaining = lease.remaining - 1 })),
    )
  where
    not_current : Bool
    not_current = if nat_eqb lease.reset_epoch_seconds reset then false else true

    consumed : ℕ
    consumed = saturating_add lease.current_floor 1

unfoldable pub try_consume_read_lease : Text → ℕ → Exec Text (Option ℕ)
unfolding consume_lease
try_consume_read_lease key reset_epoch_seconds w =
    let (r, leases) =
      consume_lease w.read_rate_limit_leases key reset_epoch_seconds
        (get w.read_rate_limit_leases key) in
    (ok r, put_leases leases w)

u32_pair : ℕ × ℕ → Result Text (ℕ × ℕ)
u32_pair (current, granted) = if ltb current u32_mod then ok (current, granted) else err wrong_type

unfoldable pub reserve_read_lease : Text → ℕ → ℕ → Exec Text (ℕ × ℕ)
unfolding u32_pair
reserve_read_lease key limit retry_after_seconds = do
  get_redis_connection
  r ← execute (reserve_script key retry_after_seconds read_lease_size limit)
  lift (u32_pair r)

reserved : Text → ℕ → ℕ × ℕ → Exec Text ℕ
reserved key reset_epoch_seconds (current, granted) =
    if nat_eqb granted 0 then pure (saturating_add current 1) else (do
      modify (λ w.
          put_leases
            (insert w.read_rate_limit_leases key (record {
              current_floor = current - granted;
              remaining = granted - 1;
              reset_epoch_seconds = reset_epoch_seconds;
            }))
            w)
      pure (saturating_add (current - granted) 1))

consumed_or_reserve : Text → ℕ → ℕ → ℕ → Option ℕ → Exec Text ℕ
unfolding reserved
consumed_or_reserve key limit reset_epoch_seconds retry_after_seconds (some current) = pure current
consumed_or_reserve key limit reset_epoch_seconds retry_after_seconds none = do
  r ← reserve_read_lease key limit retry_after_seconds
  reserved key reset_epoch_seconds r

unfoldable pub consume_or_reserve_read_lease : Text → ℕ → ℕ → ℕ → Exec Text ℕ
unfolding consumed_or_reserve
consume_or_reserve_read_lease key limit reset_epoch_seconds retry_after_seconds = do
  c ← try_consume_read_lease key reset_epoch_seconds
  consumed_or_reserve key limit reset_epoch_seconds retry_after_seconds c

unfoldable pub increment_and_read_rate_limit : Text → ℕ → Exec Text ℕ
unfolding u32_of
increment_and_read_rate_limit key ttl_seconds = do
  get_redis_connection
  current ← execute (increment_script key ttl_seconds)
  lift (u32_of current)
