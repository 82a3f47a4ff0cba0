-- ===== src/Redis/Tables.antt =====
-- The commands of Redis leave the tables of Postgres as they are.
use likes_service.Common.{
  Bool, true, false, if◌then◌else◌, ℕ, ◌≡◌, refl, ◌∙◌, Text, Option, none, some, arith,
}
use likes_service.Common.Int.{ℤ, suc_ℤ, pred_ℤ}
use likes_service.Common.Results.{ok}
use likes_service.Storage.{Database}
use likes_service.Effects.{
  World, Outcome, done, failed, unacknowledged, RedisValue, RedisEntry, integer, payload,
  redis_outcome,
}
use likes_service.Effects.Keeps.{Keeps-bind, Keeps-pure, Keeps-raise}
use likes_service.Effects.Tables.{KeepsTables, KeepsTables-redis_outcome}
use likes_service.Redis.{
  Command, answered, execute, connected, connect, get_text, exists, step_entry, incr, decr, set,
  set_ex, expire_entry, expire, live, publish, get_redis_connection,
}

module _ {d : Database} where
  answered-Keeps :
      {A : Type 0} (command : Command A)
      → ((w : World) → (command w).1.db ≡ w.db)
      → (o : Outcome) → KeepsTables d (answered command o)
  unfolding answered
  answered-Keeps command same done = record { kept = λ w h. same w ∙ h }
  answered-Keeps command same (failed e) = record { kept = λ w h. h }
  answered-Keeps command same (unacknowledged e) = record { kept = λ w h. same w ∙ h }

  pub execute-Keeps :
      {A : Type 0} (command : Command A)
      → ((w : World) → (command w).1.db ≡ w.db)
      → KeepsTables d (execute command)
  unfolding execute
  execute-Keeps command same =
      Keeps-bind redis_outcome _ KeepsTables-redis_outcome (answered-Keeps command same)

  connected-Keeps : (o : Outcome) → KeepsTables d (connected o)
  unfolding connected
  connected-Keeps done = Keeps-pure tt
  connected-Keeps (failed e) = Keeps-raise e
  connected-Keeps (unacknowledged e) = Keeps-raise e

  pub connect-Keeps : KeepsTables d connect
  unfolding connect
  connect-Keeps = Keeps-bind redis_outcome _ KeepsTables-redis_outcome connected-Keeps

pub get_text-db : (key : Text) (w : World) → (get_text key w).1.db ≡ w.db
unfolding get_text
get_text-db key w = refl

pub exists-db : (key : Text) (w : World) → (exists key w).1.db ≡ w.db
unfolding exists
exists-db key w = refl

step_value-db :
    (f : ℤ → ℤ) (key : Text) (v : RedisValue) (x : Option ℕ) (w : World)
    → (step_entry f key (some (record { value = v; expires_at = x })) w).1.db ≡ w.db
unfolding step_entry
step_value-db f key (integer n) x w = refl
step_value-db f key (payload s) x w = refl

step_entry-db :
    (f : ℤ → ℤ) (key : Text) (o : Option RedisEntry) (w : World)
    → (step_entry f key o w).1.db ≡ w.db
unfolding step_entry
step_entry-db f key none w = refl
step_entry-db f key (some e) w = step_value-db f key e.value e.expires_at w

pub incr-db : (key : Text) (w : World) → (incr key w).1.db ≡ w.db
unfolding incr
incr-db key w = step_entry-db suc_ℤ key (live w key) w

pub decr-db : (key : Text) (w : World) → (decr key w).1.db ≡ w.db
unfolding decr
decr-db key w = step_entry-db pred_ℤ key (live w key) w

pub set-db : (key : Text) (v : RedisValue) (w : World) → (set key v w).1.db ≡ w.db
unfolding set
set-db key v w = refl

pub set_ex-db :
    (key : Text) (v : RedisValue) (ttl : ℕ) (w : World) → (set_ex key v ttl w).1.db ≡ w.db
unfolding set_ex
set_ex-db key v ttl w = ground arith

expire_entry-db :
    (key : Text) (ttl : ℕ) (o : Option RedisEntry) (w : World)
    → (expire_entry key ttl o w).1.db ≡ w.db
unfolding expire_entry
expire_entry-db key ttl none w = refl
expire_entry-db key ttl (some e) w = ground arith

pub expire-db : (key : Text) (ttl : ℕ) (w : World) → (expire key ttl w).1.db ≡ w.db
unfolding expire
expire-db key ttl w = expire_entry-db key ttl (live w key) w

pub publish-db : (channel message : Text) (w : World) → (publish channel message w).1.db ≡ w.db
unfolding publish
publish-db channel message w = refl

if-db :
    {A : Type 0} {d : Database} (b : Bool) (x y : A × World)
    → x.1.db ≡ d
    → y.1.db ≡ d
    → (if b then x else y).1.db ≡ d
if-db true x y h k = h
if-db false x y h k = k

pub get_redis_connection-Keeps : {d : Database} → KeepsTables d get_redis_connection
unfolding get_redis_connection
get_redis_connection-Keeps = record {
  kept = λ w h. if-db w.redis_connection (ok tt, w) (connect w) h (connect-Keeps.kept w h);
}

-- What reaches for Redis and runs a command that leaves the tables alone.
pub ruleset reply_rules =
    (execute-Keeps, connect-Keeps, get_redis_connection-Keeps, set_ex-db, publish-db)
