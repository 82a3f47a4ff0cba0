-- ===== src/Integrations/Tables.antt =====
-- The clients of the two services leave the tables of Postgres as they are.
use likes_service.Common.{◌≡◌, refl, Text}
use likes_service.CircuitBreaker.{CircuitBreaker}
use likes_service.Storage.{Database}
use likes_service.Effects.{World, modify}
use likes_service.Effects.Keeps.{keeps_rules}
use likes_service.Effects.Tables.{KeepsTables, KeepsTables-modify, tables_rules}
use likes_service.Integrations.Calls.{
  Dependency, content_api, profile_api, put_breaker, allow_call, call_succeeded, call_failed,
  send_content_request,
}

put_breaker-db : (x : Dependency) (b : CircuitBreaker) (w : World) → (put_breaker x b w).db ≡ w.db
put_breaker-db content_api b w = refl
put_breaker-db profile_api b w = refl

module _ {E : Type 0} {d : Database} where
  modify_breaker :
      (x : Dependency) (f : World → CircuitBreaker)
      → KeepsTables {E = E} d (modify (λ w. put_breaker x (f w) w))
  modify_breaker x f = KeepsTables-modify _ (λ w. put_breaker-db x (f w) w)

  put_fixed :
      (x : Dependency) (b : CircuitBreaker) → KeepsTables {E = E} d (modify (put_breaker x b))
  put_fixed x b = KeepsTables-modify _ (put_breaker-db x b)

  pub allow_call-Keeps : (x : Dependency) → KeepsTables d (allow_call {E = E} x)
  unfolding allow_call
  allow_call-Keeps x = search (keeps_rules, tables_rules, put_fixed)

  pub call_succeeded-Keeps : (x : Dependency) → KeepsTables d (call_succeeded {E = E} x)
  unfolding call_succeeded
  call_succeeded-Keeps x = search (keeps_rules, tables_rules, modify_breaker)

  pub call_failed-Keeps : (x : Dependency) → KeepsTables d (call_failed {E = E} x)
  unfolding call_failed
  call_failed-Keeps x = search (keeps_rules, tables_rules, modify_breaker)

  pub send_content_request-Keeps : (url : Text) → KeepsTables d (send_content_request {E = E} url)
  unfolding send_content_request
  send_content_request-Keeps url = record { kept = λ w h. h }
