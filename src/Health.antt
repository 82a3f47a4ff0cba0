-- ===== src/Health.antt =====
-- Readiness: src/health.rs. `SELECT 1` and `PING` are a statement and a command without effect.
use likes_service.Common.{ℕ, Bool, true, false, ◌&&◌, Text, text, if◌then◌else◌}
use likes_service.Common.Results.{Result, ok, err}
use likes_service.Effects.{Exec, pure, ◌>>=◌, ◌>>◌, attempt}
use likes_service.Integrations.ContentAvailability.{check_availability}
use likes_service.Integrations.ContentRegistry.{ContentTypeRegistry}
use likes_service.Redis.{Command, execute, connect}
use likes_service.Repository.{query}

pub record DependencyCheckResult : Type 0 where
  pub ok : Bool
  pub status : Text

abbrev pub check_ok : DependencyCheckResult
check_ok = record { ok = true; status = text "ok" }

abbrev pub check_failed : DependencyCheckResult
check_failed = record { ok = false; status = text "failed" }

-- r.is_ok()
abbrev is_ok : {E A : Type 0} → Result E A → Bool
is_ok (ok a) = true
is_ok (err e) = false

check_result : Bool → DependencyCheckResult
check_result true = check_ok
check_result false = check_failed

-- PING
ping : Command Unit
ping w = (ok tt, w)

module _ {E : Type 0} where
  unfoldable pub check_postgres : Exec E DependencyCheckResult
  unfolding check_result
  check_postgres = do
    write_result ← attempt query
    read_result ← attempt query
    pure (check_result (is_ok write_result && is_ok read_result))

  unfoldable pub check_redis : Exec E DependencyCheckResult
  unfolding check_result ping
  check_redis = do r ← attempt (do connect; execute ping); pure (check_result (is_ok r))

  unfoldable pub check_content_api : (ℕ → Text) → ContentTypeRegistry → Exec E DependencyCheckResult
  unfolding check_result
  check_content_api show_status registry = do
    r ← attempt (check_availability show_status registry)
    pure (check_result (is_ok r))

pub record ReadinessChecks : Type 0 where
  pub postgres : Text
  pub redis : Text
  pub content_api : Text

-- The response's status code and body.
pub record Readiness : Type 0 where
  pub code : ℕ
  pub status : Text
  pub checks : ReadinessChecks

unfoldable pub readiness :
    DependencyCheckResult → DependencyCheckResult → DependencyCheckResult → Readiness
readiness postgres redis content_api =
    let ready = (postgres.ok && redis.ok) && content_api.ok in
    record {
      code = if ready then 200 else 503;
      status = if ready then text "ready" else text "not_ready";
      checks = record {
        postgres = postgres.status;
        redis = redis.status;
        content_api = content_api.status;
      };
    }

unfoldable pub ready_health : {E : Type 0} → (ℕ → Text) → ContentTypeRegistry → Exec E Readiness
unfolding check_postgres check_redis check_content_api readiness
ready_health show_status registry = do
  postgres ← check_postgres
  redis ← check_redis
  content_api ← check_content_api show_status registry
  pure (readiness postgres redis content_api)
