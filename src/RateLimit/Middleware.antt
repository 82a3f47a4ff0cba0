-- ===== src/RateLimit/Middleware.antt =====
-- The two middlewares of src/resilience/rate_limit.rs; `next` is the rest of the service.
use likes_service.Common.{ℕ, ◌-◌, ◌/◌, Text, text, none, ltb, if◌then◌else◌}
use likes_service.Common.Results.{Result, ok, err}
use likes_service.CircuitBreaker.{nanos_per_second}
use likes_service.Error.{AppError}
use likes_service.Effects.{
  Exec, rate_limit_allowed, rate_limit_rejected, rate_limit_fail_open, pure, ◌>>=◌, ◌>>◌, attempt,
  record_metric, read_clock,
}
use likes_service.Http.{
  Response, into_response, rate_limited, set_rate_limit_headers, set_logged_user,
}
use likes_service.Integrations.ProfileApi.{AuthenticatedUser}
use likes_service.Auth.{Authorization, authenticate_headers}
use likes_service.RateLimit.{
  ClientInfo, client_ip, rate_limit_window_key, consume_or_reserve_read_lease,
  increment_and_read_rate_limit,
}

abbrev pub too_many : ℕ → ℕ → ℕ → Response
too_many limit reset_epoch_seconds retry_after_seconds =
    rate_limited (text "RATE_LIMITED") (text "rate limit exceeded") limit 0 reset_epoch_seconds
      retry_after_seconds

module _ {E : Type 0} where
  -- What is done with the number of the request in its minute, or the error of Redis.
  unfoldable pub limited : Text → ℕ → ℕ → ℕ → Exec E Response → Result Text ℕ → Exec E Response
  limited scope limit reset_epoch_seconds retry_after_seconds next (err error) = do
    record_metric (rate_limit_fail_open scope)
    next
  limited scope limit reset_epoch_seconds retry_after_seconds next (ok current) =
      if ltb limit current
      then (do
        record_metric (rate_limit_rejected scope)
        pure (too_many limit reset_epoch_seconds retry_after_seconds))
      else (do
        record_metric (rate_limit_allowed scope)
        response ← next
        pure (set_rate_limit_headers response limit (limit - current) reset_epoch_seconds none))

  unfoldable pub require_read_rate_limit : ℕ → ClientInfo → Exec E Response → Exec E Response
  unfolding limited
  require_read_rate_limit limit request next = do
    now ← read_clock
    let (key, (reset, retry)) =
        rate_limit_window_key (text "read") (client_ip request) (now / nanos_per_second)
    current ← attempt (consume_or_reserve_read_lease key limit reset retry)
    limited (text "read_ip") limit reset retry next current

  write_limited :
      ℕ
      → (AuthenticatedUser → Exec E Response)
      → Result AppError AuthenticatedUser
      → Exec E Response
  unfolding limited
  write_limited limit next (err error) = pure (into_response error)
  write_limited limit next (ok user) = do
    now ← read_clock
    let (key, (reset, retry)) =
        rate_limit_window_key (text "write") user.user_id (now / nanos_per_second)
    current ← attempt (increment_and_read_rate_limit key retry)
    limited (text "write_user") limit reset retry
        (do response ← next user; pure (set_logged_user user.user_id response)) current

  unfoldable pub require_write_auth_and_rate_limit :
      (ℕ → Text)
      → Text
      → ℕ
      → Authorization
      → (AuthenticatedUser → Exec E Response)
      → Exec E Response
  unfolding write_limited
  require_write_auth_and_rate_limit show_status base_url limit authorization next = do
    r ← attempt (authenticate_headers show_status base_url authorization)
    write_limited limit next r
