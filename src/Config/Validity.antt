-- ===== src/Config/Validity.antt =====
-- A configuration that is read is valid.
use likes_service.Common.{ℕ, ◌≤◌, ◌≡◌, ◌≢◌, [], Text, text, Option, trim, All, arith}
use likes_service.Common.Results as Results
use likes_service.Common.Results.{Result, ok, unwrap_or}
use likes_service.Config.{
  ServiceConfig, u16_limit, u32_limit, u64_limit, get_required_string, number_or, from_env,
}
use likes_service.Config.Bounds.{
  Good, good_bind, good_ok, IsFilled, number_or-Good, required-Good, unless_blank-Good,
  definitions-Good,
}

-- Every number of a configuration fits its type, no address is blank, and there is a content API, each
-- with a content type and an address.
pub record IsValid (c : ServiceConfig) : Type 0 where
  pub port : c.port ≤ u16_limit
  pub host : trim c.host ≢ []
  pub database_url : trim c.database_url ≢ []
  pub read_database_url : trim c.read_database_url ≢ []
  pub redis_url : trim c.redis_url ≢ []
  pub db_max_connections : c.db_max_connections ≤ u32_limit
  pub db_min_connections : c.db_min_connections ≤ u32_limit
  pub db_acquire_timeout_secs : c.db_acquire_timeout_secs ≤ u64_limit
  pub redis_pool_size : c.redis_pool_size ≤ u32_limit
  pub write_rate_limit_per_minute : c.write_rate_limit_per_minute ≤ u32_limit
  pub read_rate_limit_per_minute : c.read_rate_limit_per_minute ≤ u32_limit
  pub cache_ttl_like_counts_seconds : c.cache_ttl_like_counts_seconds ≤ u64_limit
  pub cache_ttl_content_validation_seconds : c.cache_ttl_content_validation_seconds ≤ u64_limit
  pub cache_ttl_user_status_seconds : c.cache_ttl_user_status_seconds ≤ u64_limit
  pub circuit_breaker_failure_threshold : c.circuit_breaker_failure_threshold ≤ u32_limit
  pub circuit_breaker_open_seconds : c.circuit_breaker_open_seconds ≤ u64_limit
  pub circuit_breaker_success_threshold : c.circuit_breaker_success_threshold ≤ u32_limit
  pub circuit_breaker_failure_window_seconds : c.circuit_breaker_failure_window_seconds ≤ u64_limit
  pub shutdown_timeout_secs : c.shutdown_timeout_secs ≤ u64_limit
  pub sse_heartbeat_interval_seconds : c.sse_heartbeat_interval_seconds ≤ u64_limit
  pub leaderboard_refresh_interval_seconds : c.leaderboard_refresh_interval_seconds ≤ u64_limit
  pub profile_api_base_url : trim c.profile_api_base_url ≢ []
  pub some_definitions : c.content_api_definitions ≢ []
  pub filled_definitions : All IsFilled c.content_api_definitions

module _ (var : Text → Option Text) where
  infixl 5 ◌>>=◌
  ◌>>=◌ :
      {A B : Type 0} {P : A → Type 0} {Q : B → Type 0} {r : Result Text A} {f : A → Result Text B}
      → Good P r
      → ((a : A) → P a → Good Q (f a))
      → Good Q (Results.◌>>=◌ r f)
  ◌>>=◌ {P = P} {Q = Q} {r = r} {f = f} p q = good_bind P Q r f p q

  number :
      (primary : Text) (limit default : ℕ)
      → default ≤ limit
      → Good (λ n. n ≤ limit) (number_or var primary limit default)
  number = number_or-Good var

  any : (primary : Text) → Good (λ s. Unit) (get_required_string var primary)
  any primary = λ s h. tt

  -- A configuration that is read has numbers that fit their types, addresses that are not blank, and
  -- at least one content API, each with a content type and an address.
  pub from_env-IsValid : (c : ServiceConfig) → from_env var ≡ ok c → IsValid c
  unfolding from_env
  from_env-IsValid = required-Good var (text "HTTP_PORT") u16_limit >>= λ _ port.
      unless_blank-Good var (text "SERVICE_HOST")
        (unwrap_or (var (text "SERVICE_HOST")) (text "127.0.0.1"))
      >>= λ _ host. any (text "DATABASE_URL") >>= λ database_url _.
          any (text "READ_DATABASE_URL") >>= λ read_url _.
          unless_blank-Good var (text "DATABASE_URL") database_url >>= λ _ database.
          unless_blank-Good var (text "READ_DATABASE_URL") read_url >>= λ _ read_database.
          any (text "REDIS_URL") >>= λ redis_url _.
          unless_blank-Good var (text "REDIS_URL") redis_url >>= λ _ redis.
          number (text "DB_MAX_CONNECTIONS") u32_limit 20 (omega arith) >>= λ _ n0.
          number (text "DB_MIN_CONNECTIONS") u32_limit 5 (omega arith) >>= λ _ n1.
          number (text "DB_ACQUIRE_TIMEOUT_SECS") u64_limit 5 (omega arith) >>= λ _ n2.
          number (text "REDIS_POOL_SIZE") u32_limit 10 (omega arith) >>= λ _ n3.
          number (text "RATE_LIMIT_WRITE_PER_MINUTE") u32_limit 30 (omega arith) >>= λ _ n4.
          number (text "RATE_LIMIT_READ_PER_MINUTE") u32_limit 1000 (omega arith) >>= λ _ n5.
          number (text "CACHE_TTL_LIKE_COUNTS_SECS") u64_limit 300 (omega arith) >>= λ _ n6.
          number (text "CACHE_TTL_CONTENT_VALIDATION_SECS") u64_limit 3600 (omega arith) >>= λ _ n7.
          number (text "CACHE_TTL_USER_STATUS_SECS") u64_limit 60 (omega arith) >>= λ _ n8.
          number (text "CIRCUIT_BREAKER_FAILURE_THRESHOLD") u32_limit 5 (omega arith) >>= λ _ n9.
          number (text "CIRCUIT_BREAKER_RECOVERY_TIMEOUT_SECS") u64_limit 30 (omega arith)
          >>= λ _ n10.
              number (text "CIRCUIT_BREAKER_SUCCESS_THRESHOLD") u32_limit 3 (omega arith)
              >>= λ _ n11.
                  number (text "CIRCUIT_BREAKER_FAILURE_WINDOW_SECONDS") u64_limit 30 (omega arith)
                  >>= λ _ n12.
                      number (text "SHUTDOWN_TIMEOUT_SECS") u64_limit 30 (omega arith) >>= λ _ n13.
                      number (text "SSE_HEARTBEAT_INTERVAL_SECS") u64_limit 15 (omega arith)
                      >>= λ _ n14.
                          number (text "LEADERBOARD_REFRESH_INTERVAL_SECS") u64_limit 60
                            (omega arith)
                          >>= λ _ n15. any (text "PROFILE_API_URL") >>= λ profile_url _.
                              unless_blank-Good var (text "PROFILE_API_URL") profile_url
                              >>= λ _ profile. definitions-Good var >>= λ _ definitions.
                                  good_ok IsValid _ (record {
                                    port = port;
                                    host = host;
                                    database_url = database;
                                    read_database_url = read_database;
                                    redis_url = redis;
                                    db_max_connections = n0;
                                    db_min_connections = n1;
                                    db_acquire_timeout_secs = n2;
                                    redis_pool_size = n3;
                                    write_rate_limit_per_minute = n4;
                                    read_rate_limit_per_minute = n5;
                                    cache_ttl_like_counts_seconds = n6;
                                    cache_ttl_content_validation_seconds = n7;
                                    cache_ttl_user_status_seconds = n8;
                                    circuit_breaker_failure_threshold = n9;
                                    circuit_breaker_open_seconds = n10;
                                    circuit_breaker_success_threshold = n11;
                                    circuit_breaker_failure_window_seconds = n12;
                                    shutdown_timeout_secs = n13;
                                    sse_heartbeat_interval_seconds = n14;
                                    leaderboard_refresh_interval_seconds = n15;
                                    profile_api_base_url = profile;
                                    some_definitions = definitions.0;
                                    filled_definitions = definitions.1;
                                  })
