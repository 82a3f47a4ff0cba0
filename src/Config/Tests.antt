-- ===== src/Config/Tests.antt =====
-- The configuration of a concrete environment.
use likes_service.Common.{
  ◌≡◌, refl, [], ◌∷◌, Text, text, Option, none, some, text_eqb, if◌then◌else◌, split, trim,
  split_once, to_ascii_lowercase,
}
use likes_service.Common.Results.{ok}
use likes_service.Config.{
  ServiceConfig, from_env, get_required_string, get_optional_parsed, get_required_parsed, number_or,
  parse_unsigned, parse_content_api_definitions,
}
use likes_service.Config.Validity.{IsValid, from_env-IsValid}

abbrev example_env : Text → Option Text
example_env name =
    if text_eqb name (text "HTTP_PORT")
    then some (text "8080")
    else if text_eqb name (text "DB_MAX_CONNECTIONS")
    then some (text "+7")
    else if text_eqb name (text "CONTENT_API_REGISTRY")
    then some (text "Post=http://c")
    else if text_eqb name (text "DATABASE_URL")
    then some (text "db")
    else if text_eqb name (text "READ_DATABASE_URL")
    then some (text "replica")
    else if text_eqb name (text "REDIS_URL")
    then some (text "redis")
    else if text_eqb name (text "PROFILE_API_URL")
    then some (text "http://p")
    else none

abbrev example_config : ServiceConfig
example_config = record {
  host = text "127.0.0.1";
  port = 8080;
  database_url = text "db";
  read_database_url = text "replica";
  redis_url = text "redis";
  db_max_connections = 7;
  db_min_connections = 5;
  db_acquire_timeout_secs = 5;
  redis_pool_size = 10;
  write_rate_limit_per_minute = 30;
  read_rate_limit_per_minute = 1000;
  cache_ttl_like_counts_seconds = 300;
  cache_ttl_content_validation_seconds = 3600;
  cache_ttl_user_status_seconds = 60;
  circuit_breaker_failure_threshold = 5;
  circuit_breaker_open_seconds = 30;
  circuit_breaker_success_threshold = 3;
  circuit_breaker_failure_window_seconds = 30;
  shutdown_timeout_secs = 30;
  sse_heartbeat_interval_seconds = 15;
  leaderboard_refresh_interval_seconds = 60;
  profile_api_base_url = text "http://p";
  content_api_definitions = record { content_type = text "post"; base_url = text "http://c" } ∷ [];
}

example_read : from_env example_env ≡ ok example_config
unfolding from_env get_required_string get_optional_parsed get_required_parsed number_or
    parse_unsigned parse_content_api_definitions split split_once text text_eqb trim
    to_ascii_lowercase
example_read = refl

from_env-IsValid_example : IsValid example_config
from_env-IsValid_example = from_env-IsValid example_env example_config example_read
