-- ===== src/Config.antt =====
-- The configuration: src/config.rs. The environment is a parameter: the value of a variable, or none
-- where it is not there or is no Unicode. An error is its message.
pub mod Bounds
pub mod Validity
mod Tests
use likes_service.Common.{
  ℕ, ◌+◌, ◌*◌, ◌-◌, ◌^◌, ◌≤◌, Bool, true, false, ◌||◌, List, [], ◌∷◌, ◌++◌, map, Text, text, Option,
  none, some, leb, nat_eqb, trim, split, split_once, is_ascii_digit, to_ascii_lowercase,
  if◌then◌else◌,
}
use likes_service.Common.Decimal.{show_nat}
use likes_service.Common.Results.{Result, ok, err, ◌>>=◌, unwrap_or}
use likes_service.Integrations.ContentRegistry.{ContentApiDefinition}

pub record ServiceConfig : Type 0 where
  pub host : Text
  pub port : ℕ
  pub database_url : Text
  pub read_database_url : Text
  pub redis_url : Text
  pub db_max_connections : ℕ
  pub db_min_connections : ℕ
  pub db_acquire_timeout_secs : ℕ
  pub redis_pool_size : ℕ
  pub write_rate_limit_per_minute : ℕ
  pub read_rate_limit_per_minute : ℕ
  pub cache_ttl_like_counts_seconds : ℕ
  pub cache_ttl_content_validation_seconds : ℕ
  pub cache_ttl_user_status_seconds : ℕ
  pub circuit_breaker_failure_threshold : ℕ
  pub circuit_breaker_open_seconds : ℕ
  pub circuit_breaker_success_threshold : ℕ
  pub circuit_breaker_failure_window_seconds : ℕ
  pub shutdown_timeout_secs : ℕ
  pub sse_heartbeat_interval_seconds : ℕ
  pub leaderboard_refresh_interval_seconds : ℕ
  pub profile_api_base_url : Text
  pub content_api_definitions : List ContentApiDefinition

abbrev pub u16_limit : ℕ
u16_limit = 65535

abbrev pub u32_limit : ℕ
u32_limit = 4294967295

abbrev pub u64_limit : ℕ
u64_limit = 18446744073709551615

-- The digits that follow on the number `n`, unless it leaves the range.
parse_digits : ℕ → ℕ → Text → Option ℕ
unfolding is_ascii_digit
parse_digits limit n [] = if leb n limit then some n else none
parse_digits limit n (c ∷ s) =
    let rest = parse_digits limit (n * 10 + (c - b'0')) s in if is_ascii_digit c then rest else none

-- value.parse::<T>() for an unsigned T whose largest value is `limit`: digits, perhaps behind a plus.
-- A number that has left the range stays outside of it as digits follow.
unfoldable pub parse_unsigned : ℕ → Text → Option ℕ
unfolding parse_digits
parse_unsigned limit [] = none
parse_unsigned limit (c ∷ []) = parse_digits limit 0 (c ∷ [])
parse_unsigned limit (c ∷ d ∷ s) =
    if nat_eqb c b'+' then parse_digits limit 0 (d ∷ s) else parse_digits limit 0 (c ∷ d ∷ s)

required : Text → Option Text → Result Text Text
required primary none = err (primary ++ text " is required")
required primary (some value) = ok value

parsed : Text → Text → Option ℕ → Result Text (Option ℕ)
parsed primary value none =
    err (primary ++ text " must be a valid value, got '" ++ value ++ text "'")
parsed primary value (some n) = ok (some n)

required_number : Text → Option ℕ → Result Text ℕ
required_number primary none = err (primary ++ text " is required")
required_number primary (some n) = ok n

is_empty : Text → Bool
is_empty [] = true
is_empty (c ∷ s) = false

-- `return Err` if a value is blank.
pub unless_blank : Text → Text → Result Text Unit
unfolding is_empty
unless_blank primary value =
    if is_empty (trim value) then err (primary ++ text " cannot be empty") else ok tt

malformed : Text → Text
malformed entry =
    text "CONTENT_API_REGISTRY entries must have the form content_type=url, got '"
    ++ entry
    ++ text "'"

unfilled : Text → Text
unfilled entry =
    text "CONTENT_API_REGISTRY entries must have non-empty content type and url, got '"
    ++ entry
    ++ text "'"

filled_definition : Text → Text → Text → Result Text ContentApiDefinition
unfolding is_empty unfilled
filled_definition entry content_type base_url =
    if is_empty content_type || is_empty base_url
    then err (unfilled entry)
    else ok (record { content_type = content_type; base_url = base_url })

definition_of : Text → Option (Text × Text) → Result Text ContentApiDefinition
unfolding filled_definition malformed
definition_of entry none = err (malformed entry)
definition_of entry (some (content_type, base_url)) =
    filled_definition entry (map to_ascii_lowercase (trim content_type)) (trim base_url)

-- One round of the loop, on the entry and the definitions of the entries behind it.
entry_definition :
    Text → Result Text (List ContentApiDefinition) → Result Text (List ContentApiDefinition)
unfolding definition_of
entry_definition [] rest = rest
entry_definition (c ∷ entry) rest =
    definition_of (c ∷ entry) (split_once b'=' (c ∷ entry)) >>= λ definition.
    rest >>= λ definitions. ok (definition ∷ definitions)

definitions_of : List Text → Result Text (List ContentApiDefinition)
unfolding entry_definition
definitions_of [] = ok []
definitions_of (entry ∷ entries) = entry_definition (trim entry) (definitions_of entries)

unless_none : List ContentApiDefinition → Result Text (List ContentApiDefinition)
unless_none [] = err (text "CONTENT_API_REGISTRY cannot be empty")
unless_none (d ∷ ds) = ok (d ∷ ds)

module _ (var : Text → Option Text) where
  unfoldable pub get_required_string : Text → Result Text Text
  unfolding required
  get_required_string primary = required primary (var primary)

  optional_number : Text → ℕ → Option Text → Result Text (Option ℕ)
  unfolding parsed parse_unsigned
  optional_number primary limit none = ok none
  optional_number primary limit (some value) = parsed primary value (parse_unsigned limit value)

  -- get_optional_parsed of the unsigned type whose largest value is `limit`.
  unfoldable pub get_optional_parsed : Text → ℕ → Result Text (Option ℕ)
  unfolding optional_number
  get_optional_parsed primary limit = optional_number primary limit (var primary)

  unfoldable pub get_required_parsed : Text → ℕ → Result Text ℕ
  unfolding get_optional_parsed required_number
  get_required_parsed primary limit =
      get_optional_parsed primary limit >>= λ n. required_number primary n

  unfoldable pub number_or : Text → ℕ → ℕ → Result Text ℕ
  unfolding get_optional_parsed
  number_or primary limit default =
      get_optional_parsed primary limit >>= λ n. ok (unwrap_or n default)

  unfoldable pub parse_content_api_definitions : Result Text (List ContentApiDefinition)
  unfolding definitions_of unless_none
  parse_content_api_definitions =
      get_required_string (text "CONTENT_API_REGISTRY") >>= λ raw_registry.
      definitions_of (split b',' raw_registry) >>= λ definitions. unless_none definitions

  unfoldable pub from_env : Result Text ServiceConfig
  unfolding unless_blank
  from_env = do
    let host = unwrap_or (var (text "SERVICE_HOST")) (text "127.0.0.1")
    port ← get_required_parsed (text "HTTP_PORT") u16_limit
    host_filled ← unless_blank (text "SERVICE_HOST") host
    database_url ← get_required_string (text "DATABASE_URL")
    read_database_url ← get_required_string (text "READ_DATABASE_URL")
    database_filled ← unless_blank (text "DATABASE_URL") database_url
    read_database_filled ← unless_blank (text "READ_DATABASE_URL") read_database_url
    redis_url ← get_required_string (text "REDIS_URL")
    redis_filled ← unless_blank (text "REDIS_URL") redis_url
    db_max_connections ← number_or (text "DB_MAX_CONNECTIONS") u32_limit 20
    db_min_connections ← number_or (text "DB_MIN_CONNECTIONS") u32_limit 5
    db_acquire_timeout_secs ← number_or (text "DB_ACQUIRE_TIMEOUT_SECS") u64_limit 5
    redis_pool_size ← number_or (text "REDIS_POOL_SIZE") u32_limit 10
    write_limit ← number_or (text "RATE_LIMIT_WRITE_PER_MINUTE") u32_limit 30
    read_limit ← number_or (text "RATE_LIMIT_READ_PER_MINUTE") u32_limit 1000
    like_counts_ttl ← number_or (text "CACHE_TTL_LIKE_COUNTS_SECS") u64_limit 300
    content_validation_ttl ← number_or (text "CACHE_TTL_CONTENT_VALIDATION_SECS") u64_limit 3600
    user_status_ttl ← number_or (text "CACHE_TTL_USER_STATUS_SECS") u64_limit 60
    failure_threshold ← number_or (text "CIRCUIT_BREAKER_FAILURE_THRESHOLD") u32_limit 5
    open_seconds ← number_or (text "CIRCUIT_BREAKER_RECOVERY_TIMEOUT_SECS") u64_limit 30
    success_threshold ← number_or (text "CIRCUIT_BREAKER_SUCCESS_THRESHOLD") u32_limit 3
    failure_window ← number_or (text "CIRCUIT_BREAKER_FAILURE_WINDOW_SECONDS") u64_limit 30
    shutdown_timeout ← number_or (text "SHUTDOWN_TIMEOUT_SECS") u64_limit 30
    sse_heartbeat ← number_or (text "SSE_HEARTBEAT_INTERVAL_SECS") u64_limit 15
    leaderboard_refresh ← number_or (text "LEADERBOARD_REFRESH_INTERVAL_SECS") u64_limit 60
    profile_api_base_url ← get_required_string (text "PROFILE_API_URL")
    profile_filled ← unless_blank (text "PROFILE_API_URL") profile_api_base_url
    definitions ← parse_content_api_definitions
    ok (record {
      host = host;
      port = port;
      database_url = database_url;
      read_database_url = read_database_url;
      redis_url = redis_url;
      db_max_connections = db_max_connections;
      db_min_connections = db_min_connections;
      db_acquire_timeout_secs = db_acquire_timeout_secs;
      redis_pool_size = redis_pool_size;
      write_rate_limit_per_minute = write_limit;
      read_rate_limit_per_minute = read_limit;
      cache_ttl_like_counts_seconds = like_counts_ttl;
      cache_ttl_content_validation_seconds = content_validation_ttl;
      cache_ttl_user_status_seconds = user_status_ttl;
      circuit_breaker_failure_threshold = failure_threshold;
      circuit_breaker_open_seconds = open_seconds;
      circuit_breaker_success_threshold = success_threshold;
      circuit_breaker_failure_window_seconds = failure_window;
      shutdown_timeout_secs = shutdown_timeout;
      sse_heartbeat_interval_seconds = sse_heartbeat;
      leaderboard_refresh_interval_seconds = leaderboard_refresh;
      profile_api_base_url = profile_api_base_url;
      content_api_definitions = definitions;
    })

unfoldable pub bind_address : ServiceConfig → Text
bind_address config = config.host ++ b':' ∷ show_nat config.port
