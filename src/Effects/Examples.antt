-- ===== src/Effects/Examples.antt =====
-- A world for tests: nothing stored, nothing failing, both breakers closed.
use likes_service.Common.{true, [], text}
use likes_service.CircuitBreaker.{CircuitBreaker, Metrics, closed, fresh_closed}
use likes_service.Storage.{empty_database}
use likes_service.Effects.{World}

abbrev pub no_metrics : Metrics
no_metrics = record { state_gauge = 0; open_total = 0; rejected_total = 0 }

abbrev pub fresh_breaker : CircuitBreaker
fresh_breaker = record {
  service_name = text "content_api";
  failure_threshold = 5;
  open_duration = 30000000000;
  success_threshold = 3;
  failure_window = 30000000000;
  state = closed fresh_closed;
  metrics = no_metrics;
}

abbrev pub quiet_world : World
quiet_world = record {
  db = empty_database;
  read_db = empty_database;
  db_outcomes = [];
  redis = [];
  redis_outcomes = [];
  redis_connection = true;
  published = [];
  content_replies = [];
  profile_replies = [];
  now = 0;
  elapses = [];
  content_breaker = fresh_breaker;
  profile_breaker = fresh_breaker;
  local_like_count_cache = [];
  read_rate_limit_leases = [];
  like_count_cache_inflight = [];
  recorded = [];
  requests = [];
}
