-- ===== src/Integrations/ContentValidation/Tables.antt =====
-- Validating a content leaves the tables of Postgres as they are.
use likes_service.Common.{ℕ, Text, Option, none, some}
use likes_service.Common.Results.{Result, ok, err}
use likes_service.CircuitBreaker.{CircuitBreakerOpenError}
use likes_service.Storage.{Database}
use likes_service.Effects.{ContentReply, content_lost, content_status}
use likes_service.Effects.Keeps.{Keeps-pure, Keeps-lift, Keeps-raise, keeps_rules}
use likes_service.Effects.Tables.{KeepsTables, tables_rules}
use likes_service.Redis.Tables.{execute-Keeps, connect-Keeps, get_text-db, set_ex-db}
use likes_service.Integrations.Tables.{
  allow_call-Keeps, call_succeeded-Keeps, call_failed-Keeps, send_content_request-Keeps,
}
use likes_service.Integrations.ContentRegistry.{ContentApiDefinition}
use likes_service.Integrations.ContentValidation.{
  JsonFormat, CachedValidationResult, ContentValidationClient, decoded, cached_payload,
  get_cached_validation_result, noted, write_cache, cache_validation_result, content_reply, ask_api,
  ask_registered, unless_cached, validate_content,
}

ruleset call_rules = (
  execute-Keeps, connect-Keeps, get_text-db, set_ex-db, allow_call-Keeps, call_succeeded-Keeps,
  call_failed-Keeps, send_content_request-Keeps,
)

module _ {d : Database} (show_status : ℕ → Text) (json : JsonFormat CachedValidationResult)
    (client : ContentValidationClient) (content_type content_id : Text) where
  decoded-Keeps :
      (r : Result Text CachedValidationResult) → KeepsTables d (decoded show_status json r)
  unfolding decoded
  decoded-Keeps (ok x) = search (keeps_rules, tables_rules)
  decoded-Keeps (err e) = search (keeps_rules, tables_rules)

  cached_payload-Keeps :
      (r : Result Text (Option Text)) → KeepsTables d (cached_payload show_status json r)
  unfolding cached_payload
  cached_payload-Keeps (ok (some s)) = decoded-Keeps (json.from_str s)
  cached_payload-Keeps (ok none) = search (keeps_rules, tables_rules)
  cached_payload-Keeps (err e) = search (keeps_rules, tables_rules)

  get_cached-Keeps :
      KeepsTables d (get_cached_validation_result show_status json content_type content_id)
  unfolding get_cached_validation_result
  get_cached-Keeps = search (keeps_rules, call_rules, cached_payload-Keeps)

  noted-Keeps : (r : Result Text Unit) → KeepsTables d (noted show_status json r)
  unfolding noted
  noted-Keeps (ok x) = Keeps-pure tt
  noted-Keeps (err e) = search (keeps_rules, tables_rules)

  write_cache-Keeps :
      (ttl : ℕ) (key : Text) (r : Result Text Text)
      → KeepsTables d (write_cache show_status json ttl key r)
  unfolding write_cache
  write_cache-Keeps ttl key (ok s) = search (keeps_rules, call_rules, noted-Keeps)
  write_cache-Keeps ttl key (err e) = Keeps-pure tt

  cache-Keeps :
      (x : CachedValidationResult)
      → KeepsTables d (cache_validation_result show_status json client content_type content_id x)
  unfolding cache_validation_result
  cache-Keeps x = write_cache-Keeps _ _ _

  content_reply-Keeps :
      (r : ContentReply)
      → KeepsTables d (content_reply show_status json client content_type content_id r)
  unfolding content_reply
  content_reply-Keeps (content_lost e) = search (keeps_rules, tables_rules, call_rules)
  content_reply-Keeps (content_status s) =
      search (keeps_rules, tables_rules, call_rules, cache-Keeps) depth 10

  ask_api-Keeps :
      (definition : ContentApiDefinition) (r : Result CircuitBreakerOpenError Unit)
      → KeepsTables d (ask_api show_status json client content_type content_id definition r)
  unfolding ask_api
  ask_api-Keeps definition (ok x) =
      search (keeps_rules, tables_rules, call_rules, content_reply-Keeps)
  ask_api-Keeps definition (err e) = search (keeps_rules, tables_rules)

  ask_registered-Keeps :
      (o : Option ContentApiDefinition)
      → KeepsTables d (ask_registered show_status json client content_type content_id o)
  unfolding ask_registered
  ask_registered-Keeps none = Keeps-raise _
  ask_registered-Keeps (some definition) = search (keeps_rules, call_rules, ask_api-Keeps)

  unless_cached-Keeps :
      (o : Option CachedValidationResult)
      → KeepsTables d (unless_cached show_status json client content_type content_id o)
  unfolding unless_cached
  unless_cached-Keeps (some x) = Keeps-lift _
  unless_cached-Keeps none = ask_registered-Keeps _

  pub validate_content-Keeps :
      KeepsTables d (validate_content show_status json client content_type content_id)
  unfolding validate_content
  validate_content-Keeps = search (keeps_rules, get_cached-Keeps, unless_cached-Keeps)
