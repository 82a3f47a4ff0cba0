-- ===== src/Integrations/ContentValidation.antt =====
-- Whether a content exists: src/integrations/content_validation.rs. `show_status` prints a status code
-- with its reason, and `json` writes and reads the cached results; both are libraries' code.
-- Latencies are not modelled, nor the log entries of calls.
pub mod Tables
use likes_service.Common.{ℕ, ◌∷◌, ◌++◌, Text, text, Option, none, some, nat_eqb, if◌then◌else◌}
use likes_service.Common.Decimal.{show_nat}
use likes_service.Common.Results.{Result, ok, err}
use likes_service.CircuitBreaker.{CircuitBreakerOpenError}
use likes_service.Error.{
  ContentValidationError, content_type_unknown, content_not_found, dependency_down, network_error,
}
use likes_service.Effects.{
  Exec, ContentReply, content_lost, content_status, external_call, cache_operation, payload, pure,
  raise, lift, ◌>>=◌, ◌>>◌, attempt, record_metric,
}
use likes_service.Redis.{execute, connect, get_text, set_ex}
use likes_service.Integrations.Calls.{
  content_api, show_open_error, allow_call, call_succeeded, call_failed, send_content_request,
  trim_end_slashes,
}
use likes_service.Integrations.ContentRegistry as Registry
use likes_service.Integrations.ContentRegistry.{ContentApiDefinition, ContentTypeRegistry}

-- serde_json on one type.
pub record JsonFormat (A : Type 0) : Type 0 where
  pub to_string : A → Result Text Text
  pub from_str : Text → Result Text A

pub data CachedValidationResult : Type 0 where
  exists not_found : CachedValidationResult

unfoldable pub into_result :
    CachedValidationResult → Text → Text → Result ContentValidationError Unit
into_result exists content_type content_id = ok tt
into_result not_found content_type content_id = err (content_not_found content_type content_id)

unfoldable pub content_validation_cache_key : Text → Text → Text
content_validation_cache_key content_type content_id =
    text "content_validation:" ++ content_type ++ b':' ∷ content_id

-- What the client is made with.
pub record ContentValidationClient : Type 0 where
  pub registry : ContentTypeRegistry
  pub cache_ttl_seconds : ℕ

abbrev record_cache : {E : Type 0} → Text → Exec E Unit
record_cache result = record_metric (cache_operation (text "validate_content") result)

abbrev pub record_content_call : {E : Type 0} → Text → Exec E Unit
record_content_call status =
    record_metric
      (external_call (text "content_api") (text "GET /v1/{content_type}/{content_id}") status)

module _ (show_status : ℕ → Text) (json : JsonFormat CachedValidationResult) where
  decoded :
      Result Text CachedValidationResult
      → Exec ContentValidationError (Option CachedValidationResult)
  decoded (ok result) = do record_cache (text "hit"); pure (some result)
  decoded (err error) = do record_cache (text "error"); pure none

  cached_payload :
      Result Text (Option Text) → Exec ContentValidationError (Option CachedValidationResult)
  unfolding decoded
  cached_payload (ok (some s)) = decoded (json.from_str s)
  cached_payload (ok none) = do record_cache (text "miss"); pure none
  cached_payload (err error) = do record_cache (text "error"); pure none

  unfoldable pub get_cached_validation_result :
      Text → Text → Exec ContentValidationError (Option CachedValidationResult)
  unfolding cached_payload
  get_cached_validation_result content_type content_id = do
    r ←
        attempt
          (do connect; execute (get_text (content_validation_cache_key content_type content_id)))
    cached_payload r

  noted : Result Text Unit → Exec ContentValidationError Unit
  noted (ok x) = pure tt
  noted (err error) = record_cache (text "error")

  write_cache : ℕ → Text → Result Text Text → Exec ContentValidationError Unit
  unfolding noted
  write_cache ttl key (err error) = pure tt
  write_cache ttl key (ok s) = do
    r ← attempt (do connect; execute (set_ex key (payload s) ttl))
    noted r

  unfoldable pub cache_validation_result :
      ContentValidationClient
      → Text
      → Text
      → CachedValidationResult
      → Exec ContentValidationError Unit
  unfolding write_cache
  cache_validation_result client content_type content_id result =
      write_cache client.cache_ttl_seconds (content_validation_cache_key content_type content_id)
        (json.to_string result)

  abbrev unexpected_status : ℕ → ContentValidationError
  unexpected_status status =
      dependency_down (text "unexpected content api status: " ++ show_status status)

  -- `match status`
  unfoldable pub content_reply :
      ContentValidationClient → Text → Text → ContentReply → Exec ContentValidationError Unit
  content_reply client content_type content_id (content_lost error) = do
    call_failed content_api
    record_content_call (text "network_error")
    raise (network_error error)
  content_reply client content_type content_id (content_status status) = do
    record_content_call (show_nat status)
    if nat_eqb status 200
        then (do
          call_succeeded content_api
          cache_validation_result client content_type content_id exists)
        else if nat_eqb status 404
        then (do
          call_succeeded content_api
          cache_validation_result client content_type content_id not_found
          raise (content_not_found content_type content_id))
        else (do call_failed content_api; raise (unexpected_status status))

  ask_api :
      ContentValidationClient
      → Text
      → Text
      → ContentApiDefinition
      → Result CircuitBreakerOpenError Unit
      → Exec ContentValidationError Unit
  unfolding content_reply
  ask_api client content_type content_id definition (err error) = do
    record_content_call (text "circuit_open")
    raise (dependency_down (show_open_error error))
  ask_api client content_type content_id definition (ok x) = do
    reply ←
        send_content_request
          (trim_end_slashes definition.base_url ++ text "/v1/" ++ content_type ++ b'/' ∷ content_id)
    content_reply client content_type content_id reply

  ask_registered :
      ContentValidationClient
      → Text
      → Text
      → Option ContentApiDefinition
      → Exec ContentValidationError Unit
  unfolding ask_api
  ask_registered client content_type content_id none = raise (content_type_unknown content_type)
  ask_registered client content_type content_id (some definition) = do
    allowed ← allow_call content_api
    ask_api client content_type content_id definition allowed

  unless_cached :
      ContentValidationClient
      → Text
      → Text
      → Option CachedValidationResult
      → Exec ContentValidationError Unit
  unfolding ask_registered
  unless_cached client content_type content_id (some cached) =
      lift (into_result cached content_type content_id)
  unless_cached client content_type content_id none =
      ask_registered client content_type content_id (Registry.get client.registry content_type)

  unfoldable pub validate_content :
      ContentValidationClient → Text → Text → Exec ContentValidationError Unit
  unfolding unless_cached
  validate_content client content_type content_id = do
    cached ← get_cached_validation_result content_type content_id
    unless_cached client content_type content_id cached
