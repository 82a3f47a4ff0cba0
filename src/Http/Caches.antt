-- ===== src/Http/Caches.antt =====
-- The caches of the handlers and what they publish: src/http/helpers.rs (get_cached_*, cache_*,
-- store_local_like_count, publish_like_count_update, apply_like_count_update). serde_json is a
-- parameter. Content types, content ids and user ids are given as they are printed.
pub mod Tables
pub mod Frame
use likes_service.Common.{
  ℕ, ◌+◌, ◌*◌, Bool, true, false, List, [], ◌∷◌, ◌++◌, Text, text, Option, none, some,
  if◌then◌else◌,
}
use likes_service.Common.Int.{ℤ, pos}
use likes_service.Common.Results.{Result, ok, err}
use likes_service.AppState.{get_local, set_local}
use likes_service.Domain.{UuidApi, UserId, as_external_id}
use likes_service.Error.{AppError, dependency_unavailable, cache}
use likes_service.Effects.{
  World, Exec, integer, payload, pure, raise, lift, ◌>>=◌, ◌>>◌, convert, attempt, read_clock,
}
use likes_service.Helpers.{like_status_cache_key}
use likes_service.Http.{LikeStatusResponse}
use likes_service.Integrations.ContentValidation.{JsonFormat}
use likes_service.Redis.{
  execute, connect, get_redis_connection, get_integer, get_integers, get_text, set_ex, publish,
}
use likes_service.Storage.{ContentKey}
use likes_service.UseCases.{like_count_cache_key}

abbrev pub local_ttl : ℕ
local_ttl = 60000 * 1000000

unfoldable pub store_local_like_count : {E : Type 0} → Text → ℤ → Exec E Unit
store_local_like_count key count = set_local key count local_ttl

keep_local : Text → Option ℤ → Exec AppError (Option ℤ)
unfolding store_local_like_count
keep_local key none = pure none
keep_local key (some count) = do store_local_like_count key count; pure (some count)

cached_in_redis : Text → Option ℤ → Exec AppError (Option ℤ)
unfolding keep_local
cached_in_redis key (some count) = pure (some count)
cached_in_redis key none = do
  count ← convert cache (do get_redis_connection; execute (get_integer key))
  keep_local key count

unfoldable pub get_cached_like_count : Text → Exec AppError (Option ℤ)
unfolding cached_in_redis
get_cached_like_count key = do local ← get_local key; cached_in_redis key local

-- A key that the local cache has keeps its count, and the others take the next ones of Redis.
local_counts : {E : Type 0} → List Text → Exec E (List (Text × Option ℤ))
local_counts [] = pure []
local_counts (key ∷ keys) = do
  count ← get_local key
  rest ← local_counts keys
  pure ((key, count) ∷ rest)

unfoldable pub missing_keys : List (Text × Option ℤ) → List Text
missing_keys [] = []
missing_keys ((key, some count) ∷ slots) = missing_keys slots
missing_keys ((key, none) ∷ slots) = key ∷ missing_keys slots

-- The zip of the missing slots with the reply ends with the shorter of both.
fill_slots : {E : Type 0} → List (Text × Option ℤ) → List (Option ℤ) → Exec E (List (Option ℤ))
unfolding store_local_like_count
fill_slots [] replies = pure []
fill_slots ((key, some count) ∷ slots) replies = do
  rest ← fill_slots slots replies
  pure (some count ∷ rest)
fill_slots ((key, none) ∷ slots) [] = do rest ← fill_slots slots []; pure (none ∷ rest)
fill_slots ((key, none) ∷ slots) (none ∷ replies) = do
  rest ← fill_slots slots replies
  pure (none ∷ rest)
fill_slots ((key, none) ∷ slots) (some count ∷ replies) = do
  store_local_like_count key count
  rest ← fill_slots slots replies
  pure (some count ∷ rest)

unless_complete : List (Text × Option ℤ) → List Text → Exec AppError (List (Option ℤ))
unfolding fill_slots
unless_complete slots [] = fill_slots slots []
unless_complete slots (key ∷ keys) = do
  replies ← convert cache (do get_redis_connection; execute (get_integers (key ∷ keys)))
  fill_slots slots replies

unfoldable pub get_cached_like_counts : List Text → Exec AppError (List (Option ℤ))
unfolding local_counts unless_complete missing_keys
get_cached_like_counts keys = do
  slots ← local_counts keys
  unless_complete slots (missing_keys slots)

unfoldable pub cache_like_count : ℕ → Text → ℤ → Exec AppError Unit
unfolding store_local_like_count
cache_like_count ttl_seconds key count = do
  store_local_like_count key count
  convert cache (do get_redis_connection; execute (set_ex key (integer count) ttl_seconds))

pub record LikeCountCacheUpdate : Type 0 where
  pub content_type : Text
  pub content_id : Text
  pub count : ℤ

abbrev serialization_error : Text → AppError
serialization_error message = dependency_unavailable (text "CACHE_SERIALIZATION_ERROR") message

-- serde_json::to_string with its error as the handlers' one.
encoded : {A : Type 0} → JsonFormat A → Text → A → Result AppError Text
encoded json failure a = elim (json.to_string a) [
  | ok s ↦ ok s
  | err e ↦ err (serialization_error (failure ++ e))
]

unfoldable pub publish_like_count_update :
    JsonFormat LikeCountCacheUpdate → ContentKey → ℤ → Exec AppError Unit
unfolding encoded
publish_like_count_update json (content_type, content_id) count = do
  message ← lift (
      encoded json (text "failed to encode count cache update: ")
        (record { content_type = content_type; content_id = content_id; count = count }))
  convert cache (do get_redis_connection; execute (publish (text "likes:count_updates") message))

unfoldable pub apply_like_count_update : {E : Type 0} → LikeCountCacheUpdate → Exec E Unit
unfolding store_local_like_count
apply_like_count_update update =
    store_local_like_count (like_count_cache_key (update.content_type, update.content_id))
      update.count

module _ {A : Type 0} (json : JsonFormat A) where
  decoded : Option Text → Option A
  decoded none = none
  decoded (some value) = elim (json.from_str value) [ ok a ↦ some a | err e ↦ none ]

  -- A value that cannot be decoded counts as none.
  unfoldable pub get_cached_json : Text → Exec AppError (Option A)
  unfolding decoded
  get_cached_json key = do
    value ← convert cache (do get_redis_connection; execute (get_text key))
    pure (decoded value)

  unfoldable pub set_cached_json : Text → ℕ → A → Exec AppError Unit
  unfolding encoded
  set_cached_json key ttl_seconds value = do
    message ← lift (encoded json (text "failed to encode cached value: ") value)
    convert cache (do get_redis_connection; execute (set_ex key (payload message) ttl_seconds))

unfoldable pub get_cached_like_status :
    JsonFormat LikeStatusResponse → Text → ContentKey → Exec AppError (Option LikeStatusResponse)
unfolding get_cached_json
get_cached_like_status json user (content_type, content_id) =
    get_cached_json json (like_status_cache_key user content_type content_id)

unfoldable pub cache_like_status :
    JsonFormat LikeStatusResponse → ℕ → Text → ContentKey → LikeStatusResponse → Exec AppError Unit
unfolding set_cached_json
cache_like_status json ttl_seconds user (content_type, content_id) status =
    set_cached_json json (like_status_cache_key user content_type content_id) ttl_seconds status
