-- ===== src/Http/Likes.antt =====
-- The like handlers: src/http/likes.rs. A warning that is logged is left out. `create_like` and
-- `delete_like` work on the primary, the two reads on the replica.
pub mod Frame
pub mod Answers
use likes_service.Common.{
  ℕ, zero, suc, Bool, true, false, not, [], ◌∷◌, Text, text, Option, none, some, if◌then◌else◌,
  text_eq,
}
use likes_service.Common.Int.{ℤ, pos}
use likes_service.Common.Results.{Result, ok, err}
use likes_service.AppState.{
  LikeCountFillPermit, leader, follower, begin_like_count_fill, finish_like_count_fill,
}
use likes_service.Domain.{UuidApi, UserId, show_user_id, as_external_id}
use likes_service.Error.{AppError, str}
use likes_service.Effects.{
  World, Exec, cache_operation, pure, raise, lift, ◌>>=◌, ◌>>◌, attempt, record_metric, modify,
}
use likes_service.Helpers.{cache_control_for_count, count_response_etag, if_none_match_matches}
use likes_service.Http.{
  Response, Body, LikeResponse, UnlikeResponse, LikeStatusResponse, LikeCountResponse, like_body,
  unlike_body, status_body, count_body, no_body, respond, set_header, into_response, success,
}
use likes_service.Http.Caches.{
  LikeCountCacheUpdate, cache_like_count, store_local_like_count, publish_like_count_update,
  cache_like_status, get_cached_like_status, get_cached_like_count,
}
use likes_service.Integrations.SseEvents.{EventFormat, publish_like, publish_unlike}
use likes_service.Http.Requests.{
  parse_authenticated_user_id, content_type_of, content_id_of, respond_with,
}
use likes_service.Integrations.ContentValidation.{
  JsonFormat, CachedValidationResult, ContentValidationClient,
}
use likes_service.Integrations.ProfileApi.{AuthenticatedUser}
use likes_service.Repository as Repository
use likes_service.Repository.{LikeStatus, LikeCount, replica}
use likes_service.Storage.{ContentKey}
use likes_service.UseCases.{
  LikeContentResult, UnlikeContentResult, like_content, unlike_content, like_count_cache_key,
}

pub record CreateLikeRequest : Type 0 where
  pub content_type : Text
  pub content_id : Text

-- What the handlers are made with: the configuration of the state, and libraries' code.
pub record Handlers : Type 0 where
  pub uuid : UuidApi
  pub show_status : ℕ → Text
  pub to_char : ℕ → Text
  pub validations : JsonFormat CachedValidationResult
  pub updates : JsonFormat LikeCountCacheUpdate
  pub statuses : JsonFormat LikeStatusResponse
  pub events : EventFormat
  pub client : ContentValidationClient
  pub cache_ttl_like_counts_seconds : ℕ
  pub cache_ttl_user_status_seconds : ℕ

-- impl From<LikeContentResult> for LikeResponse
unfoldable pub like_response : LikeContentResult → LikeResponse
like_response value = record {
  liked = value.liked;
  already_existed = value.already_existed;
  count = value.count;
  liked_at = value.liked_at;
}

-- impl From<UnlikeContentResult> for UnlikeResponse
unfoldable pub unlike_response : UnlikeContentResult → UnlikeResponse
unlike_response value = record {
  liked = value.liked;
  was_liked = value.was_liked;
  count = value.count;
}

-- impl From<LikeStatus> for LikeStatusResponse
unfoldable pub status_response : LikeStatus → LikeStatusResponse
status_response value = record { liked = value.exists; liked_at = value.liked_at }

-- `if let Err(error) = ...`
or_else : {E A : Type 0} → Exec E Unit → Result A Unit → Exec E Unit
or_else m (ok a) = pure tt
or_else m (err e) = m

ignoring : {E F : Type 0} → Exec F Unit → Exec E Unit
ignoring m = do r ← attempt m; pure tt

when : {E : Type 0} → Bool → Exec E Unit → Exec E Unit
when true m = m
when false m = pure tt

module _ (h : Handlers) where
  -- The count is put into both caches, and into the local one once more if Redis fails.
  cache_count : {E : Type 0} → Text → ℤ → Exec E Unit
  unfolding or_else
  cache_count key count = do
    r ← attempt (cache_like_count h.cache_ttl_like_counts_seconds key count)
    or_else (store_local_like_count key count) r

  -- What follows a like: the caches, the update for the other processes and the event.
  unfoldable pub after_like : {E : Type 0} → UserId → ContentKey → LikeContentResult → Exec E Unit
  unfolding cache_count ignoring when
  after_like user_id c result = do
    cache_count (like_count_cache_key c) (pos result.count)
    ignoring (publish_like_count_update h.updates c (pos result.count))
    when (not result.already_existed) (
        ignoring (
          publish_like h.events (as_external_id h.uuid user_id) c (pos result.count)
            result.liked_at))
    ignoring (
        cache_like_status h.statuses h.cache_ttl_user_status_seconds (show_user_id h.uuid user_id) c
          (record { liked = true; liked_at = result.liked_at }))

  unfoldable pub created : LikeContentResult → Response
  unfolding like_response
  created result =
      respond (if result.already_existed then 200 else 201) (like_body (like_response result))

  unfoldable pub create_like :
      {E : Type 0} → AuthenticatedUser → CreateLikeRequest → Exec E Response
  unfolding after_like created
  create_like user request = respond_with (do
    user_id ← lift (parse_authenticated_user_id h.uuid user)
    content_type ← lift (content_type_of request.content_type)
    content_id ← lift (content_id_of h.uuid request.content_id)
    result ←
        like_content h.show_status h.to_char h.validations h.client h.cache_ttl_like_counts_seconds
          (show_user_id h.uuid user_id, (content_type, content_id))
    after_like user_id (content_type, content_id) result
    pure (created result))

  unfoldable pub after_unlike :
      {E : Type 0} → UserId → ContentKey → UnlikeContentResult → Exec E Unit
  unfolding cache_count ignoring when
  after_unlike user_id c result = do
    cache_count (like_count_cache_key c) (pos result.count)
    ignoring (publish_like_count_update h.updates c (pos result.count))
    when result.was_liked
        (ignoring (publish_unlike h.events (as_external_id h.uuid user_id) c (pos result.count)))
    ignoring (
        cache_like_status h.statuses h.cache_ttl_user_status_seconds (show_user_id h.uuid user_id) c
          (record { liked = false; liked_at = none }))

  unfoldable pub delete_like : {E : Type 0} → AuthenticatedUser → Text → Text → Exec E Response
  unfolding after_unlike unlike_response
  delete_like user path_type path_id = respond_with (do
    user_id ← lift (parse_authenticated_user_id h.uuid user)
    content_type ← lift (content_type_of path_type)
    content_id ← lift (content_id_of h.uuid path_id)
    result ←
        unlike_content h.show_status h.to_char h.validations h.client
          h.cache_ttl_like_counts_seconds (show_user_id h.uuid user_id, (content_type, content_id))
    after_unlike user_id (content_type, content_id) result
    pure (success (unlike_body (unlike_response result))))

  -- The status in the tables, which is cached.
  unfoldable pub read_like_status : Text → ContentKey → Exec AppError Response
  unfolding ignoring status_response
  read_like_status user c = do
    status ← Repository.get_like_status h.to_char replica (user, c)
    ignoring (
        cache_like_status h.statuses h.cache_ttl_user_status_seconds user c
          (status_response status))
    pure (success (status_body (status_response status)))

  unless_cached :
      Text → ContentKey → Result AppError (Option LikeStatusResponse) → Exec AppError Response
  unfolding read_like_status
  unless_cached user c (ok (some status)) = pure (success (status_body status))
  unless_cached user c (ok none) = read_like_status user c
  unless_cached user c (err error) = read_like_status user c

  unfoldable pub get_like_status : {E : Type 0} → AuthenticatedUser → Text → Text → Exec E Response
  unfolding unless_cached
  get_like_status user path_type path_id = respond_with (do
    user_id ← lift (parse_authenticated_user_id h.uuid user)
    content_type ← lift (content_type_of path_type)
    content_id ← lift (content_id_of h.uuid path_id)
    cached ←
        attempt (
          get_cached_like_status h.statuses (show_user_id h.uuid user_id)
            (content_type, content_id))
    unless_cached (show_user_id h.uuid user_id) (content_type, content_id) cached)
