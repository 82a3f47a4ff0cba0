-- ===== src/Integrations/SseEvents.antt =====
-- The events of likes: the publishing part of src/integrations/sse_events.rs. serde_json and the RFC
-- 3339 form of a time are parameters; content types, content ids and user ids are given as they are
-- printed.
pub mod Tables
use likes_service.Common.{
  ℕ, ◌+◌, ◌*◌, Bool, true, false, List, [], ◌∷◌, ◌++◌, Text, text, Option, none, some,
  if◌then◌else◌,
}
use likes_service.Common.Int.{ℤ, pos}
use likes_service.Common.Results.{Result, ok, err}
use likes_service.AppState.{get_local, set_local}
use likes_service.Domain.{UuidApi, UserId, as_external_id}
use likes_service.Error.{AppError, dependency_unavailable, cache}
use likes_service.Effects.{
  World, Exec, integer, payload, pure, raise, lift, ◌>>=◌, ◌>>◌, convert, attempt, read_clock,
}
use likes_service.Helpers.{like_status_cache_key}
use likes_service.Http.{LikeStatusResponse}
use likes_service.Integrations.ContentValidation.{JsonFormat}
use likes_service.Redis.{
  execute, connect, get_redis_connection, get_integer, get_integers, get_text, set_ex, publish,
}
use likes_service.Storage.{ContentKey}
use likes_service.UseCases.{like_count_cache_key}

pub record LikeEvent : Type 0 where
  pub event : Text
  pub user_id : Text
  pub content_type : Text
  pub content_id : Text
  pub count : ℤ
  pub timestamp : Text

unfoldable pub channel_name : ContentKey → Text
channel_name (content_type, content_id) =
    text "likes:events:" ++ (content_type ++ b':' ∷ content_id)

-- What publishing an event takes: JSON, and the text of a time.
pub record EventFormat : Type 0 where
  pub json : JsonFormat LikeEvent
  pub rfc3339 : ℕ → Text

module _ (format : EventFormat) where
  event_text : LikeEvent → Result Text Text
  event_text event = elim (format.json.to_string event) [
    | ok message ↦ ok message
    | err e ↦ err (text "failed to serialize like event")
  ]

  -- LikeEvents::publish_event; its errors are those of Redis.
  unfoldable pub publish_event : ContentKey → LikeEvent → Exec Text Unit
  unfolding event_text
  publish_event c event = do
    message ← lift (event_text event)
    connect
    execute (publish (channel_name c) message)

  unfoldable pub current_timestamp : {E : Type 0} → Exec E Text
  current_timestamp = do now ← read_clock; pure (format.rfc3339 now)

  timestamp_or : {E : Type 0} → Option Text → Exec E Text
  timestamp_or none = current_timestamp
  timestamp_or (some liked_at) = pure liked_at

  -- `user` is the user's external id.
  unfoldable pub publish_like : Text → ContentKey → ℤ → Option Text → Exec Text Unit
  unfolding publish_event timestamp_or
  publish_like user (content_type, content_id) count liked_at = do
    timestamp ← timestamp_or liked_at
    publish_event (content_type, content_id)
        (record {
          event = text "like";
          user_id = user;
          content_type = content_type;
          content_id = content_id;
          count = count;
          timestamp = timestamp;
        })

  unfoldable pub publish_unlike : Text → ContentKey → ℤ → Exec Text Unit
  unfolding publish_event
  publish_unlike user (content_type, content_id) count = do
    timestamp ← current_timestamp
    publish_event (content_type, content_id)
        (record {
          event = text "unlike";
          user_id = user;
          content_type = content_type;
          content_id = content_id;
          count = count;
          timestamp = timestamp;
        })
