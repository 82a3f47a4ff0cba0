-- ===== src/UseCases.antt =====
-- Liking and unliking: src/use_cases.rs. The repository writes to the primary. `to_char` is Postgres'
-- rendering of a time, `show_status` the HTTP library's of a status, `json` the cached results'.
pub mod Tables
pub mod Consistency
mod Tests
pub mod Liking
pub mod Unliking
use likes_service.Common.{
  ℕ, Bool, true, false, ◌∷◌, ◌++◌, Text, text, Option, none, some, if◌then◌else◌,
}
use likes_service.Common.Int.{ℤ, pos, is_negative}
use likes_service.Common.Results.{Result, ok, err}
use likes_service.Domain.{UuidApi, ContentType, ContentId, UserId, show_content_id, show_user_id}
use likes_service.Error.{AppError, content_validation, cache}
use likes_service.Storage.{LikeKey, ContentKey}
use likes_service.Effects.{
  World, Exec, integer, like_operation, pure, ◌>>=◌, ◌>>◌, convert, record_metric,
}
use likes_service.Redis.{execute, connect, exists, incr, decr, set, expire}
use likes_service.Integrations.ContentValidation.{
  JsonFormat, CachedValidationResult, ContentValidationClient, validate_content,
}
use likes_service.Repository.{
  InsertLikeResult, inserted, already_exists, DeleteLikeResult, deleted, not_found, primary,
  insert_like, delete_like, get_like_status, get_like_count,
}

pub record LikeContentResult : Type 0 where
  pub liked : Bool
  pub already_existed : Bool
  pub count : ℕ
  pub liked_at : Option Text

pub record UnlikeContentResult : Type 0 where
  pub liked : Bool
  pub was_liked : Bool
  pub count : ℕ

unfoldable pub like_count_cache_key : ContentKey → Text
like_count_cache_key (content_type, content_id) =
    text "likes:count:" ++ (content_type ++ b':' ∷ content_id)

unfoldable pub refresh : Text → ℕ → Exec Text Unit
refresh key ttl = do b ← execute (expire key ttl); pure tt

when_cached : Exec Text Unit → Bool → Exec Text Unit
when_cached then_do true = then_do
when_cached then_do false = pure tt

unfoldable pub increment_cached_like_count : ContentKey → ℕ → Exec AppError Unit
unfolding when_cached refresh
increment_cached_like_count c ttl = convert cache (do
  connect
  cache_exists ← execute (exists (like_count_cache_key c))
  when_cached (do n ← execute (incr (like_count_cache_key c)); refresh (like_count_cache_key c) ttl)
      cache_exists)

not_below_zero : Text → Bool → Exec Text Unit
not_below_zero key true = execute (set key (integer (pos 0)))
not_below_zero key false = pure tt

unfoldable pub decrement_cached_like_count : ContentKey → ℕ → Exec AppError Unit
unfolding when_cached refresh not_below_zero
decrement_cached_like_count c ttl = convert cache (do
  connect
  cache_exists ← execute (exists (like_count_cache_key c))
  when_cached
      (do
        n ← execute (decr (like_count_cache_key c))
        not_below_zero (like_count_cache_key c) (is_negative n)
        refresh (like_count_cache_key c) ttl)
      cache_exists)

module _ (show_status to_char : ℕ → Text) (json : JsonFormat CachedValidationResult)
    (client : ContentValidationClient) (ttl : ℕ) where
  -- `match result`: whether the like was there.
  unfoldable pub note_inserted : ContentKey → InsertLikeResult → Exec AppError Bool
  note_inserted c inserted = do
    increment_cached_like_count c ttl
    record_metric (like_operation c.0 (text "like"))
    pure false
  note_inserted c already_exists = pure true

  unfoldable pub note_deleted : ContentKey → DeleteLikeResult → Exec AppError Bool
  note_deleted c deleted = do
    decrement_cached_like_count c ttl
    record_metric (like_operation c.0 (text "unlike"))
    pure true
  note_deleted c not_found = pure false

  abbrev pub validate : ContentKey → Exec AppError Unit
  validate (content_type, content_id) =
      convert content_validation (validate_content show_status json client content_type content_id)

  -- A like is the printed user id, content type and content id.
  unfoldable pub like_content : LikeKey → Exec AppError LikeContentResult
  unfolding note_inserted
  like_content k = do
    validate k.1
    result ← insert_like primary k
    already_existed ← note_inserted k.1 result
    like_status ← get_like_status to_char primary k
    like_count ← get_like_count primary k.1
    pure (record {
      liked = true;
      already_existed = already_existed;
      count = like_count.count;
      liked_at = like_status.liked_at;
    })

  unfoldable pub unlike_content : LikeKey → Exec AppError UnlikeContentResult
  unfolding note_deleted
  unlike_content k = do
    validate k.1
    result ← delete_like primary k
    was_liked ← note_deleted k.1 result
    like_count ← get_like_count primary k.1
    pure (record { liked = false; was_liked = was_liked; count = like_count.count })
