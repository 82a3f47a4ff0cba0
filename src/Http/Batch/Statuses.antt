-- ===== src/Http/Batch/Statuses.antt =====
-- Batches of statuses: src/http/batch.rs.
use likes_service.Common.{false, List, [], ◌∷◌, ◌++◌, Text, Option, none, some, text_eq, pair_eq}
use likes_service.Common.Maps.{Map, get, insert}
use likes_service.Common.Results.{Result, ok, err}
use likes_service.Domain.{show_user_id}
use likes_service.Error.{AppError}
use likes_service.Effects.{Exec, pure, lift, ◌>>=◌, ◌>>◌, attempt}
use likes_service.Http.{
  Response, LikeStatusResponse, BatchLikeStatusItemResponse, batch_statuses_body, success,
}
use likes_service.Http.Caches.{cache_like_status, get_cached_like_status}
use likes_service.Http.Likes.{Handlers}
use likes_service.Http.Requests.{parse_authenticated_user_id, respond_with}
use likes_service.Integrations.ProfileApi.{AuthenticatedUser}
use likes_service.Repository as Repository
use likes_service.Repository.{LikeStatus, replica}
use likes_service.Storage.{ContentKey}
use likes_service.Http.Batch.{BatchLikeItemRequest, parse_batch_items, unless_too_large}

module _ (h : Handlers) where
  -- The statuses that the cache has, and the items that it does not have.
  record Found : Type 0 where
    cached_statuses : Map ContentKey LikeStatusResponse
    missing : List ContentKey

  found : ContentKey → Found → Result AppError (Option LikeStatusResponse) → Found
  found c f (ok (some status)) = record f { cached_statuses = insert f.cached_statuses c status }
  found c f (ok none) = record f { missing = f.missing ++ c ∷ [] }
  found c f (err error) = record f { missing = f.missing ++ c ∷ [] }

  find_statuses : Text → List ContentKey → Found → Exec AppError Found
  unfolding found
  find_statuses user [] f = pure f
  find_statuses user (c ∷ items) f = do
    r ← attempt (get_cached_like_status h.statuses user c)
    find_statuses user items (found c f r)

  status_item : ContentKey → LikeStatusResponse → BatchLikeStatusItemResponse
  status_item (content_type, content_id) status = record {
    content_type = content_type;
    content_id = content_id;
    liked = status.liked;
    liked_at = status.liked_at;
  }

  status_or_none : Option LikeStatus → LikeStatusResponse
  status_or_none none = record { liked = false; liked_at = none }
  status_or_none (some status) = record { liked = status.exists; liked_at = status.liked_at }

  answer_item :
      Text
      → ContentKey
      → Map ContentKey LikeStatus
      → Option LikeStatusResponse
      → Exec AppError BatchLikeStatusItemResponse
  unfolding status_item status_or_none
  answer_item user c statuses (some cached) = pure (status_item c cached)
  answer_item user c statuses none = do
    r ← attempt (
        cache_like_status h.statuses h.cache_ttl_user_status_seconds user c
          (status_or_none (get statuses c)))
    pure (status_item c (status_or_none (get statuses c)))

  answer_items :
      Text
      → List ContentKey
      → Map ContentKey LikeStatus
      → Map ContentKey LikeStatusResponse
      → Exec AppError (List BatchLikeStatusItemResponse)
  unfolding answer_item
  answer_items user [] statuses cached = pure []
  answer_items user (c ∷ items) statuses cached = do
    item ← answer_item user c statuses (get cached c)
    rest ← answer_items user items statuses cached
    pure (item ∷ rest)

  -- The repository answers an empty list of items without a query, so no test for it is needed.
  unfoldable pub batch_statuses :
      Text → List ContentKey → Exec AppError (List BatchLikeStatusItemResponse)
  unfolding find_statuses answer_items
  batch_statuses user items = do
    f ← find_statuses user items (record { cached_statuses = []; missing = [] })
    statuses ← Repository.get_like_statuses_batch h.to_char replica user f.missing
    answer_items user items statuses f.cached_statuses

  unfoldable pub get_like_statuses_batch :
      {E : Type 0} → AuthenticatedUser → List BatchLikeItemRequest → Exec E Response
  unfolding unless_too_large parse_batch_items batch_statuses
  get_like_statuses_batch user requests = respond_with (do
    lift (unless_too_large requests)
    user_id ← lift (parse_authenticated_user_id h.uuid user)
    items ← lift (parse_batch_items h.uuid requests)
    results ← batch_statuses (show_user_id h.uuid user_id) items
    pure (success (batch_statuses_body results)))
