-- ===== src/Http/Batch.antt =====
-- Requests for several items: src/http/batch.rs and parse_batch_items of src/http/helpers.rs.
pub mod Leaders
pub mod Counts
pub mod Statuses
use likes_service.Common.{
  ℕ, ◌+◌, Bool, true, false, List, [], ◌∷◌, ◌++◌, Text, text, Option, none, some, map, length, ltb,
  nat_eqb, if◌then◌else◌, text_eq, pair_eq, replicate,
}
use likes_service.Common.Int.{ℤ, pos}
use likes_service.Common.Maps.{Map, get, insert}
use likes_service.Common.Results.{Result, ok, err}
use likes_service.AppState.{
  LikeCountFillPermit, leader, follower, begin_like_count_fill, finish_like_count_fill,
}
use likes_service.Domain.{UuidApi, show_user_id}
use likes_service.Error.{AppError, invalid_request}
use likes_service.Effects.{
  World, Exec, cache_operation, pure, raise, lift, ◌>>=◌, ◌>>◌, attempt, record_metric, modify,
}
use likes_service.Helpers.{max_batch_items}
use likes_service.Http.{
  Response, LikeCountResponse, LikeStatusResponse, BatchLikeStatusItemResponse, batch_counts_body,
  batch_statuses_body, into_response, success,
}
use likes_service.Http.Caches.{
  cache_like_count, get_cached_like_counts, cache_like_status, get_cached_like_status,
}
use likes_service.Http.Likes.{Handlers}
use likes_service.Http.Requests.{
  parse_authenticated_user_id, content_type_of, content_id_of, respond_with,
}
use likes_service.Integrations.ProfileApi.{AuthenticatedUser}
use likes_service.Repository as Repository
use likes_service.Repository.{LikeStatus, replica}
use likes_service.Storage.{ContentKey}
use likes_service.UseCases.{like_count_cache_key}

pub record BatchLikeItemRequest : Type 0 where
  pub content_type : Text
  pub content_id : Text

and_rest :
    Result AppError ContentKey
    → Result AppError (List ContentKey)
    → Result AppError (List ContentKey)
and_rest (err e) rest = err e
and_rest (ok c) (err e) = err e
and_rest (ok c) (ok cs) = ok (c ∷ cs)

content_of : Result AppError Text → Result AppError Text → Result AppError ContentKey
content_of (err e) r = err e
content_of (ok content_type) (err e) = err e
content_of (ok content_type) (ok content_id) = ok (content_type, content_id)

-- parse_batch_items of src/http/helpers.rs: the error of the first item that has one.
unfoldable pub parse_batch_items :
    UuidApi → List BatchLikeItemRequest → Result AppError (List ContentKey)
unfolding and_rest content_of
parse_batch_items u [] = ok []
parse_batch_items u (item ∷ items) =
    and_rest (content_of (content_type_of item.content_type) (content_id_of u item.content_id))
      (parse_batch_items u items)

unless_too_large : List BatchLikeItemRequest → Result AppError Unit
unless_too_large items =
    if ltb max_batch_items (length items)
    then err (invalid_request (text "BATCH_TOO_LARGE") (text "batch too large"))
    else ok tt
