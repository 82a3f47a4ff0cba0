-- ===== src/Grpc/Service.antt =====
-- The methods of GrpcLikesService, src/grpc.rs: over the use cases and the repository, with no cache
-- but that of the use cases.
use likes_service.Common.{
  ℕ, ◌+◌, false, List, [], ◌∷◌, Text, Option, none, some, map, take, last, length, ltb,
  if◌then◌else◌, text_eq, pair_eq,
}
use likes_service.Common.Maps.{Map, get}
use likes_service.Common.Results.{map_err}
use likes_service.Domain.{show_user_id}
use likes_service.Effects.{Exec, pure, lift, ◌>>=◌, convert}
use likes_service.Grpc.{Status, app_error_to_status, auth_error_to_status}
use likes_service.Grpc.Messages.{
  LikeRequest, LikeResponse, UnlikeResponse, ContentRef, GetLikeCountResponse,
  GetLikeStatusResponse, GetUserLikesRequest, UserLikeItem, GetUserLikesResponse,
  BatchLikeStatusItem, BatchGetLikeStatusesRequest, GetTopLikesRequest, TopLikeItem,
  GetTopLikesResponse,
}
use likes_service.Grpc.Requests.{
  session_token_of, authenticated_user_id, content_id_of, content_type_of, optional_content_type,
  optional_cursor, parse_content_refs, parse_top_window, top_window_to_proto,
}
use likes_service.Helpers.{
  Base64Api, UserLikeRow, encode_cursor, parse_limit, parse_top_likes_limit,
}
use likes_service.Http.Likes.{Handlers}
use likes_service.Integrations.ProfileApi.{AuthenticatedUser, validate_token}
use likes_service.Repository as Repository
use likes_service.Repository.{LikeStatus, replica, option_map}
use likes_service.Repository.Listing.{PostgresApi, list_user_likes}
use likes_service.Repository.Listing.Ranking.{TopLikeRow, list_top_likes}
use likes_service.Storage.{ContentKey}
use likes_service.UseCases.{like_content, unlike_content}

unfoldable pub user_like_item : UserLikeRow → UserLikeItem
user_like_item row = record {
  content_type = row.content_type;
  content_id = row.content_id;
  liked_at = row.liked_at;
}

unfoldable pub top_like_item : TopLikeRow → TopLikeItem
top_like_item row = record {
  content_type = row.content_type;
  content_id = row.content_id;
  count = row.like_count;
}

-- The page that is made of one row more than it may have; `truncate` keeps the first rows.
unfoldable pub user_likes_page : Base64Api → ℕ → List UserLikeRow → GetUserLikesResponse
unfolding user_like_item
user_likes_page b limit rows =
    let has_more = ltb limit (length rows) in
    let page_rows = if has_more then take limit rows else rows in
    record {
      items = map user_like_item page_rows;
      next_cursor = if has_more then option_map (encode_cursor b) (last page_rows) else none;
      has_more = has_more;
    }

-- The answers for the items that were asked for, in their order: 0 where there is no count.
unfoldable pub count_items : Map ContentKey ℕ → List ContentKey → List GetLikeCountResponse
count_items counts [] = []
count_items counts ((content_type, content_id) ∷ items) =
    record {
      content_type = content_type;
      content_id = content_id;
      count = elim (get counts (content_type, content_id)) [ none ↦ 0 | some n ↦ n ];
    }
    ∷ count_items counts items

status_item : ContentKey → Option LikeStatus → BatchLikeStatusItem
status_item (content_type, content_id) none = record {
  content_type = content_type;
  content_id = content_id;
  liked = false;
  liked_at = none;
}
status_item (content_type, content_id) (some status) = record {
  content_type = content_type;
  content_id = content_id;
  liked = status.exists;
  liked_at = status.liked_at;
}

unfoldable pub status_items : Map ContentKey LikeStatus → List ContentKey → List BatchLikeStatusItem
unfolding status_item
status_items statuses [] = []
status_items statuses (item ∷ items) =
    status_item item (get statuses item) ∷ status_items statuses items

module _ (h : Handlers) (base_url : Text) where
  unfoldable pub authenticate : Text → Exec Status AuthenticatedUser
  authenticate token =
      convert auth_error_to_status (validate_token h.show_status base_url (session_token_of token))

  -- The user of a request, and the content that it is about.
  addressed : LikeRequest → Exec Status (Text × ContentKey)
  unfolding authenticate
  addressed request = do
    user ← authenticate request.session_token
    user_id ← lift (authenticated_user_id h.uuid user)
    content_type ← lift (content_type_of request.content_type)
    content_id ← lift (content_id_of h.uuid request.content_id)
    pure (show_user_id h.uuid user_id, (content_type, content_id))

  unfoldable pub like : LikeRequest → Exec Status LikeResponse
  unfolding addressed
  like request = do
    k ← addressed request
    result ← convert app_error_to_status (
        like_content h.show_status h.to_char h.validations h.client h.cache_ttl_like_counts_seconds
          k)
    pure (record {
      liked = result.liked;
      already_existed = result.already_existed;
      count = result.count;
      liked_at = result.liked_at;
    })

  unfoldable pub unlike : LikeRequest → Exec Status UnlikeResponse
  unfolding addressed
  unlike request = do
    k ← addressed request
    result ← convert app_error_to_status (
        unlike_content h.show_status h.to_char h.validations h.client
          h.cache_ttl_like_counts_seconds k)
    pure (record { liked = result.liked; was_liked = result.was_liked; count = result.count })

  -- The answer names the content as the request did.
  unfoldable pub get_like_count : ContentRef → Exec Status GetLikeCountResponse
  get_like_count request = do
    content_type ← lift (content_type_of request.content_type)
    content_id ← lift (content_id_of h.uuid request.content_id)
    count ←
        convert app_error_to_status (Repository.get_like_count replica (content_type, content_id))
    pure (record {
      content_type = request.content_type;
      content_id = request.content_id;
      count = count.count;
    })

  unfoldable pub get_like_status : LikeRequest → Exec Status GetLikeStatusResponse
  unfolding addressed
  get_like_status request = do
    k ← addressed request
    status ← convert app_error_to_status (Repository.get_like_status h.to_char replica k)
    pure (record { liked = status.exists; liked_at = status.liked_at })

  unfoldable pub get_user_likes :
      Base64Api → PostgresApi → GetUserLikesRequest → Exec Status GetUserLikesResponse
  unfolding authenticate user_likes_page
  get_user_likes b pg request = do
    user ← authenticate request.session_token
    user_id ← lift (authenticated_user_id h.uuid user)
    limit ← lift (map_err app_error_to_status (parse_limit request.limit))
    cursor ← lift (optional_cursor b request.cursor)
    content_type ← lift (optional_content_type request.content_type)
    rows ←
        convert app_error_to_status
          (list_user_likes pg replica (show_user_id h.uuid user_id) content_type cursor (limit + 1))
    pure (user_likes_page b limit rows)

  unfoldable pub batch_get_like_counts : List ContentRef → Exec Status (List GetLikeCountResponse)
  unfolding count_items
  batch_get_like_counts refs = do
    items ← lift (parse_content_refs h.uuid refs)
    counts ← convert app_error_to_status (Repository.get_like_counts_batch replica items)
    pure (count_items counts items)

  unfoldable pub batch_get_like_statuses :
      BatchGetLikeStatusesRequest → Exec Status (List BatchLikeStatusItem)
  unfolding authenticate status_items
  batch_get_like_statuses request = do
    user ← authenticate request.session_token
    user_id ← lift (authenticated_user_id h.uuid user)
    items ← lift (parse_content_refs h.uuid request.items)
    statuses ←
        convert app_error_to_status
          (Repository.get_like_statuses_batch h.to_char replica (show_user_id h.uuid user_id) items)
    pure (status_items statuses items)

  unfoldable pub get_top_likes : PostgresApi → GetTopLikesRequest → Exec Status GetTopLikesResponse
  unfolding top_like_item
  get_top_likes pg request = do
    window ← lift (parse_top_window request.window)
    limit ← lift (map_err app_error_to_status (parse_top_likes_limit request.limit))
    content_type ← lift (optional_content_type request.content_type)
    rows ← convert app_error_to_status (list_top_likes pg replica content_type window limit)
    pure (record {
      window = top_window_to_proto window;
      content_type = content_type;
      items = map top_like_item rows;
    })
