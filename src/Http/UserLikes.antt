-- ===== src/Http/UserLikes.antt =====
-- The page of a user's likes: src/http/user_likes.rs. It is read from the replica.
pub mod Pages
pub mod Walk
use likes_service.Common.{
  ℕ, ◌+◌, Bool, true, false, List, Text, Option, none, some, map, take, last, length, ltb,
  if◌then◌else◌,
}
use likes_service.Domain.{UuidApi, show_user_id}
use likes_service.Error.{AppError}
use likes_service.Effects.{Exec, pure, lift, ◌>>=◌}
use likes_service.Helpers.{Base64Api, UserLikeRow, encode_cursor, parse_limit}
use likes_service.Http.{Response, UserLikesResponse, UserLikeItemResponse, user_likes_body, success}
use likes_service.Http.Requests.{
  parse_authenticated_user_id, optional_content_type, optional_cursor, respond_with,
}
use likes_service.Integrations.ProfileApi.{AuthenticatedUser}
use likes_service.Repository.{replica, option_map}
use likes_service.Repository.Listing as Listing

pub record UserLikesQuery : Type 0 where
  pub limit : Option ℕ
  pub cursor : Option Text
  pub content_type : Option Text

unfoldable pub item_of : UserLikeRow → UserLikeItemResponse
item_of row = record {
  content_type = row.content_type;
  content_id = row.content_id;
  liked_at = row.liked_at;
}

-- The page that is made of one row more than it may have.
unfoldable pub page_of : Base64Api → ℕ → List UserLikeRow → UserLikesResponse
unfolding item_of
page_of b limit rows =
    let has_next_page = ltb limit (length rows) in
    let page_rows = if has_next_page then take limit rows else rows in
    record {
      items = map item_of page_rows;
      next_cursor = if has_next_page then option_map (encode_cursor b) (last page_rows) else none;
      has_more = has_next_page;
    }

module _ (u : UuidApi) (b : Base64Api) (pg : Listing.PostgresApi) where
  unfoldable pub user_likes_page :
      AuthenticatedUser → UserLikesQuery → Exec AppError UserLikesResponse
  unfolding page_of
  user_likes_page user query = do
    user_id ← lift (parse_authenticated_user_id u user)
    limit ← lift (parse_limit query.limit)
    content_type ← lift (optional_content_type query.content_type)
    cursor ← lift (optional_cursor b query.cursor)
    rows ←
        Listing.list_user_likes pg replica (show_user_id u user_id) content_type cursor (limit + 1)
    pure (page_of b limit rows)

  unfoldable pub list_user_likes :
      {E : Type 0} → AuthenticatedUser → UserLikesQuery → Exec E Response
  unfolding user_likes_page
  list_user_likes user query =
      respond_with (do page ← user_likes_page user query; pure (success (user_likes_body page)))
