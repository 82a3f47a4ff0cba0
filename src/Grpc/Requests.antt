-- ===== src/Grpc/Requests.antt =====
-- How the gRPC service reads its requests: the functions at the end of src/grpc.rs.
use likes_service.Common.{
  ℕ, List, [], ◌∷◌, Text, text, Option, none, some, trim, strip_prefix, nat_eqb, if◌then◌else◌,
}
use likes_service.Common.Int.{ℤ, pos, negsuc}
use likes_service.Common.Results.{Result, ok, err, map_err, unwrap_or, ◌>>=◌}
use likes_service.Domain.{UuidApi, UserId, parse_content_type, parse_content_id, parse_user_id}
use likes_service.Error.{domain}
use likes_service.Grpc.{Status, invalid_argument, app_error_to_status}
use likes_service.Grpc.Messages.{ContentRef}
use likes_service.Helpers.{Base64Api, LikesCursor, decode_cursor}
use likes_service.Http.Top.{parse_top_likes_window}
use likes_service.Integrations.ProfileApi.{AuthenticatedUser}
use likes_service.Repository.Listing.Ranking.{
  TopLikesWindow, last_24_hours, last_7_days, last_30_days, all,
}
use likes_service.Storage.{ContentKey}

-- The token of `authenticate`.
unfoldable pub session_token_of : Text → Text
session_token_of token = trim (unwrap_or (strip_prefix (text "Bearer ") (trim token)) (trim token))

unfoldable pub authenticated_user_id : UuidApi → AuthenticatedUser → Result Status UserId
authenticated_user_id u user =
    map_err (λ e. app_error_to_status (domain e)) (parse_user_id u user.user_id)

unfoldable pub content_id_of : UuidApi → Text → Result Status Text
content_id_of u value =
    map_err (λ e. app_error_to_status (domain e)) (parse_content_id u value) >>= λ c.
    ok (u.show c.uuid)

content_type_in : Text → Result Status Text
content_type_in [] =
    err (record { code = invalid_argument; message = text "content_type is required" })
content_type_in (c ∷ value) =
    map_err (λ e. app_error_to_status (domain e)) (parse_content_type (c ∷ value)) >>= λ t.
    ok t.value

-- parse_content_type
unfoldable pub content_type_of : Text → Result Status Text
unfolding content_type_in
content_type_of value = content_type_in (trim value)

unfoldable pub optional_content_type : Option Text → Result Status (Option Text)
unfolding content_type_of
optional_content_type none = ok none
optional_content_type (some value) = content_type_of value >>= λ t. ok (some t)

unfoldable pub optional_cursor : Base64Api → Option Text → Result Status (Option LikesCursor)
optional_cursor b none = ok none
optional_cursor b (some value) =
    map_err app_error_to_status (decode_cursor b value) >>= λ c. ok (some c)

unfoldable pub parse_content_refs : UuidApi → List ContentRef → Result Status (List ContentKey)
unfolding content_type_of content_id_of
parse_content_refs u [] = ok []
parse_content_refs u (item ∷ items) = content_type_of item.content_type >>= λ content_type.
    content_id_of u item.content_id >>= λ content_id.
    parse_content_refs u items >>= λ rest. ok ((content_type, content_id) ∷ rest)

abbrev invalid_window : Status
invalid_window = record { code = invalid_argument; message = text "invalid top likes window enum" }

-- The enum's values are the numbers of proto/likes.proto.
window_number : ℕ → Result Status TopLikesWindow
unfolding parse_top_likes_window
window_number n =
    if nat_eqb n 0
    then map_err app_error_to_status (parse_top_likes_window none)
    else if nat_eqb n 1
    then ok last_24_hours
    else if nat_eqb n 2
    then ok last_7_days
    else if nat_eqb n 3
    then ok last_30_days
    else if nat_eqb n 4
    then ok all
    else err invalid_window

unfoldable pub parse_top_window : ℤ → Result Status TopLikesWindow
unfolding window_number
parse_top_window (pos n) = window_number n
parse_top_window (negsuc n) = err invalid_window

unfoldable pub top_window_to_proto : TopLikesWindow → ℤ
top_window_to_proto last_24_hours = pos 1
top_window_to_proto last_7_days = pos 2
top_window_to_proto last_30_days = pos 3
top_window_to_proto all = pos 4
