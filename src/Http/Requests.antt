-- ===== src/Http/Requests.antt =====
-- What the HTTP handlers do first and last: parse their arguments, and answer an early return with
-- the response of its error (src/http/helpers.rs, src/http/likes.rs, src/http/user_likes.rs).
pub mod Finishing
use likes_service.Common.{Text, Option, none, some}
use likes_service.Common.Results.{Result, ok, err, map_err, ◌>>=◌}
use likes_service.Domain.{
  UuidApi, ContentType, ContentId, UserId, parse_content_type, parse_content_id, parse_user_id,
}
use likes_service.Error.{AppError, domain}
use likes_service.Effects.{Exec}
use likes_service.Helpers.{Base64Api, LikesCursor, decode_cursor}
use likes_service.Http.{Response, into_response}
use likes_service.Integrations.ProfileApi.{AuthenticatedUser}

unfoldable pub parse_authenticated_user_id : UuidApi → AuthenticatedUser → Result AppError UserId
parse_authenticated_user_id u user = map_err domain (parse_user_id u user.user_id)

-- `match ContentType::from_str(...)` with the early return of `AppError::from`.
unfoldable pub content_type_of : Text → Result AppError Text
content_type_of value = map_err domain (parse_content_type value) >>= λ t. ok t.value

unfoldable pub content_id_of : UuidApi → Text → Result AppError Text
content_id_of u value = map_err domain (parse_content_id u value) >>= λ c. ok (u.show c.uuid)

unfoldable pub optional_content_type : Option Text → Result AppError (Option Text)
unfolding content_type_of
optional_content_type none = ok none
optional_content_type (some value) = content_type_of value >>= λ t. ok (some t)

unfoldable pub optional_cursor : Base64Api → Option Text → Result AppError (Option LikesCursor)
optional_cursor b none = ok none
optional_cursor b (some value) = decode_cursor b value >>= λ cursor. ok (some cursor)

response_of : Result AppError Response → Response
response_of (ok response) = response
response_of (err error) = into_response error

-- A handler never fails: its error is its answer.
unfoldable pub respond_with : {E : Type 0} → Exec AppError Response → Exec E Response
unfolding response_of
respond_with m w = let (r, w') = m w in (ok (response_of r), w')
