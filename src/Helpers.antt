-- ===== src/Helpers.antt =====
-- The helpers of the HTTP handlers that compute: limits, cursors, entity tags and cache keys of
-- src/http/helpers.rs. Base64 and UTF-8 are libraries' code.
pub mod Cursors
pub mod Limits
pub mod Etags
mod Tests
use likes_service.Common.{
  ℕ, ◌≡◌, Bool, true, false, ◌||◌, List, [], ◌∷◌, ◌++◌, Text, text, Option, none, some, ltb,
  nat_eqb, text_eqb, split_once, split, trim, map, if◌then◌else◌,
}
use likes_service.Common.Decimal.{show_nat, show_integer}
use likes_service.Common.Int.{ℤ}
use likes_service.Common.Results.{Result, ok, err, unwrap_or}
use likes_service.Error.{AppError, invalid_request}

abbrev pub max_batch_items : ℕ
max_batch_items = 100

abbrev pub default_user_likes_limit : ℕ
default_user_likes_limit = 20

abbrev pub max_top_likes_limit : ℕ
max_top_likes_limit = 50

abbrev pub default_top_likes_limit : ℕ
default_top_likes_limit = 10

checked_limit : ℕ → ℕ → Result AppError ℕ
checked_limit max limit =
    if nat_eqb limit 0 || ltb max limit
    then err (
        invalid_request (text "INVALID_LIMIT")
          (text "limit must be between 1 and " ++ show_nat max))
    else ok limit

unfoldable pub parse_limit : Option ℕ → Result AppError ℕ
unfolding checked_limit
parse_limit limit = checked_limit max_batch_items (unwrap_or limit default_user_likes_limit)

unfoldable pub parse_top_likes_limit : Option ℕ → Result AppError ℕ
unfolding checked_limit
parse_top_likes_limit limit =
    checked_limit max_top_likes_limit (unwrap_or limit default_top_likes_limit)

-- base64's STANDARD engine, and the bytes of a `String`.
pub record Base64Api : Type 0 where
  pub encode : List ℕ → Text
  pub decode : Text → Option (List ℕ)
  pub as_bytes : Text → List ℕ
  pub from_utf8 : List ℕ → Option Text

-- What their documentation says: what is encoded is decoded as it was.
pub record Base64Laws (b : Base64Api) : Type 0 where
  pub decode-encode : (bytes : List ℕ) → b.decode (b.encode bytes) ≡ some bytes
  pub from_utf8-as_bytes : (s : Text) → b.from_utf8 (b.as_bytes s) ≡ some s

-- A row of `list_user_likes`, and the place in the list after it.
pub record UserLikeRow : Type 0 where
  pub content_type : Text
  pub content_id : Text
  pub liked_at : Text

pub record LikesCursor : Type 0 where
  pub liked_at : Text
  pub content_id : Text

abbrev pub invalid_cursor : AppError
invalid_cursor = invalid_request (text "INVALID_CURSOR") (text "invalid cursor")

filled_cursor : Text → Text → Result AppError LikesCursor
filled_cursor [] content_id = err invalid_cursor
filled_cursor (c ∷ s) [] = err invalid_cursor
filled_cursor (c ∷ s) (d ∷ t) = ok (record { liked_at = c ∷ s; content_id = d ∷ t })

cursor_of : Option (Text × Text) → Result AppError LikesCursor
unfolding filled_cursor
cursor_of none = err invalid_cursor
cursor_of (some (liked_at, content_id)) = filled_cursor liked_at content_id

cursor_text : Option Text → Result AppError LikesCursor
unfolding cursor_of
cursor_text none = err invalid_cursor
cursor_text (some decoded) = cursor_of (split_once b'|' decoded)

module _ (b : Base64Api) where
  unfoldable pub encode_cursor : UserLikeRow → Text
  encode_cursor row = b.encode (b.as_bytes (row.liked_at ++ b'|' ∷ row.content_id))

  decoded_bytes : Option (List ℕ) → Result AppError LikesCursor
  unfolding cursor_text
  decoded_bytes none = err invalid_cursor
  decoded_bytes (some bytes) = cursor_text (b.from_utf8 bytes)

  unfoldable pub decode_cursor : Text → Result AppError LikesCursor
  unfolding decoded_bytes
  decode_cursor value = decoded_bytes (b.decode value)

-- A printed user id, content type and content id.
unfoldable pub like_status_cache_key : Text → Text → Text → Text
like_status_cache_key user_id content_type content_id =
    text "likes:status:" ++ (user_id ++ b':' ∷ (content_type ++ b':' ∷ content_id))

abbrev pub cache_control_for_count : Text
cache_control_for_count = text "public, max-age=5, stale-while-revalidate=55"

abbrev pub cache_control_for_top_likes : Text
cache_control_for_top_likes = text "public, max-age=30, stale-while-revalidate=30"

-- A printed content type and content id, and a count.
unfoldable pub count_response_etag : Text → Text → ℤ → Text
count_response_etag content_type content_id count =
    text "\"count:"
    ++ (content_type ++ b':' ∷ (content_id ++ b':' ∷ (show_integer count ++ b'"' ∷ [])))

-- Whether one of the candidates is `*` or the tag.
unfoldable pub names_etag : Text → List Text → Bool
names_etag etag [] = false
names_etag etag (candidate ∷ candidates) =
    (text_eqb candidate (text "*") || text_eqb candidate etag) || names_etag etag candidates

unfoldable pub if_none_match_matches : Option Text → Text → Bool
unfolding names_etag
if_none_match_matches none etag = false
if_none_match_matches (some header_value) etag =
    names_etag etag (map trim (split b',' header_value))

-- `window.as_str()`, the printed content type, and the limit.
unfoldable pub top_likes_cache_key : Text → Option Text → ℕ → Text
top_likes_cache_key window content_type limit =
    text "likes:top:"
    ++ (window ++ b':' ∷ (unwrap_or content_type (text "all") ++ b':' ∷ show_nat limit))
