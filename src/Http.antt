-- ===== src/Http.antt =====
-- HTTP responses as the handlers build them: src/error.rs (into_response, rate_limited,
-- set_rate_limit_headers) and src/http/dto.rs. A body is the value that is serialised; a header with
-- a number stands for that number in decimal.
pub mod Examples
mod Tests
pub mod Requests
pub mod Caches
pub mod Likes
pub mod Counts
pub mod Batch
pub mod Top
pub mod UserLikes
use likes_service.Common.{ℕ, Bool, List, [], ◌∷◌, Text, text, Option, none, some, text_eq}
use likes_service.Common.Int.{ℤ}
use likes_service.Common.Maps.{Map, insert}
use likes_service.Error.{
  AppError, HttpError, ErrorLogContext, JsonValue, num, as_http_error, error_log_context,
}

pub record LikeResponse : Type 0 where
  pub liked : Bool
  pub already_existed : Bool
  pub count : ℕ
  pub liked_at : Option Text

pub record UnlikeResponse : Type 0 where
  pub liked : Bool
  pub was_liked : Bool
  pub count : ℕ

pub record LikeStatusResponse : Type 0 where
  pub liked : Bool
  pub liked_at : Option Text

pub record LikeCountResponse : Type 0 where
  pub content_type : Text
  pub content_id : Text
  pub count : ℤ

pub record UserLikeItemResponse : Type 0 where
  pub content_type : Text
  pub content_id : Text
  pub liked_at : Text

pub record UserLikesResponse : Type 0 where
  pub items : List UserLikeItemResponse
  pub next_cursor : Option Text
  pub has_more : Bool

pub record TopLikeItemResponse : Type 0 where
  pub content_type : Text
  pub content_id : Text
  pub count : ℤ

pub record TopLikesResponse : Type 0 where
  pub window : Text
  pub content_type : Option Text
  pub items : List TopLikeItemResponse

pub record BatchLikeStatusItemResponse : Type 0 where
  pub content_type : Text
  pub content_id : Text
  pub liked : Bool
  pub liked_at : Option Text

pub data Body : Type 0 where
  no_body : Body
  error_body : HttpError → Body
  like_body : LikeResponse → Body
  unlike_body : UnlikeResponse → Body
  status_body : LikeStatusResponse → Body
  count_body : LikeCountResponse → Body
  user_likes_body : UserLikesResponse → Body
  top_likes_body : TopLikesResponse → Body
  batch_counts_body : List LikeCountResponse → Body
  batch_statuses_body : List BatchLikeStatusItemResponse → Body

-- `logged_user` and `error_context` are the extensions that the access log reads.
pub record Response : Type 0 where
  pub status : ℕ
  pub headers : Map Text JsonValue
  pub body : Body
  pub logged_user : Option Text
  pub error_context : Option ErrorLogContext

abbrev pub respond : ℕ → Body → Response
respond status body = record {
  status = status;
  headers = [];
  body = body;
  logged_user = none;
  error_context = none;
}

unfoldable pub set_header : Text → JsonValue → Response → Response
set_header name value response = record response { headers = insert response.headers name value }

unfoldable pub set_logged_user : Text → Response → Response
set_logged_user user_id response = record response { logged_user = some user_id }

-- impl IntoResponse for AppError
unfoldable pub into_response : AppError → Response
into_response e = record (respond (as_http_error e).status (error_body (as_http_error e))) {
  error_context = error_log_context e;
}

-- helpers.rs, success
unfoldable pub success : Body → Response
success body = respond 200 body

set_retry_after : Option ℕ → Response → Response
unfolding set_header
set_retry_after none response = response
set_retry_after (some seconds) response = set_header (text "retry-after") (num seconds) response

unfoldable pub set_rate_limit_headers : Response → ℕ → ℕ → ℕ → Option ℕ → Response
unfolding set_header set_retry_after
set_rate_limit_headers response limit remaining reset_epoch_seconds retry_after_seconds =
    set_retry_after retry_after_seconds (
      set_header (text "x-ratelimit-reset") (num reset_epoch_seconds) (
        set_header (text "x-ratelimit-remaining") (num remaining)
          (set_header (text "x-ratelimit-limit") (num limit) response)))

unfoldable pub rate_limited : Text → Text → ℕ → ℕ → ℕ → ℕ → Response
unfolding set_rate_limit_headers
rate_limited code message limit remaining reset_epoch_seconds retry_after_seconds =
    set_rate_limit_headers
      (respond 429 (
        error_body (record {
          status = 429;
          code = code;
          message = message;
          details = some (
              (text "limit", num limit)
              ∷ (text "remaining", num remaining)
              ∷ (text "reset_epoch_seconds", num reset_epoch_seconds)
              ∷ (text "retry_after_seconds", num retry_after_seconds)
              ∷ []);
        })))
      limit remaining reset_epoch_seconds (some retry_after_seconds)
