-- ===== src/Auth.antt =====
-- Bearer tokens: src/auth_middleware.rs. A header is given as its text if `to_str` accepts it.
pub mod Tokens
mod Tests
use likes_service.Common.{
  ℕ, Bool, true, false, List, [], ◌∷◌, Text, text, Option, none, some, strip_prefix, trim,
}
use likes_service.Common.Results.{Result, ok, err}
use likes_service.Error.{
  AppError, AuthError, unauthorized, dependency_unavailable, invalid_token, auth_dependency_down,
  auth_network_error,
}
use likes_service.Effects.{World, Exec, pure, raise, lift, ◌>>=◌, ◌>>◌, attempt, convert}
use likes_service.Integrations.ProfileApi.{AuthenticatedUser, validate_token}
use likes_service.Http.{Response, into_response, set_logged_user}

-- The Authorization header: not there, not a text, or a text.
pub data Authorization : Type 0 where
  missing not_text : Authorization
  header : Text → Authorization

abbrev pub invalid_header : AppError
invalid_header = unauthorized (text "UNAUTHORIZED") (text "invalid authorization header")

unless_blank : Text → Text → Result AppError Text
unless_blank token [] = err invalid_header
unless_blank token (c ∷ s) = ok token

bearer_of : Option Text → Result AppError Text
unfolding unless_blank
bearer_of none = err invalid_header
bearer_of (some token) = unless_blank token (trim token)

unfoldable pub extract_bearer_token : Authorization → Result AppError Text
unfolding bearer_of
extract_bearer_token missing =
    err (unauthorized (text "UNAUTHORIZED") (text "missing authorization header"))
extract_bearer_token not_text = err invalid_header
extract_bearer_token (header value) = bearer_of (strip_prefix (text "Bearer ") value)

unfoldable pub auth_app_error : AuthError → AppError
auth_app_error invalid_token = unauthorized (text "UNAUTHORIZED") (text "invalid bearer token")
auth_app_error (auth_dependency_down e) =
    dependency_unavailable (text "DEPENDENCY_UNAVAILABLE") (text "dependency unavailable")
auth_app_error (auth_network_error e) =
    dependency_unavailable (text "DEPENDENCY_UNAVAILABLE") (text "dependency unavailable")

module _ (show_status : ℕ → Text) (base_url : Text) where
  -- The error is the answer to the request.
  unfoldable pub authenticate_headers : Authorization → Exec AppError AuthenticatedUser
  authenticate_headers authorization = do
    bearer_token ← lift (extract_bearer_token authorization)
    convert auth_app_error (validate_token show_status base_url bearer_token)

  answered_as :
      {E : Type 0}
      → (AuthenticatedUser → Exec E Response)
      → Result AppError AuthenticatedUser
      → Exec E Response
  answered_as next (err error) = pure (into_response error)
  answered_as next (ok user) = do response ← next user; pure (set_logged_user user.user_id response)

  unfoldable pub require_auth :
      {E : Type 0} → Authorization → (AuthenticatedUser → Exec E Response) → Exec E Response
  unfolding answered_as
  require_auth authorization next = do
    r ← attempt (authenticate_headers authorization)
    answered_as next r
