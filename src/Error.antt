-- ===== src/Error.antt =====
-- The errors of the service and their HTTP form: src/error.rs, and the error types of
-- src/integrations/content_validation.rs and src/integrations/profile_api_client.rs.
-- An error of a foreign library (sqlx, redis, reqwest) is carried as its message.
-- Backtraces and log lines are not modelled.
pub mod Mapping
mod Tests
use likes_service.Common.{ℕ, ◌++◌, List, [], ◌∷◌, Text, text, Option, none, some}

pub data DomainError : Type 0 where
  invalid_content_type : Text → DomainError
  invalid_content_id : Text → DomainError
  invalid_user_id : Text → DomainError

pub data ContentValidationError : Type 0 where
  content_type_unknown : Text → ContentValidationError
  content_not_found : Text → Text → ContentValidationError
  dependency_down : Text → ContentValidationError
  network_error : Text → ContentValidationError

pub data AuthError : Type 0 where
  invalid_token : AuthError
  auth_dependency_down : Text → AuthError
  auth_network_error : Text → AuthError

pub data AppError : Type 0 where
  invalid_request : Text → Text → AppError
  unauthorized : Text → Text → AppError
  dependency_unavailable : Text → Text → AppError
  domain : DomainError → AppError
  content_validation : ContentValidationError → AppError
  database : Text → AppError
  cache : Text → AppError

-- A member of a JSON object of details.
pub data JsonValue : Type 0 where
  str : Text → JsonValue
  num : ℕ → JsonValue

abbrev pub Details : Type 0
Details = List (Text × JsonValue)

pub record HttpError : Type 0 where
  pub status : ℕ
  pub code : Text
  pub message : Text
  pub details : Option Details

pub record ErrorLogContext : Type 0 where
  pub error_type : Text
  pub error_message : Text

-- impl Display for DomainError
unfoldable pub show_domain_error : DomainError → Text
show_domain_error (invalid_content_type value) = text "invalid content type: '" ++ value ++ text "'"
show_domain_error (invalid_content_id value) = text "invalid content id: '" ++ value ++ text "'"
show_domain_error (invalid_user_id value) = text "invalid user id: '" ++ value ++ text "'"

-- impl Display for ContentValidationError
unfoldable pub show_content_validation_error : ContentValidationError → Text
show_content_validation_error (content_type_unknown content_type) =
    text "unknown content type: " ++ content_type
show_content_validation_error (content_not_found content_type content_id) =
    text "content not found: " ++ content_type ++ text "/" ++ content_id
show_content_validation_error (dependency_down message) =
    text "content api dependency unavailable: " ++ message
show_content_validation_error (network_error message) =
    text "content api network error: " ++ message

-- impl Display for AuthError
unfoldable pub show_auth_error : AuthError → Text
show_auth_error invalid_token = text "invalid token"
show_auth_error (auth_dependency_down message) =
    text "profile api dependency unavailable: " ++ message
show_auth_error (auth_network_error message) = text "profile api network error: " ++ message

-- impl Display for AppError
unfoldable pub show_app_error : AppError → Text
unfolding show_domain_error show_content_validation_error
show_app_error (invalid_request code message) = message
show_app_error (unauthorized code message) = message
show_app_error (dependency_unavailable code message) = message
show_app_error (domain error) = show_domain_error error
show_app_error (content_validation error) = show_content_validation_error error
show_app_error (database error) = text "database error: " ++ error
show_app_error (cache error) = text "cache error: " ++ error

domain_http_error : DomainError → HttpError
domain_http_error (invalid_content_type value) = record {
  status = 400;
  code = text "INVALID_CONTENT_TYPE";
  message = text "invalid content type";
  details = some ((text "field", str (text "content_type")) ∷ []);
}
domain_http_error (invalid_content_id value) = record {
  status = 400;
  code = text "INVALID_CONTENT_ID";
  message = text "invalid content id";
  details = some ((text "field", str (text "content_id")) ∷ []);
}
domain_http_error (invalid_user_id value) = record {
  status = 400;
  code = text "INVALID_USER_ID";
  message = text "invalid user id";
  details = some ((text "field", str (text "user_id")) ∷ []);
}

abbrev pub dependency_http_error : HttpError
dependency_http_error = record {
  status = 503;
  code = text "DEPENDENCY_UNAVAILABLE";
  message = text "dependency unavailable";
  details = none;
}

content_validation_http_error : ContentValidationError → HttpError
content_validation_http_error (content_type_unknown content_type) = record {
  status = 400;
  code = text "CONTENT_TYPE_UNKNOWN";
  message = text "content type unknown";
  details = some ((text "content_type", str content_type) ∷ []);
}
content_validation_http_error (content_not_found content_type content_id) = record {
  status = 404;
  code = text "CONTENT_NOT_FOUND";
  message = text "content not found";
  details =
      some ((text "content_type", str content_type) ∷ (text "content_id", str content_id) ∷ []);
}
content_validation_http_error (dependency_down message) = dependency_http_error
content_validation_http_error (network_error message) = dependency_http_error

abbrev pub internal_http_error : HttpError
internal_http_error = record {
  status = 500;
  code = text "INTERNAL_ERROR";
  message = text "internal error";
  details = none;
}

unfoldable pub as_http_error : AppError → HttpError
unfolding domain_http_error content_validation_http_error
as_http_error (invalid_request code message) = record {
  status = 400;
  code = code;
  message = message;
  details = none;
}
as_http_error (unauthorized code message) = record {
  status = 401;
  code = code;
  message = message;
  details = none;
}
as_http_error (dependency_unavailable code message) = record {
  status = 503;
  code = code;
  message = message;
  details = none;
}
as_http_error (domain error) = domain_http_error error
as_http_error (content_validation error) = content_validation_http_error error
as_http_error (database error) = internal_http_error
as_http_error (cache error) = internal_http_error

unfoldable pub error_log_context : AppError → Option ErrorLogContext
error_log_context (database error) =
    some (record { error_type = text "database_error"; error_message = error })
error_log_context (cache error) =
    some (record { error_type = text "cache_error"; error_message = error })
error_log_context (invalid_request code message) = none
error_log_context (unauthorized code message) = none
error_log_context (dependency_unavailable code message) = none
error_log_context (domain error) = none
error_log_context (content_validation error) = none
