-- ===== src/Grpc.antt =====
-- The gRPC statuses of errors: src/grpc.rs, app_error_to_status and auth_error_to_status.
pub mod Statuses
pub mod Messages
pub mod Requests
pub mod Service
pub mod Batches
mod Tests
use likes_service.Common.{◌++◌, Text, text}
use likes_service.Error.{
  AppError, invalid_request, unauthorized, dependency_unavailable, domain, content_validation,
  database, cache, AuthError, invalid_token, auth_dependency_down, auth_network_error,
  show_domain_error, show_app_error, ContentValidationError,
}

pub data Code : Type 0 where
  invalid_argument not_found unauthenticated unavailable internal : Code

pub record Status : Type 0 where
  pub code : Code
  pub message : Text

-- format!("{code}: {message}")
abbrev labelled : Text → Text → Text
labelled code message = code ++ text ": " ++ message

-- `match AppError::from(error)`
content_status : AppError → Status
content_status (invalid_request code message) = record {
  code = invalid_argument;
  message = labelled code message;
}
content_status (dependency_unavailable code message) = record {
  code = unavailable;
  message = labelled code message;
}
content_status (unauthorized code message) = record {
  code = internal;
  message = show_app_error (unauthorized code message);
}
content_status (domain error) = record { code = internal; message = show_app_error (domain error) }
content_status (content_validation error) = record {
  code = internal;
  message = show_app_error (content_validation error);
}
content_status (database error) = record {
  code = internal;
  message = show_app_error (database error);
}
content_status (cache error) = record { code = internal; message = show_app_error (cache error) }

unfoldable pub app_error_to_status : AppError → Status
unfolding content_status
app_error_to_status (invalid_request code message) = record {
  code = invalid_argument;
  message = labelled code message;
}
app_error_to_status (unauthorized code message) = record {
  code = unauthenticated;
  message = labelled code message;
}
app_error_to_status (dependency_unavailable code message) = record {
  code = unavailable;
  message = labelled code message;
}
app_error_to_status (domain error) = record {
  code = invalid_argument;
  message = show_domain_error error;
}
app_error_to_status (content_validation error) = content_status (content_validation error)
app_error_to_status (database error) = record { code = internal; message = error }
app_error_to_status (cache error) = record { code = internal; message = error }

unfoldable pub auth_error_to_status : AuthError → Status
auth_error_to_status invalid_token = record {
  code = unauthenticated;
  message = text "UNAUTHORIZED: invalid token";
}
auth_error_to_status (auth_dependency_down message) = record {
  code = unavailable;
  message = text "DEPENDENCY_UNAVAILABLE: " ++ message;
}
auth_error_to_status (auth_network_error message) = record {
  code = unavailable;
  message = text "DEPENDENCY_UNAVAILABLE: " ++ message;
}
