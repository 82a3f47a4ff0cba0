-- ===== src/Grpc/Statuses.antt =====
-- The gRPC codes against the HTTP statuses of the same errors.
use likes_service.Common.{ℕ, ◌≡◌, ◌≢◌, ◌↔◌, ◌∙◌, refl, sym, ap, Bool, true, false, arith}
use likes_service.Error.{
  AppError, ContentValidationError, invalid_request, unauthorized, dependency_unavailable, domain,
  content_validation, database, cache, as_http_error, invalid_content_type, invalid_content_id,
  invalid_user_id, content_type_unknown, content_not_found, dependency_down, network_error,
}
use likes_service.Grpc.{
  Code, invalid_argument, not_found, unauthenticated, unavailable, internal, app_error_to_status,
}

-- The HTTP status that stands for a code.
abbrev pub http_status : Code → ℕ
http_status invalid_argument = 400
http_status unauthenticated = 401
http_status not_found = 404
http_status internal = 500
http_status unavailable = 503

abbrev pub is_content_validation : AppError → Bool
is_content_validation (content_validation e) = true
is_content_validation (invalid_request c m) = false
is_content_validation (unauthorized c m) = false
is_content_validation (dependency_unavailable c m) = false
is_content_validation (domain e) = false
is_content_validation (database e) = false
is_content_validation (cache e) = false

-- What the HTTP API answers to a content validation error.
abbrev pub content_validation_status : ContentValidationError → ℕ
content_validation_status (content_type_unknown t) = 400
content_validation_status (content_not_found t i) = 404
content_validation_status (dependency_down m) = 503
content_validation_status (network_error m) = 503

abbrev pub ComparesWithHttp : AppError → Type 0
ComparesWithHttp e =
    ((http_status (app_error_to_status e).code ≡ (as_http_error e).status)
      ↔ (is_content_validation e ≡ false))
    × ((x : ContentValidationError)
        → e ≡ content_validation x
        → ((app_error_to_status e).code ≡ internal)
          × ((as_http_error e).status ≡ content_validation_status x))

like_http :
    (e : AppError)
    → http_status (app_error_to_status e).code ≡ (as_http_error e).status
    → is_content_validation e ≡ false
    → ComparesWithHttp e
like_http e same other =
    ((λ h. other, λ h. same), λ x is_it. absurd (cc (other, ap is_content_validation is_it)))

unlike_http :
    (x : ContentValidationError)
    → (app_error_to_status (content_validation x)).code ≡ internal
    → (as_http_error (content_validation x)).status ≡ content_validation_status x
    → content_validation_status x ≢ 500
    → ComparesWithHttp (content_validation x)
unlike_http x code status other = (
  (λ h. absurd (other (sym status ∙ sym h ∙ ap http_status code)), λ h. absurd (cc h)),
  λ y same. let here : x ≡ y = cc same in (code, status ∙ ap content_validation_status here),
)

-- The gRPC code of an error is that of its HTTP status exactly if the error is no content validation
-- error. A content validation error is INTERNAL over gRPC; over HTTP it is 400 where the content type
-- is unknown, 404 where there is no such content, and 503 where the content API fails.
pub app_error_to_status_iff : (e : AppError) → ComparesWithHttp e
unfolding app_error_to_status as_http_error
app_error_to_status_iff (invalid_request c m) = like_http (invalid_request c m) refl refl
app_error_to_status_iff (unauthorized c m) = like_http (unauthorized c m) refl refl
app_error_to_status_iff (dependency_unavailable c m) =
    like_http (dependency_unavailable c m) refl refl
app_error_to_status_iff (domain (invalid_content_type v)) =
    like_http (domain (invalid_content_type v)) refl refl
app_error_to_status_iff (domain (invalid_content_id v)) =
    like_http (domain (invalid_content_id v)) refl refl
app_error_to_status_iff (domain (invalid_user_id v)) =
    like_http (domain (invalid_user_id v)) refl refl
app_error_to_status_iff (content_validation (content_type_unknown t)) =
    unlike_http (content_type_unknown t) refl refl (omega arith)
app_error_to_status_iff (content_validation (content_not_found t i)) =
    unlike_http (content_not_found t i) refl refl (omega arith)
app_error_to_status_iff (content_validation (dependency_down m)) =
    unlike_http (dependency_down m) refl refl (omega arith)
app_error_to_status_iff (content_validation (network_error m)) =
    unlike_http (network_error m) refl refl (omega arith)
app_error_to_status_iff (database e) = like_http (database e) refl refl
app_error_to_status_iff (cache e) = like_http (cache e) refl refl
