-- ===== src/Error/Mapping.antt =====
-- What a client learns of an error, and what the access log does: src/error.rs,
-- AppError::as_http_error and AppError::error_log_context.
use likes_service.Common.{◌≡◌, ◌≢◌, ◌↔◌, ◌⊎◌, inl, inr, refl, Text, text, none, some, arith}
use likes_service.Error.{
  AppError, DomainError, ContentValidationError, ErrorLogContext, invalid_request, unauthorized,
  dependency_unavailable, domain, content_validation, database, cache, content_type_unknown,
  content_not_found, dependency_down, network_error, invalid_content_type, invalid_content_id,
  invalid_user_id, as_http_error, internal_http_error, error_log_context,
}

domain_status : (e : DomainError) → (as_http_error (domain e)).status ≡ 400
unfolding as_http_error
domain_status (invalid_content_type value) = refl
domain_status (invalid_content_id value) = refl
domain_status (invalid_user_id value) = refl

content_validation_status :
    (e : ContentValidationError) → (as_http_error (content_validation e)).status ≢ 500
unfolding as_http_error
content_validation_status (content_type_unknown t) = omega arith
content_validation_status (content_not_found t i) = omega arith
content_validation_status (dependency_down m) = omega arith
content_validation_status (network_error m) = omega arith

-- An error of the database or of the cache, with its message and the name that the log has for it.
abbrev pub IsInternal : AppError → Text → Text → Type 0
IsInternal e name message =
    ((e ≡ database message) × (name ≡ text "database_error"))
    ⊎ ((e ≡ cache message) × (name ≡ text "cache_error"))

abbrev pub InternalIffLogged : AppError → Type 0
InternalIffLogged e =
    (((as_http_error e).status ≡ 500)
      ↔ ((name : Text) × (message : Text) × IsInternal e name message))
    × ((as_http_error e).status ≡ 500 → as_http_error e ≡ internal_http_error)
    × ((context : ErrorLogContext)
        → (error_log_context e ≡ some context)
          ↔ IsInternal e context.error_type context.error_message)

client_error :
    (e : AppError)
    → (as_http_error e).status ≢ 500
    → error_log_context e ≡ none
    → ((m : Text) → e ≢ database m)
    → ((m : Text) → e ≢ cache m)
    → InternalIffLogged e
client_error e n l no_database no_cache = (
  (
    λ h. absurd (n h),
    λ (name, m, which). elim which [
      | inl (same, _) ↦ absurd (no_database m same)
      | inr (same, _) ↦ absurd (no_cache m same)
    ],
  ),
  λ h. absurd (n h),
  λ context. (
    λ h. absurd (cc (l, h)),
    λ which. elim which [
      | inl (same, _) ↦ absurd (no_database context.error_message same)
      | inr (same, _) ↦ absurd (no_cache context.error_message same)
    ],
  ),
)

-- An error is answered by 500 exactly if it is one of the database or of the cache, and then by the
-- same answer for all of them, so the message of the library stays inside; and an error is logged
-- exactly if it is one of these, under its name and with its message.
pub internal_iff_logged : (e : AppError) → InternalIffLogged e
unfolding as_http_error error_log_context
internal_iff_logged (invalid_request c m) =
    client_error (invalid_request c m) (omega arith) refl (λ x e. cc) (λ x e. cc)
internal_iff_logged (unauthorized c m) =
    client_error (unauthorized c m) (omega arith) refl (λ x e. cc) (λ x e. cc)
internal_iff_logged (dependency_unavailable c m) =
    client_error (dependency_unavailable c m) (omega arith) refl (λ x e. cc) (λ x e. cc)
internal_iff_logged (domain e) =
    client_error (domain e) (omega (arith, domain_status e)) refl (λ x e. cc) (λ x e. cc)
internal_iff_logged (content_validation e) =
    client_error (content_validation e) (content_validation_status e) refl (λ x e. cc) (λ x e. cc)
internal_iff_logged (database m) = (
  (λ h. (text "database_error", m, inl (refl, refl)), λ h. refl),
  λ h. refl,
  λ context. (λ h. inl (cc, cc), λ which. logged context which),
)
  where
    logged :
        (context : ErrorLogContext)
        → IsInternal (database m) context.error_type context.error_message
        → error_log_context (database m) ≡ some context
    logged context (inl (same, name)) = cc
    logged context (inr (same, name)) = absurd (cc)
internal_iff_logged (cache m) = (
  (λ h. (text "cache_error", m, inr (refl, refl)), λ h. refl),
  λ h. refl,
  λ context. (λ h. inr (cc, cc), λ which. logged context which),
)
  where
    logged :
        (context : ErrorLogContext)
        → IsInternal (cache m) context.error_type context.error_message
        → error_log_context (cache m) ≡ some context
    logged context (inl (same, name)) = absurd (cc)
    logged context (inr (same, name)) = cc
