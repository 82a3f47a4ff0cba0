-- ===== src/Integrations/ContentAvailability.antt =====
-- ContentValidationClient::check_availability of src/integrations/content_validation.rs: the
-- definitions are asked in turn until one answers by 200 or 404.
use likes_service.Common.{
  ℕ, List, [], ◌∷◌, ◌++◌, ◌||◌, Text, text, Option, none, some, nat_eqb, if◌then◌else◌,
}
use likes_service.Common.Decimal.{show_nat}
use likes_service.Common.Results.{Result, ok, err, unwrap_or}
use likes_service.CircuitBreaker.{CircuitBreakerOpenError}
use likes_service.Error.{ContentValidationError, dependency_down, network_error}
use likes_service.Effects.{Exec, ContentReply, content_lost, content_status, raise, ◌>>=◌, ◌>>◌}
use likes_service.Integrations.Calls.{
  content_api, show_open_error, allow_call, call_succeeded, call_failed, send_content_request,
  trim_end_slashes,
}
use likes_service.Integrations.ContentRegistry as Registry
use likes_service.Integrations.ContentRegistry.{ContentApiDefinition, ContentTypeRegistry}
use likes_service.Integrations.ContentValidation.{record_content_call}

abbrev pub availability_url : ContentApiDefinition → Text
availability_url definition =
    trim_end_slashes definition.base_url
    ++ text "/v1/"
    ++ definition.content_type
    ++ text "/00000000-0000-0000-0000-000000000000"

module _ (show_status : ℕ → Text) where
  -- What is done on a reply; `next` goes on with the error of this definition.
  judged :
      (ContentValidationError → Exec ContentValidationError Unit)
      → ContentReply
      → Exec ContentValidationError Unit
  judged next (content_lost error) = do
    call_failed content_api
    record_content_call (text "network_error")
    next (network_error error)
  judged next (content_status status) = do
    record_content_call (show_nat status)
    if nat_eqb status 200 || nat_eqb status 404 then call_succeeded content_api else (do
      call_failed content_api
      next (dependency_down (text "unexpected content api status: " ++ show_status status)))

  ask :
      ContentApiDefinition
      → (ContentValidationError → Exec ContentValidationError Unit)
      → Result CircuitBreakerOpenError Unit
      → Exec ContentValidationError Unit
  unfolding judged
  ask definition next (err error) = do
    record_content_call (text "circuit_open")
    next (dependency_down (show_open_error error))
  ask definition next (ok x) = do
    reply ← send_content_request (availability_url definition)
    judged next reply

  -- The loop over the definitions, with the last error.
  unfoldable pub ask_all :
      List ContentApiDefinition → Option ContentValidationError → Exec ContentValidationError Unit
  unfolding ask
  ask_all [] last_error =
      raise (unwrap_or last_error (dependency_down (text "content api availability check failed")))
  ask_all (definition ∷ definitions) last_error = do
    allowed ← allow_call content_api
    ask definition (λ error. ask_all definitions (some error)) allowed

  some_defined : List ContentApiDefinition → Exec ContentValidationError Unit
  unfolding ask_all
  some_defined [] = raise (dependency_down (text "no content api definitions configured"))
  some_defined (definition ∷ definitions) = ask_all (definition ∷ definitions) none

  unfoldable pub check_availability : ContentTypeRegistry → Exec ContentValidationError Unit
  unfolding some_defined
  check_availability registry = some_defined (Registry.all registry)
