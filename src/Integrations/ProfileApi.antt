-- ===== src/Integrations/ProfileApi.antt =====
-- The profile API: src/integrations/profile_api_client.rs. `show_status` prints a status code with its
-- reason, as the HTTP library does. Latencies are not modelled, nor the log entries of calls.
use likes_service.Common.{ℕ, not, ◌++◌, Text, text, nat_eqb, if◌then◌else◌}
use likes_service.Common.Decimal.{show_nat}
use likes_service.Common.Results.{Result, ok, err}
use likes_service.CircuitBreaker.{CircuitBreakerOpenError}
use likes_service.Error.{AuthError, invalid_token, auth_dependency_down, auth_network_error}
use likes_service.Effects.{
  Exec, ValidateTokenResponse, ProfileReply, profile_lost, profile_status, external_call, raise,
  lift, ◌>>=◌, ◌>>◌, record_metric,
}
use likes_service.Integrations.Calls.{
  profile_api, show_open_error, allow_call, call_succeeded, call_failed, send_profile_request,
  trim_end_slashes,
}

pub record AuthenticatedUser : Type 0 where
  pub user_id : Text
  pub display_name : Text

-- impl From<ValidateTokenResponse> for AuthenticatedUser, and into_authenticated_user
unfoldable pub into_authenticated_user : ValidateTokenResponse → Result AuthError AuthenticatedUser
into_authenticated_user payload =
    if not payload.valid
    then err invalid_token
    else ok (record { user_id = payload.user_id; display_name = payload.display_name })

abbrev record_profile_call : Text → Exec AuthError Unit
record_profile_call status =
    record_metric (external_call (text "profile_api") (text "GET /v1/auth/validate") status)

module _ (show_status : ℕ → Text) where
  abbrev pub unexpected_status : ℕ → AuthError
  unexpected_status status =
      auth_dependency_down (text "unexpected profile api status: " ++ show_status status)

  -- What the body of a 200 says, once it is decoded.
  unfoldable pub validated : Result Text ValidateTokenResponse → Exec AuthError AuthenticatedUser
  validated (ok payload) = do call_succeeded profile_api; lift (into_authenticated_user payload)
  validated (err error) = do call_failed profile_api; raise (auth_dependency_down error)

  unfoldable pub token_reply : ProfileReply → Exec AuthError AuthenticatedUser
  unfolding validated
  token_reply (profile_lost error) = do
    call_failed profile_api
    record_profile_call (text "network_error")
    raise (auth_network_error error)
  token_reply (profile_status status body) = do
    record_profile_call (show_nat status)
    if nat_eqb status 200
        then validated body
        else if nat_eqb status 401
        then (do call_succeeded profile_api; raise invalid_token)
        else (do call_failed profile_api; raise (unexpected_status status))

  unfoldable pub availability_reply : ProfileReply → Exec AuthError Unit
  availability_reply (profile_lost error) = do
    call_failed profile_api
    record_profile_call (text "network_error")
    raise (auth_network_error error)
  availability_reply (profile_status status body) = do
    record_profile_call (show_nat status)
    if nat_eqb status 200
        then call_succeeded profile_api
        else if nat_eqb status 401
        then call_succeeded profile_api
        else (do call_failed profile_api; raise (unexpected_status status))

  -- A call that the breaker lets through, and the error of one that it does not.
  unfoldable pub when_allowed :
      {A : Type 0} → Result CircuitBreakerOpenError Unit → Exec AuthError A → Exec AuthError A
  when_allowed (ok x) call = call
  when_allowed (err error) call = do
    record_profile_call (text "circuit_open")
    raise (auth_dependency_down (show_open_error error))

  -- `base_url` is the configured address, whose slashes at the end `ProfileApiClient::new` drops.
  unfoldable pub validate_token : Text → Text → Exec AuthError AuthenticatedUser
  unfolding token_reply when_allowed
  validate_token base_url bearer_token = do
    allowed ← allow_call profile_api
    when_allowed allowed (do
      reply ←
          send_profile_request (trim_end_slashes base_url ++ text "/v1/auth/validate")
            (text "Bearer " ++ bearer_token)
      token_reply reply)

  unfoldable pub check_availability : Text → Exec AuthError Unit
  unfolding availability_reply when_allowed
  check_availability base_url = do
    allowed ← allow_call profile_api
    when_allowed allowed (do
      reply ←
          send_profile_request (trim_end_slashes base_url ++ text "/v1/auth/validate")
            (text "Bearer readiness-check-token")
      availability_reply reply)
