-- ===== src/Auth/Tests.antt =====
-- Tokens at concrete inputs.
use likes_service.Common.{
  ℕ, ◌≡◌, ◌≢◌, ◌↔◌, refl, true, [], ◌∷◌, ◌++◌, Text, text, List, trim, strip_prefix,
}
use likes_service.Common.Results.{ok}
use likes_service.Effects.{
  World, ProfileReply, profile_status, ◌>>=◌, read_clock, convert, record_metric,
}
use likes_service.Effects.Examples.{quiet_world}
use likes_service.CircuitBreaker.{allow_request, record_success}
use likes_service.Integrations.Calls.{allow_call, call_succeeded, send_profile_request}
use likes_service.Integrations.ProfileApi.{
  AuthenticatedUser, validate_token, token_reply, validated, when_allowed, into_authenticated_user,
}
use likes_service.Auth.{header, authenticate_headers, extract_bearer_token}
use likes_service.Auth.Tokens.{Vouches, extract_bearer_token_iff, authenticate_headers-vouched}

abbrev alice : AuthenticatedUser
alice = record { user_id = text "usr_a"; display_name = text "Alice" }

abbrev answering : World
answering = record quiet_world {
  profile_replies =
      profile_status 200
        (ok (record { valid = true; user_id = text "usr_a"; display_name = text "Alice" }))
      ∷ [];
}

abbrev no_status : ℕ → Text
no_status n = text "status"

lets_in : (validate_token no_status (text "http://profile") (text "t") answering).0 ≡ ok alice
unfolding validate_token token_reply validated when_allowed into_authenticated_user allow_call
    call_succeeded send_profile_request read_clock ◌>>=◌ allow_request record_success record_metric
    text
lets_in = refl

authenticates :
    (authenticate_headers no_status (text "http://profile") (header (text "Bearer t")) answering).0
    ≡ ok alice
unfolding authenticate_headers extract_bearer_token validate_token token_reply validated
    when_allowed into_authenticated_user allow_call call_succeeded send_profile_request read_clock
    ◌>>=◌ allow_request record_success record_metric convert text strip_prefix trim
authenticates = refl

extract_bearer_token_iff_example :
    (extract_bearer_token (header (text "Bearer t")) ≡ ok (text "t"))
    ↔ ((header (text "Bearer t") ≡ header (text "Bearer " ++ text "t")) × (trim (text "t") ≢ []))
extract_bearer_token_iff_example = extract_bearer_token_iff (header (text "Bearer t")) (text "t")

authenticate_headers-vouched_example :
    (token : Text) × (header (text "Bearer t") ≡ header (text "Bearer " ++ token))
    × (trim token ≢ [])
    × ((reply : ProfileReply) × (rs : List ProfileReply) × (answering.profile_replies ≡ reply ∷ rs)
        × Vouches alice reply)
authenticate_headers-vouched_example =
    authenticate_headers-vouched no_status alice (text "http://profile") (header (text "Bearer t"))
      answering authenticates
