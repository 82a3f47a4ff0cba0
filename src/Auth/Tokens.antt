-- ===== src/Auth/Tokens.antt =====
-- Who is let in: the header, and what the profile API said.
use likes_service.Common.{
  ℕ, ◌≡◌, ◌≢◌, ◌↔◌, refl, sym, ap, subst, ◌∙◌, true, List, [], ◌∷◌, ◌++◌, Text, text, Option, none,
  some, strip_prefix, strip_prefix-append, trim, nat_eqb, nat_eqb_iff, if◌then◌else◌, arith,
  Bool-cases, inl, inr,
}
use likes_service.Common.Results.{Result, ok, err, map_err}
use likes_service.CircuitBreaker.{CircuitBreakerOpenError}
use likes_service.Error.{AuthError, invalid_token}
use likes_service.Effects.{
  World, Exec, ValidateTokenResponse, ProfileReply, profile_lost, profile_status, ◌>>=◌, convert,
  read_clock, record_metric, lift, gets, modify, pure, raise, ◌>>◌,
}
use likes_service.Effects.Success.{bind-ok, if-ok, fails, fails_after, after_reading-replies}
use likes_service.Integrations.Calls.{
  profile_api, allow_call, call_succeeded, call_failed, send_profile_request,
  send_profile_request-reply, no_response,
}
use likes_service.Integrations.ProfileApi.{
  AuthenticatedUser, into_authenticated_user, validated, token_reply, when_allowed, validate_token,
  unexpected_status,
}
use likes_service.Auth.{
  Authorization, header, missing, not_text, extract_bearer_token, bearer_of, unless_blank,
  authenticate_headers, auth_app_error,
}

strip_prefix_iff : (p s t : Text) → strip_prefix p s ≡ some t → s ≡ p ++ t
unfolding strip_prefix
strip_prefix_iff [] s t h = cc
strip_prefix_iff (c ∷ p) [] t h = absurd (cc)
strip_prefix_iff (c ∷ p) (d ∷ s) t h = ground (arith, strip_prefix_iff p s t)

unless_blank-ok : (token s t : Text) → unless_blank token s ≡ ok t → (t ≡ token) × (s ≢ [])
unfolding unless_blank
unless_blank-ok token [] t h = absurd (cc)
unless_blank-ok token (c ∷ s) t h = (cc, λ e. cc)

bearer_of-ok : (o : Option Text) (t : Text) → bearer_of o ≡ ok t → (o ≡ some t) × (trim t ≢ [])
unfolding bearer_of
bearer_of-ok none t h = absurd (cc)
bearer_of-ok (some token) t h =
    let (e, blank) = unless_blank-ok token (trim token) t h in
    (ap some (sym e), λ z. blank (ap trim (sym e) ∙ z))

unless_blank-some : (token s : Text) → s ≢ [] → unless_blank token s ≡ ok token
unfolding unless_blank
unless_blank-some token [] h = absurd (h refl)
unless_blank-some token (c ∷ s) h = refl

token-taken :
    (h : Authorization) (t : Text)
    → extract_bearer_token h ≡ ok t
    → (h ≡ header (text "Bearer " ++ t)) × (trim t ≢ [])
unfolding extract_bearer_token
token-taken missing t e = absurd (cc)
token-taken not_text t e = absurd (cc)
token-taken (header value) t e =
    let (p, b) = bearer_of-ok (strip_prefix (text "Bearer ") value) t e in
    (ap header (strip_prefix_iff (text "Bearer ") value t p), b)

token-given : (t : Text) → trim t ≢ [] → extract_bearer_token (header (text "Bearer " ++ t)) ≡ ok t
unfolding extract_bearer_token bearer_of
token-given t b = rw (strip_prefix-append (text "Bearer ") t) (unless_blank-some t (trim t) b)

-- A token is taken from exactly the headers that are `Bearer `, with one space and these capitals,
-- and the token behind it, provided that the token is not only white space. It is not trimmed.
pub extract_bearer_token_iff :
    (h : Authorization) (t : Text)
    → (extract_bearer_token h ≡ ok t) ↔ ((h ≡ header (text "Bearer " ++ t)) × (trim t ≢ []))
extract_bearer_token_iff h t = (token-taken h t, λ (e, b). rw e (token-given t b))

-- The answer that lets a user in.
pub data Vouches (user : AuthenticatedUser) : ProfileReply → Type 0 where
  vouched :
      (p : ValidateTokenResponse)
      → p.valid ≡ true
      → user ≡ record { user_id = p.user_id; display_name = p.display_name }
      → Vouches user (profile_status 200 (ok p))

no-Vouches : (user : AuthenticatedUser) (e : Text) → Vouches user (profile_lost e) → ⊥
no-Vouches user e v = elim v [ ]

into_authenticated_user-ok :
    (p : ValidateTokenResponse) (user : AuthenticatedUser)
    → into_authenticated_user p ≡ ok user
    → Vouches user (profile_status 200 (ok p))
unfolding into_authenticated_user
into_authenticated_user-ok p user h = elim (Bool-cases p.valid) [
  | inl e ↦ vouched p e (ground arith)
  | inr e ↦ absurd (ground arith)
]

module _ (show_status : ℕ → Text) (user : AuthenticatedUser) where
  validated-ok :
      (body : Result Text ValidateTokenResponse) (w : World)
      → (validated show_status body w).0 ≡ ok user
      → Vouches user (profile_status 200 body)
  unfolding validated into_authenticated_user lift
  validated-ok (ok p) w h =
      into_authenticated_user-ok p user (bind-ok (call_succeeded profile_api) _ w user h).2
  validated-ok (err e) w h = absurd (fails_after _ _ w user h)

  by_status :
      (status : ℕ) (body : Result Text ValidateTokenResponse) (w : World)
      → ((if nat_eqb status 200
            then validated show_status body
            else if nat_eqb status 401
            then (do call_succeeded profile_api; raise invalid_token)
            else (do call_failed profile_api; raise (unexpected_status show_status status)))
          w).0
        ≡ ok user
      → Vouches user (profile_status status body)
  by_status status body w h = elim (if-ok (nat_eqb status 200) _ _ w user h) [
    | inl (e, good) ↦
        subst (λ s. Vouches user (profile_status s body)) (sym ((nat_eqb_iff status 200).0 e))
          (validated-ok body w good)
    | inr (e, rest) ↦ elim (if-ok (nat_eqb status 401) _ _ w user rest) [
      | inl (_, denied) ↦ absurd (fails_after _ _ w user denied)
      | inr (_, down) ↦ absurd (fails_after _ _ w user down)
    ]
  ]

  token_reply-ok :
      (reply : ProfileReply) (w : World)
      → (token_reply show_status reply w).0 ≡ ok user
      → Vouches user reply
  unfolding token_reply
  token_reply-ok (profile_lost e) w h = absurd (fails _ _ _ w user h)
  token_reply-ok (profile_status status body) w h =
      let (_, _, rest) = bind-ok (record_metric _) _ w user h in by_status status body _ rest

  when_allowed-ok :
      (allowed : Result CircuitBreakerOpenError Unit) (call : Exec AuthError AuthenticatedUser)
      (w : World)
      → (when_allowed show_status allowed call w).0 ≡ ok user
      → (allowed ≡ ok tt) × ((call w).0 ≡ ok user)
  unfolding when_allowed
  when_allowed-ok (ok x) call w h = (refl, h)
  when_allowed-ok (err e) call w h = absurd (fails_after _ _ w user h)

  allow_call-replies :
      (w : World) → (allow_call {E = AuthError} profile_api w).1.profile_replies ≡ w.profile_replies
  unfolding allow_call read_clock gets modify pure ◌>>=◌
  allow_call-replies w = (after_reading-replies w.elapses w).0

  send-reply :
      (url token : Text) (w : World) (reply : ProfileReply)
      → (send_profile_request {E = AuthError} url token w).0 ≡ ok reply
      → Vouches user reply
      → (rs : List ProfileReply) × (w.profile_replies ≡ reply ∷ rs)
  send-reply url token w reply h v = elim (send_profile_request-reply url token w reply h) [
    | inl lost ↦ absurd (no-Vouches user no_response (subst (Vouches user) lost v))
    | inr found ↦ found
  ]

  -- A token is accepted only if the breaker lets the call through and the profile API answers it with
  -- 200 and a body that says `valid`; the user is the one of that body.
  pub validate_token-vouched :
      (base_url token : Text) (w : World)
      → (validate_token show_status base_url token w).0 ≡ ok user
      → (reply : ProfileReply) × (rs : List ProfileReply) × (w.profile_replies ≡ reply ∷ rs)
        × Vouches user reply
        × ((allow_call {E = AuthError} profile_api w).0 ≡ ok (ok tt))
  unfolding validate_token
  validate_token-vouched base_url token w h =
      let (allowed, a, rest) = bind-ok (allow_call profile_api) _ w user h in
      let (b, called) = when_allowed-ok allowed _ _ rest in
      let (reply, sent, answered) = bind-ok (send_profile_request _ _) _ _ user called in
      let v = token_reply-ok reply _ answered in
      let (rs, e) = send-reply _ _ _ reply sent v in
      (reply, rs, sym (allow_call-replies w) ∙ e, v, a ∙ ap ok b)

  map_err-ok : {E F A : Type 0} (f : E → F) (r : Result E A) (a : A) → map_err f r ≡ ok a → r ≡ ok a
  map_err-ok f (ok b) a h = cc
  map_err-ok f (err e) a h = absurd (cc)

  -- Whoever is let in has sent a header `Bearer ` with a token that is not blank, and the profile
  -- API's next answer was 200 with a valid body, whose user it is.
  pub authenticate_headers-vouched :
      (base_url : Text) (h : Authorization) (w : World)
      → (authenticate_headers show_status base_url h w).0 ≡ ok user
      → (token : Text) × (h ≡ header (text "Bearer " ++ token))
        × (trim token ≢ [])
        × ((reply : ProfileReply) × (rs : List ProfileReply) × (w.profile_replies ≡ reply ∷ rs)
            × Vouches user reply)
  unfolding authenticate_headers lift convert
  authenticate_headers-vouched base_url h w e =
      let (token, taken, rest) = bind-ok (lift (extract_bearer_token h)) _ w user e in
      let (shape, filled) = (extract_bearer_token_iff h token).0 taken in
      let (reply, rs, first, v, _) =
        validate_token-vouched base_url token w (map_err-ok auth_app_error _ user rest) in
      (token, shape, filled, (reply, rs, first, v))
