-- ===== src/Integrations/Calls.antt =====
-- One call through a circuit breaker, as both clients make it: the breaker of the service in the
-- world, the request, and the outcome that is recorded.
use likes_service.Common.{
  ◌≡◌, ◌⊎◌, inl, inr, sym, ap, ℕ, List, [], ◌∷◌, ◌++◌, Text, text, none, some, if◌then◌else◌,
  nat_eqb,
}
use likes_service.Common.Decimal.{show_nat}
use likes_service.Common.Results.{Result, ok}
use likes_service.CircuitBreaker.{
  CircuitBreaker, CircuitBreakerOpenError, allow_request, record_success, record_failure,
}
use likes_service.Effects.{
  World, Exec, ContentReply, content_lost, ProfileReply, profile_lost, pure, gets, modify, ◌>>=◌,
  ◌>>◌, read_clock,
}

pub data Dependency : Type 0 where
  content_api profile_api : Dependency

abbrev pub breaker : Dependency → World → CircuitBreaker
breaker content_api w = w.content_breaker
breaker profile_api w = w.profile_breaker

abbrev pub put_breaker : Dependency → CircuitBreaker → World → World
put_breaker content_api b w = record w { content_breaker = b }
put_breaker profile_api b w = record w { profile_breaker = b }

-- impl Display for CircuitBreakerOpenError
unfoldable pub show_open_error : CircuitBreakerOpenError → Text
show_open_error e =
    e.service_name
    ++ text " circuit breaker is open for "
    ++ show_nat e.remaining_open_seconds
    ++ text " more seconds"

module _ {E : Type 0} (dependency : Dependency) where
  -- self.circuit_breaker.allow_request()
  unfoldable pub allow_call : Exec E (Result CircuitBreakerOpenError Unit)
  allow_call = do
    now ← read_clock
    b ← gets (breaker dependency)
    let r = allow_request b now
    modify (put_breaker dependency r.0)
    pure r.1

  -- self.circuit_breaker.record_success() and record_failure()
  unfoldable pub call_succeeded : Exec E Unit
  call_succeeded = do
    pruned_at ← read_clock
    pushed_at ← read_clock
    opened_at ← read_clock
    modify (λ w.
        put_breaker dependency (record_success (breaker dependency w) pruned_at pushed_at opened_at)
          w)

  unfoldable pub call_failed : Exec E Unit
  call_failed = do
    pruned_at ← read_clock
    pushed_at ← read_clock
    opened_at ← read_clock
    modify (λ w.
        put_breaker dependency (record_failure (breaker dependency w) pruned_at pushed_at opened_at)
          w)

abbrev pub no_response : Text
no_response = text "no response"

content_reply_of : List ContentReply → ContentReply × List ContentReply
content_reply_of [] = (content_lost no_response, [])
content_reply_of (r ∷ rs) = (r, rs)

profile_reply_of : List ProfileReply → ProfileReply × List ProfileReply
profile_reply_of [] = (profile_lost no_response, [])
profile_reply_of (r ∷ rs) = (r, rs)

module _ {E : Type 0} where
  -- self.http_client.get(url).send()
  unfoldable pub send_content_request : Text → Exec E ContentReply
  unfolding content_reply_of
  send_content_request url w =
      let (r, rs) = content_reply_of w.content_replies in
      (
        ok r,
        record w {
          content_replies = rs;
          requests = record { url = url; authorization = none } ∷ w.requests;
        },
      )

  unfoldable pub send_profile_request : Text → Text → Exec E ProfileReply
  unfolding profile_reply_of
  send_profile_request url authorization w =
      let (r, rs) = profile_reply_of w.profile_replies in
      (
        ok r,
        record w {
          profile_replies = rs;
          requests = record { url = url; authorization = some authorization } ∷ w.requests;
        },
      )

first_reply :
    (rs : List ProfileReply) (r : ProfileReply)
    → (profile_reply_of rs).0 ≡ r
    → (r ≡ profile_lost no_response) ⊎ ((rest : List ProfileReply) × (rs ≡ r ∷ rest))
unfolding profile_reply_of
first_reply [] r h = inl (sym h)
first_reply (q ∷ rs) r h = inr (rs, ap (λ x. x ∷ rs) h)

-- The reply to a request is the first of those to come, or none came.
pub send_profile_request-reply :
    {E : Type 0} (url authorization : Text) (w : World) (r : ProfileReply)
    → (send_profile_request {E = E} url authorization w).0 ≡ ok r
    → (r ≡ profile_lost no_response) ⊎ ((rest : List ProfileReply) × (w.profile_replies ≡ r ∷ rest))
unfolding send_profile_request profile_reply_of
send_profile_request-reply url authorization w r h = first_reply w.profile_replies r (cc)

trim_slash : ℕ → Text → Text
trim_slash c [] = if nat_eqb c b'/' then [] else c ∷ []
trim_slash c (d ∷ s) = c ∷ d ∷ s

-- s.trim_end_matches('/')
unfoldable pub trim_end_slashes : Text → Text
unfolding trim_slash
trim_end_slashes [] = []
trim_end_slashes (c ∷ s) = trim_slash c (trim_end_slashes s)
