-- ===== src/Api/Routes/Refusals.antt =====
-- The responses to the requests that the API does not let in.
use enterprise_support_agent.Base.{
  ℕ, true, Option, none, some, ◌≡◌, ◌⊎◌, inl, inr, arith, ok, err, Result-cases, Option-cases,
}
use enterprise_support_agent.Base.Text.{Text}
use enterprise_support_agent.Domain.{Error, http_exception}
use enterprise_support_agent.Redis.Availability.{World}
use enterprise_support_agent.Redis.Keys.{is_segment, validated_segment, chat_rate_limit}
use enterprise_support_agent.Redis.RateLimiter.{
  ChatRateLimiter, parse_result, decide, fixed_window_script, eval_script, check,
}
use enterprise_support_agent.Redis.RateLimiter.Commands.{RedisCommands}
use enterprise_support_agent.Api.Errors.{ErrorResponse, handle}
use enterprise_support_agent.Api.Requests.{
  verify_internal_service_token, max_length, validate_not_blank, chat_request, Identity,
  identity_headers,
}
use enterprise_support_agent.Api.Requests.Segments.{strip-segment}
use enterprise_support_agent.Api.Routes.{App, AppState, Headers, check_rate_limit, admit}

-- FastAPI answers with the exception's status, or there is a handler.
abbrev pub IsAnswered : Error → Type 0
IsAnswered e =
    ((status : ℕ) × (e ≡ http_exception status)) ⊎ ((r : ErrorResponse) × (handle e ≡ some r))

verify_internal_service_token-IsAnswered :
    (expected provided : Option Text) (e : Error)
    → verify_internal_service_token expected provided ≡ err e
    → IsAnswered e
unfolding verify_internal_service_token
verify_internal_service_token-IsAnswered none provided e h = inl (503, ground arith)
verify_internal_service_token-IsAnswered (some token) none e h = inl (401, ground arith)
verify_internal_service_token-IsAnswered (some token) (some t) e h = inl (401, ground arith)

chat_request-IsAnswered :
    (thread_id message : Option Text) (e : Error)
    → chat_request thread_id message ≡ err e
    → IsAnswered e
unfolding chat_request max_length validate_not_blank
chat_request-IsAnswered thread_id message e h = inl (422, ground arith)

chat_rate_limit-ok :
    (limiter : ChatRateLimiter) (tenant_id user_id : Text)
    → is_segment tenant_id ≡ true
    → is_segment user_id ≡ true
    → (key : Text) × (chat_rate_limit limiter.key_builder tenant_id user_id ≡ ok key)
unfolding chat_rate_limit validated_segment
chat_rate_limit-ok limiter tenant_id user_id tenant user =
    elim (Result-cases (chat_rate_limit limiter.key_builder tenant_id user_id)) [
      | inl (key, h) ↦ (key, h)
      | inr (e, h) ↦
          absurd (ground (arith, strip-segment tenant_id tenant, strip-segment user_id user))
    ]

check-IsAnswered :
    (R : RedisCommands) (limiter : ChatRateLimiter) (tenant_id user_id : Text) (w : World R.Store)
    (e : Error)
    → is_segment tenant_id ≡ true
    → is_segment user_id ≡ true
    → (check R limiter tenant_id user_id w).0 ≡ err e
    → IsAnswered e
unfolding check eval_script fixed_window_script parse_result decide handle
check-IsAnswered R limiter tenant_id user_id w e tenant user h =
    let (key, named) = chat_rate_limit-ok limiter tenant_id user_id tenant user in
    elim (Option-cases (handle e)) [
      | inr handled ↦ inr handled
      | inl unhandled ↦ absurd (ground arith)
    ]

module _ {R : RedisCommands} {W : Type 0} where
  check_rate_limit-IsAnswered :
      (limiter : Option ChatRateLimiter) (identity : Identity) (s : AppState R W) (e : Error)
      → is_segment identity.tenant_id ≡ true
      → is_segment identity.user_id ≡ true
      → (check_rate_limit limiter identity s).0 ≡ err e
      → IsAnswered e
  unfolding check_rate_limit
  check_rate_limit-IsAnswered none identity s e tenant user h = cc
  check_rate_limit-IsAnswered (some limiter) identity s e tenant user h =
      check-IsAnswered R limiter identity.tenant_id identity.user_id s.redis e tenant user
        (ground arith)

  -- Where the headers name a tenant and a user that are segments of a Redis key, no request that is
  -- not let in ends in an exception without a response: the exception is an `HTTPException`, or it
  -- has a handler.
  pub admit-IsAnswered :
      (app : App R W) (headers : Headers) (thread_id message : Option Text) (s : AppState R W)
      (identity : Identity) (e : Error)
      → identity_headers headers.tenant_id headers.user_id ≡ ok identity
      → is_segment identity.tenant_id ≡ true
      → is_segment identity.user_id ≡ true
      → (admit app headers thread_id message s).0 ≡ err e
      → IsAnswered e
  unfolding admit
  admit-IsAnswered app headers thread_id message s identity e named tenant user h =
      elim (Result-cases (verify_internal_service_token app.internal_service_token headers.token)) [
        | inr (e', refused) ↦
            verify_internal_service_token-IsAnswered app.internal_service_token headers.token e
              (ground arith)
        | inl (_, accepted) ↦ elim (Result-cases (chat_request thread_id message)) [
          | inr (e', refused) ↦ chat_request-IsAnswered thread_id message e (ground arith)
          | inl (request, valid) ↦
              check_rate_limit-IsAnswered app.rate_limiter identity s e tenant user (ground arith)
        ]
      ]
