-- ===== src/Api/Routes/Access.antt =====
-- Who reaches the graph through the API.
use enterprise_support_agent.Base.{
  Bool, Option, none, some, ◌≡◌, ◌≢◌, inl, inr, refl, arith, ok, err, Result-cases, Option-cases,
  Bool-cases, ap,
}
use enterprise_support_agent.Base.Text.{Text, text_eq, text_eq_iff}
use enterprise_support_agent.Domain.{Error, http_exception}
use enterprise_support_agent.Exec.{Exec}
use enterprise_support_agent.Rag.Ingestion.{IngestionResult}
use enterprise_support_agent.Graph.State.{AgentContext}
use enterprise_support_agent.Redis.RateLimiter.{ChatRateLimiter}
use enterprise_support_agent.Redis.RateLimiter.Commands.{RedisCommands}
use enterprise_support_agent.Service.Agent.{
  checkpoint_key, chat as service_chat, chat_stream as service_chat_stream,
}
use enterprise_support_agent.Service.Agent.Requests.{resume_effect, IsPending, resume_context}
use enterprise_support_agent.Api.Requests.{
  verify_internal_service_token, idempotency_header, chat_request, Identity, identity_headers,
}
use enterprise_support_agent.Api.Requests.Segments.{idempotency_header-strip}
use enterprise_support_agent.Api.Knowledge.{reindex_knowledge}
use enterprise_support_agent.Api.Routes.{
  App, AppState, Headers, Admission, check_rate_limit, create_thread, admit, chat, stream_chat,
  resume_thread,
}

-- The call has the service token that the settings have.
abbrev pub HasToken : Option Text → Option Text → Type 0
HasToken expected_token provided_token =
    (token : Text) × (expected_token ≡ some token) × (provided_token ≡ some token)

-- The exception of a call without it: 401, or 503 where the settings have none.
abbrev refusal : Option Text → Error
refusal none = http_exception 503
refusal (some token) = http_exception 401

verify-HasToken :
    (expected_token provided_token : Option Text)
    → ¬ HasToken expected_token provided_token
    → verify_internal_service_token expected_token provided_token ≡ err (refusal expected_token)
unfolding verify_internal_service_token
verify-HasToken none provided h = refl
verify-HasToken (some expected) none h = refl
verify-HasToken (some expected) (some provided) h = elim (Bool-cases (text_eq provided expected)) [
  | inl same ↦ absurd (h (expected, refl, ap some ((text_eq_iff provided expected).0 same)))
  | inr other ↦ ground arith
]

module _ {R : RedisCommands} {W : Type 0} (app : App R W) (headers : Headers) where
  -- A call of an endpoint that changes something, whose token is missing or is not the one of the
  -- settings, is refused with 401, or with 503 where the settings have no token, and changes
  -- nothing.
  pub unauthorized :
      {V : Type 0} (new_id new_key thread_id : Text) (field message key tenant : Option Text)
      (approved : Option Bool) (s : AppState R W) (service : Option (Text → Exec V IngestionResult))
      (v : V)
      → ¬ HasToken app.internal_service_token headers.token
      → let e = refusal app.internal_service_token in
        (create_thread app headers new_id new_key s ≡ (err e, s))
        × (chat app headers field message s ≡ (err e, s))
        × (stream_chat app headers field message s ≡ (err e, s))
        × (resume_thread app headers thread_id key approved s ≡ (err e, s))
        × (reindex_knowledge app.internal_service_token service headers.token tenant v ≡ (err e, v))
  unfolding create_thread chat stream_chat resume_thread admit reindex_knowledge
  unauthorized new_id new_key thread_id field message key tenant approved s service v h =
      let refused = verify-HasToken app.internal_service_token headers.token h in
      (rw refused, rw refused, rw refused, rw refused, rw refused)

  -- The request was let in: the token is right, the headers name `identity`, the body is `request`
  -- and the rate limiter, if there is one, admitted the identity.
  abbrev pub IsAdmitted : Option Text → Option Text → AppState R W → Admission → Type 0
  IsAdmitted field message s a =
      (verify_internal_service_token app.internal_service_token headers.token ≡ ok tt)
      × (identity_headers headers.tenant_id headers.user_id ≡ ok a.identity)
      × (chat_request field message ≡ ok a.request)
      × ((check_rate_limit app.rate_limiter a.identity s).0 ≡ ok a.rate_limit)

  -- `m` changed neither the graph's state nor the threads.
  abbrev IsKept {ℓ} : {A : Type ℓ} → A × AppState R W → AppState R W → Type 0
  IsKept r s = (r.1.world ≡ s.world) × (r.1.threads ≡ s.threads)

  check_rate_limit-IsKept :
      (limiter : Option ChatRateLimiter) (identity : Identity) (s : AppState R W)
      → IsKept (check_rate_limit limiter identity s) s
  unfolding check_rate_limit
  check_rate_limit-IsKept none identity s = (refl, refl)
  check_rate_limit-IsKept (some limiter) identity s = ground arith

  pub admit-IsKept :
      (field message : Option Text) (s : AppState R W)
      → IsKept (admit app headers field message s) s
  unfolding admit
  admit-IsKept field message s =
      elim (Result-cases (identity_headers headers.tenant_id headers.user_id)) [
        | inl (identity, named) ↦
            ground (arith, check_rate_limit-IsKept app.rate_limiter identity s)
        | inr (e, refused) ↦ ground arith
      ]

  pub admit-IsAdmitted :
      (field message : Option Text) (s : AppState R W) (a : Admission)
      → (admit app headers field message s).0 ≡ ok a
      → IsAdmitted field message s a
  unfolding admit
  admit-IsAdmitted field message s a h = ground arith

  abbrev pub message_context : Admission → AgentContext
  message_context a = record {
    tenant_id = a.identity.tenant_id;
    user_id = a.identity.user_id;
    idempotency_key = none;
  }

  -- The thread of the request belongs to the tenant and the user of the headers; `key` is its key.
  abbrev pub IsOwnThread : AppState R W → Admission → Text → Type 0
  IsOwnThread s a key =
      checkpoint_key app.graph app.parse_uuid s.threads a.request.thread_id a.identity.tenant_id
        a.identity.user_id
      ≡ ok key

  -- The request was let in and its thread is the user's own; `after` is the state that `act` gives
  -- for the thread's checkpoint, in the context of the headers' identity.
  abbrev pub IsAdmittedTo {ℓ} :
      {A : Type ℓ}
      → (Text → AgentContext → Text → W → A × W)
      → Option Text
      → Option Text
      → AppState R W
      → W
      → Type 0
  IsAdmittedTo act field message s after =
      (a : Admission) × (key : Text) × IsAdmitted field message s a
      × IsOwnThread s a key
      × (after ≡ (act key (message_context a) a.request.message s.world).1)

  -- A message changes the graph's state only if the request was let in and its thread belongs to
  -- the tenant and the user of the headers; and then it does what the graph does on the message.
  pub chat-IsAdmitted :
      (field message : Option Text) (s : AppState R W)
      → (chat app headers field message s).1.world ≢ s.world
      → IsAdmittedTo app.graph.invoke field message s (chat app headers field message s).1.world
  unfolding chat service_chat
  chat-IsAdmitted field message s changed =
      elim (Result-cases (admit app headers field message s).0) [
        | inr (e, refused) ↦ absurd (ground (arith, admit-IsKept field message s))
        | inl (a, admitted) ↦
            elim (Result-cases (
              checkpoint_key app.graph app.parse_uuid s.threads a.request.thread_id
                a.identity.tenant_id a.identity.user_id)) [
                  | inr (e, refused) ↦ absurd (ground (arith, admit-IsKept field message s))
                  | inl (key, resolved) ↦ (
                    a,
                    key,
                    admit-IsAdmitted field message s a admitted,
                    resolved,
                    ground (arith, admit-IsKept field message s),
                  )
                ]
      ]

  -- A streamed message, likewise.
  pub stream_chat-IsAdmitted :
      (field message : Option Text) (s : AppState R W)
      → (stream_chat app headers field message s).1.world ≢ s.world
      → IsAdmittedTo app.graph.stream field message s
          (stream_chat app headers field message s).1.world
  unfolding stream_chat service_chat_stream
  stream_chat-IsAdmitted field message s changed =
      elim (Result-cases (admit app headers field message s).0) [
        | inr (e, refused) ↦ absurd (ground (arith, admit-IsKept field message s))
        | inl (a, admitted) ↦
            elim (Result-cases (
              checkpoint_key app.graph app.parse_uuid s.threads a.request.thread_id
                a.identity.tenant_id a.identity.user_id)) [
                  | inr (e, refused) ↦ absurd (ground (arith, admit-IsKept field message s))
                  | inl (key, resolved) ↦ (
                    a,
                    key,
                    admit-IsAdmitted field message s a admitted,
                    resolved,
                    ground (arith, admit-IsKept field message s),
                  )
                ]
      ]

  -- A resume was let in, with the idempotency key `key` and the decision `decision`.
  abbrev pub IsResume : Option Text → Option Bool → Identity → Text → Bool → Type 0
  IsResume field approved identity key decision =
      (verify_internal_service_token app.internal_service_token headers.token ≡ ok tt)
      × (identity_headers headers.tenant_id headers.user_id ≡ ok identity)
      × (idempotency_header field ≡ ok key)
      × (approved ≡ some decision)

  -- The resume was let in, its thread is the user's own and has exactly one approval, a valid one,
  -- pending; `after` is the state that the graph gives on the decision.
  abbrev pub IsResumed : Text → Option Text → Option Bool → AppState R W → W → Type 0
  IsResumed thread_id field approved s after =
      (identity : Identity) × (key : Text) × (decision : Bool) × (checkpoint : Text) × IsResume
        field approved identity key decision
      × (checkpoint_key app.graph app.parse_uuid s.threads thread_id identity.tenant_id
            identity.user_id
          ≡ ok checkpoint)
      × IsPending app.graph app.parse_uuid s.threads identity.tenant_id identity.user_id thread_id
          (app.graph.interrupts checkpoint s.world)
      × (after
          ≡ (app.graph.resume checkpoint
              (resume_context app.graph app.parse_uuid s.threads identity.tenant_id identity.user_id
                thread_id key)
              decision s.world).1)

  -- A resume changes the graph's state only if the token is right, the headers name a tenant and a
  -- user whose own thread it is, the idempotency key and the decision are valid and exactly one
  -- approval is pending; and then it does what the graph does on the decision, under this key.
  pub resume_thread-IsResume :
      (thread_id : Text) (field : Option Text) (approved : Option Bool) (s : AppState R W)
      → (resume_thread app headers thread_id field approved s).1.world ≢ s.world
      → IsResumed thread_id field approved s
          (resume_thread app headers thread_id field approved s).1.world
  unfolding resume_thread
  resume_thread-IsResume thread_id field approved s changed =
      elim (Result-cases (identity_headers headers.tenant_id headers.user_id)) [
        | inr (e, refused) ↦ absurd (ground arith)
        | inl (identity, named) ↦ elim (Result-cases (idempotency_header field)) [
          | inr (e, refused) ↦ absurd (ground arith)
          | inl (key, keyed) ↦ elim (Option-cases approved) [
            | inl missing ↦ absurd (ground arith)
            | inr (decision, given) ↦
                let (checkpoint, resolved, pending, done) =
                  resume_effect app.graph app.parse_uuid s.threads identity.tenant_id
                    identity.user_id thread_id decision key s.world
                    (ground (arith, idempotency_header-strip field key keyed)) in
                (
                  identity,
                  key,
                  decision,
                  checkpoint,
                  (ground arith, named, keyed, given),
                  resolved,
                  pending,
                  ground (arith, idempotency_header-strip field key keyed),
                )
          ]
        ]
      ]
