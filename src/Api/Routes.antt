-- ===== src/Api/Routes.antt =====
-- The endpoints of agent-service/src/agent_service/api/routes/chat.py. What `app.state` holds is
-- split: the services are `App`, and what they keep is `AppState`.
pub mod Access
pub mod Refusals
pub mod NewThreads
use enterprise_support_agent.Base.{ℕ, Bool, Option, none, some, List, Result, ok, err}
use enterprise_support_agent.Base.Text.{Text, strip}
use enterprise_support_agent.Domain.{Error, AgentReply, AgentResult, reply, http_exception}
use enterprise_support_agent.Exec.{Exec, pure, raise, lift, continue, ◌>>=◌}
use enterprise_support_agent.Redis.Availability.{World}
use enterprise_support_agent.Redis.RateLimiter.{RateLimitDecision, ChatRateLimiter, check}
use enterprise_support_agent.Redis.RateLimiter.Commands.{RedisCommands}
use enterprise_support_agent.Service.Threads.{Table, create_thread as service_create_thread}
use enterprise_support_agent.Service.Stream.{AgentStreamEvent, Yielded}
use enterprise_support_agent.Service.Agent.{
  CompiledGraph, chat as service_chat, chat_stream as service_chat_stream, resume_refund,
}
use enterprise_support_agent.Api.Events.{
  StreamData, result_event_of, encode_agent_event_stream, result_data,
}
use enterprise_support_agent.Api.Requests.{
  verify_internal_service_token, get_service, idempotency_header, ChatRequest, chat_request,
  Identity, identity_headers, required,
}

-- `parse_uuid` is `str(UUID(text))`.
pub record App (R : RedisCommands) (W : Type 0) : Type 0 where
  pub internal_service_token : Option Text
  pub parse_uuid : Text → Option Text
  pub rate_limiter : Option ChatRateLimiter
  pub graph : CompiledGraph W

-- What Redis holds, the table behind the thread service, if there is one, and what the graph
-- changes.
pub record AppState (R : RedisCommands) (W : Type 0) : Type 0 where
  pub redis : World R.Store
  pub threads : Option Table
  pub world : W

-- The headers of a call; a missing header is `none`.
pub record Headers : Type 0 where
  pub token : Option Text
  pub tenant_id : Option Text
  pub user_id : Option Text

-- A response with its rate limit headers.
pub record Response {ℓ} (A : Type ℓ) : Type ℓ where
  pub rate_limit : Option RateLimitDecision
  pub content : A

pub record Admission : Type 0 where
  pub identity : Identity
  pub request : ChatRequest
  pub rate_limit : Option RateLimitDecision

module _ {R : RedisCommands} {W : Type 0} where
  abbrev in_redis {ℓ} : {A : Type ℓ} → Exec (World R.Store) A → Exec (AppState R W) A
  in_redis m s = let (r, w) = m s.redis in (r, record s { redis = w })

  abbrev in_world {ℓ} : {A : Type ℓ} → Exec W A → Exec (AppState R W) A
  in_world m s = let (r, w) = m s.world in (r, record s { world = w })

  -- A call of the service, which asks the thread service of the same state.
  abbrev with_threads {ℓ} : {A : Type ℓ} → (Option Table → Exec W A) → Exec (AppState R W) A
  with_threads f s = in_world (f s.threads) s

  abbrev in_threads {ℓ} : {A : Type ℓ} → Exec Table A → Table → Exec (AppState R W) A
  in_threads m rows s = let (r, rows') = m rows in (r, record s { threads = some rows' })

  -- `if rate_limiter is not None`
  unfoldable pub check_rate_limit :
      Option ChatRateLimiter → Identity → Exec (AppState R W) (Option RateLimitDecision)
  check_rate_limit none identity = pure none
  check_rate_limit (some limiter) identity = do
    decision ← in_redis (check R limiter identity.tenant_id identity.user_id)
    pure (some decision)

  module _ (app : App R W) (headers : Headers) where
    -- `POST /threads`, with the two values of `uuid4`.
    unfoldable pub create_thread : Text → Text → Exec (AppState R W) Text
    create_thread new_id new_key = do
      _ ← lift (verify_internal_service_token app.internal_service_token headers.token)
      rows ← (λ s. (get_service s.threads, s))
      identity ← lift (identity_headers headers.tenant_id headers.user_id)
      in_threads (service_create_thread new_id new_key identity.tenant_id identity.user_id) rows

    -- What `chat` and `stream_chat` do before they call the service.
    unfoldable pub admit : Option Text → Option Text → Exec (AppState R W) Admission
    admit thread_id message = do
      _ ← lift (verify_internal_service_token app.internal_service_token headers.token)
      identity ← lift (identity_headers headers.tenant_id headers.user_id)
      request ← lift (chat_request thread_id message)
      decision ← check_rate_limit app.rate_limiter identity
      pure (record { identity = identity; request = request; rate_limit = decision })

    -- `POST /chat`
    unfoldable pub chat : Option Text → Option Text → Exec (AppState R W) (Response StreamData)
    chat thread_id message = do
      a ← admit thread_id message
      result ← with_threads (λ threads.
          service_chat app.graph app.parse_uuid threads a.identity.tenant_id a.identity.user_id
            a.request.thread_id a.request.message)
      pure (record {
        rate_limit = a.rate_limit;
        content = result_event_of a.request.thread_id result;
      })

    -- `POST /chat/stream`
    unfoldable pub stream_chat :
        Option Text → Option Text → Exec (AppState R W) (Response (List StreamData))
    stream_chat thread_id message = do
      a ← admit thread_id message
      events ← with_threads (λ threads.
          service_chat_stream app.graph app.parse_uuid threads a.identity.tenant_id
            a.identity.user_id a.request.thread_id a.request.message)
      pure (record {
        rate_limit = a.rate_limit;
        content = encode_agent_event_stream a.request.thread_id events.0 events.1;
      })

    -- `POST /threads/{thread_id}/resume`, with the field "approved" of the body.
    unfoldable pub resume_thread : Text → Option Text → Option Bool → Exec (AppState R W) StreamData
    resume_thread thread_id idempotency_key approved = do
      _ ← lift (verify_internal_service_token app.internal_service_token headers.token)
      identity ← lift (identity_headers headers.tenant_id headers.user_id)
      key ← lift (idempotency_header idempotency_key)
      decision ← lift (required approved)
      r ← with_threads (λ threads.
          resume_refund app.graph app.parse_uuid threads identity.tenant_id identity.user_id
            thread_id decision (strip key))
      pure (result_data thread_id r)
