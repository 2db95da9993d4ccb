-- ===== src/Api/Routes/NewThreads.antt =====
-- A thread that an endpoint created, in the endpoints that use it.
use enterprise_support_agent.Base.{some, ◌≡◌, inl, inr, arith, ok, Result-cases, Option-cases}
use enterprise_support_agent.Base.Text.{Text}
use enterprise_support_agent.Redis.RateLimiter.Commands.{RedisCommands}
use enterprise_support_agent.Service.Threads.Ownership.{resolve-create_thread}
use enterprise_support_agent.Service.Agent.{checkpoint_key}
use enterprise_support_agent.Api.Requests.{get_service, Identity, identity_headers}
use enterprise_support_agent.Api.Routes.{App, AppState, Headers, create_thread}

-- `POST /threads` answers with a thread, under an id that `UUID` leaves as it is, that the other
-- endpoints resolve for the tenant and the user of the headers, to the new checkpoint key.
pub checkpoint_key-create_thread :
    {R : RedisCommands} {W : Type 0} (app : App R W) (headers : Headers) (new_id new_key id : Text)
    (s : AppState R W)
    → app.parse_uuid new_id ≡ some new_id
    → (create_thread app headers new_id new_key s).0 ≡ ok id
    → (identity : Identity) × (identity_headers headers.tenant_id headers.user_id ≡ ok identity)
      × (checkpoint_key app.graph app.parse_uuid
            (create_thread app headers new_id new_key s).1.threads
            id
            identity.tenant_id
            identity.user_id
          ≡ ok new_key)
unfolding create_thread checkpoint_key get_service
checkpoint_key-create_thread app headers new_id new_key id s parsed created =
    elim (Result-cases (identity_headers headers.tenant_id headers.user_id)) [
      | inr (e, refused) ↦ absurd (ground arith)
      | inl (identity, named) ↦ elim (Option-cases s.threads) [
        | inl missing ↦ absurd (ground arith)
        | inr (rows, present) ↦ (
          identity,
          named,
          ground (
            arith,
            resolve-create_thread app.parse_uuid new_id new_key identity.tenant_id identity.user_id
                rows id parsed,
          ),
        )
      ]
    ]
