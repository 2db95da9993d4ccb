-- ===== src/Service/Agent/Requests.antt =====
-- Which requests reach the graph.
use enterprise_support_agent.Base.{
  Bool, Option, some, List, [], ◌∷◌, ◌≡◌, ◌≢◌, arith, ok, err, length, Result-cases, inl, inr,
}
use enterprise_support_agent.Base.Text.{Text}
use enterprise_support_agent.Domain.{ApprovalRequest, Error, approval_not_pending_error}
use enterprise_support_agent.Graph.State.{AgentContext}
use enterprise_support_agent.Service.Reply.{validate_approval}
use enterprise_support_agent.Service.Threads.{Table}
use enterprise_support_agent.Service.Agent.{
  CompiledGraph, checkpoint_key, chat, chat_stream, resume_refund,
}

module _ {W : Type 0} (graph : CompiledGraph W) (parse_uuid : Text → Option Text)
    (threads : Option Table) (tenant_id user_id thread_id : Text) where
  -- A message, a streamed message and a resume for a thread that the user does not own, or without
  -- a thread service, raise the same exception and leave the graph as it was.
  pub requests_refused :
      (message : Text) (approved : Bool) (idempotency_key : Text) (w : W) (e : Error)
      → checkpoint_key graph parse_uuid threads thread_id tenant_id user_id ≡ err e
      → (chat graph parse_uuid threads tenant_id user_id thread_id message w ≡ (err e, w))
        × (chat_stream graph parse_uuid threads tenant_id user_id thread_id message w ≡ (err e, w))
        × (resume_refund graph parse_uuid threads tenant_id user_id thread_id approved
              idempotency_key w
            ≡ (err e, w))
  unfolding chat chat_stream resume_refund
  requests_refused message approved idempotency_key w e h = (rw h, rw h, rw h)

  abbrev pub resume_context : Text → AgentContext
  resume_context key = record {
    tenant_id = tenant_id;
    user_id = user_id;
    idempotency_key = some key;
  }

  abbrev pub IsPending : List ApprovalRequest → Type 0
  IsPending (value ∷ []) = validate_approval value ≡ ok value
  IsPending _ = ⊥

  -- A resume changes the graph only if the thread resolves for the tenant and the user, and exactly
  -- one approval, a valid one, is pending there; and then it does what the graph does on the
  -- decision, in the context of this tenant, user and idempotency key.
  pub resume_effect :
      (approved : Bool) (idempotency_key : Text) (w : W)
      → (resume_refund graph parse_uuid threads tenant_id user_id thread_id approved idempotency_key
          w).1
        ≢ w
      → (key : Text) × (checkpoint_key graph parse_uuid threads thread_id tenant_id user_id
          ≡ ok key)
        × IsPending (graph.interrupts key w)
        × ((resume_refund graph parse_uuid threads tenant_id user_id thread_id approved
              idempotency_key w).1
            ≡ (graph.resume key (resume_context idempotency_key) approved w).1)
  unfolding resume_refund validate_approval
  resume_effect approved idempotency_key w changed =
      elim (Result-cases (checkpoint_key graph parse_uuid threads thread_id tenant_id user_id)) [
        | inl (key, resolved) ↦ (key, resolved, ground arith, ground arith)
        | inr (e, refused) ↦ absurd (ground arith)
      ]

  -- Without exactly one pending approval a resume raises `ApprovalNotPendingError` and leaves the
  -- graph as it was.
  pub resume_not_pending :
      (approved : Bool) (idempotency_key key : Text) (w : W)
      → checkpoint_key graph parse_uuid threads thread_id tenant_id user_id ≡ ok key
      → length (graph.interrupts key w) ≢ 1
      → resume_refund graph parse_uuid threads tenant_id user_id thread_id approved idempotency_key
          w
        ≡ (err approval_not_pending_error, w)
  unfolding resume_refund
  resume_not_pending approved idempotency_key key w resolved h = ground arith
