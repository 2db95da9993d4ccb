-- ===== src/Service/Agent.antt =====
-- `SupportAgentService` of agent-service/src/agent_service/services/support_agent.py: the requests
-- of a conversation. The compiled graph is an argument; it keeps the conversations' checkpoints.
pub mod Requests
use enterprise_support_agent.Base.{
  Bool, true, false, Option, none, some, List, [], ◌∷◌, ◌≡◌, refl, arith, if◌then◌else◌, Result, ok,
  err,
}
use enterprise_support_agent.Base.Text.{Text}
use enterprise_support_agent.Domain.{
  ApprovalRequest, AgentResult, AgentReply, reply, approval_required, Error, type_error,
  approval_not_pending_error, conversation_persistence_unavailable_error,
}
use enterprise_support_agent.Exec.{Exec, pure, raise, lift, ◌>>=◌}
use enterprise_support_agent.Graph.State.{AgentContext}
use enterprise_support_agent.Service.Reply.{GraphResult, map_graph_result, validate_approval}
use enterprise_support_agent.Service.Threads.{Table, resolve_checkpoint_key}
use enterprise_support_agent.Service.Stream.{GraphEvent, AgentStreamEvent, stream_graph, Yielded}

-- `ainvoke` on the input of a message and on a resume value, `astream`, and the interrupts of
-- `aget_state`, for a checkpoint key; `W` is what the graph can change.
pub record CompiledGraph (W : Type 0) : Type 0 where
  pub invoke : Text → AgentContext → Text → Exec W GraphResult
  pub resume : Text → AgentContext → Bool → Exec W GraphResult
  pub stream : Text → AgentContext → Text → W → (Yielded GraphEvent) × W
  pub interrupts : Text → W → List ApprovalRequest

-- `parse_uuid` is `str(UUID(text))`; `threads` is the table behind the thread service, or `none`
-- where there is no such service.
module _ {W : Type 0} (graph : CompiledGraph W) (parse_uuid : Text → Option Text)
    (threads : Option Table) where
  unfoldable pub checkpoint_key : Text → Text → Text → Result Error Text
  checkpoint_key thread_id tenant_id user_id = elim threads [
    | none ↦ err conversation_persistence_unavailable_error
    | some rows ↦ resolve_checkpoint_key parse_uuid thread_id tenant_id user_id rows
  ]

  unfoldable pub chat : Text → Text → Text → Text → Exec W AgentResult
  chat tenant_id user_id thread_id message = do
    key ← lift (checkpoint_key thread_id tenant_id user_id)
    result ←
        graph.invoke key
          (record { tenant_id = tenant_id; user_id = user_id; idempotency_key = none }) message
    lift (map_graph_result result)

  abbrev streamed : Yielded GraphEvent × W → Yielded AgentStreamEvent × W
  streamed ((events, e), w) = (stream_graph none events e, w)

  -- The exception before the first event, or the events.
  unfoldable pub chat_stream :
      Text → Text → Text → Text → W → Result Error (Yielded AgentStreamEvent) × W
  chat_stream tenant_id user_id thread_id message = do
    key ← lift (checkpoint_key thread_id tenant_id user_id)
    λ w.
        let (yielded, w') = streamed (
          graph.stream key
            (record { tenant_id = tenant_id; user_id = user_id; idempotency_key = none }) message
            w) in
        (ok yielded, w')

  -- `len(snapshot.interrupts) != 1`, and the validation of the one value.
  abbrev pending_approval : List ApprovalRequest → Result Error ApprovalRequest
  pending_approval (value ∷ []) = validate_approval value
  pending_approval _ = err approval_not_pending_error

  abbrev only_reply : AgentResult → Result Error AgentReply
  only_reply (reply r) = ok r
  only_reply (approval_required order_id approval) = err type_error

  unfoldable pub resume_refund : Text → Text → Text → Bool → Text → Exec W AgentReply
  resume_refund tenant_id user_id thread_id approved idempotency_key = do
    key ← lift (checkpoint_key thread_id tenant_id user_id)
    approval ← (λ w. (pending_approval (graph.interrupts key w), w))
    result ←
        graph.resume key
          (record {
            tenant_id = tenant_id;
            user_id = user_id;
            idempotency_key = some idempotency_key;
          })
          approved
    mapped ← lift (map_graph_result result)
    lift (only_reply mapped)
