-- ===== src/Graph/Nodes.antt =====
-- agent-service/src/agent_service/graph/nodes.py. A node gives the state with its update merged in.
use enterprise_support_agent.Base.{
  ℕ, Bool, true, false, Option, none, some, List, [], ◌∷◌, ◌++◌, is_empty, is_none, if◌then◌else◌,
  Result, ok, err, ◌&&◌, not, get_or, take_last, ltb, ◌||◌, ◌==◌, ◌%◌,
}
use enterprise_support_agent.Base.Text.{Text, lit, is_blank}
use enterprise_support_agent.Domain.{
  order_query, intent_is, IntentAnalysis, OrderResponse, ApprovalRequest, Error, value_error,
  type_error, runtime_error, order_not_found_error, knowledge_store_unavailable_error,
}
use enterprise_support_agent.Exec.{Exec, pure, raise, lift, attempt, ◌>>=◌}
use enterprise_support_agent.Rag.Context.{Document, format_retrieved_context}
use enterprise_support_agent.Graph.State.{
  AgentState, AgentContext, ConversationMessage, user, assistant, available, no_match, unavailable,
  KnowledgeStatus,
}
use enterprise_support_agent.Graph.Services.{
  Services, Log, retrieve_call, ask, analyze, generate, get_order_tool, refund_order,
  generate_from_knowledge,
}
use enterprise_support_agent.Graph.Routing.{
  NodeName, analyze_intent, request_clarification, unsupported, query_order, order_not_found,
  generate_answer, request_refund_approval, submit_refund, retrieve_knowledge,
  generate_knowledge_answer, save_turn,
}

abbrev pub knowledge_unavailable_answer : Text
knowledge_unavailable_answer = lit "知识库暂时不可用，请稍后重试或联系人工客服。"

-- `SupportAgentNodes.__init__`
unfoldable pub init_nodes : Services → Result Error Services
init_nodes sv =
    if ltb sv.history_max_messages 2 || not (sv.history_max_messages % 2 == 0)
    then err value_error
    else ok sv

-- What `interrupt` returns on a resume: a dict whose "approved" is a `bool`, a dict without such an
-- entry, or no dict.
pub data ResumeValue : Type 0 where
  approved : Bool → ResumeValue
  no_boolean not_object : ResumeValue

-- A node updates the state, or the graph pauses in it.
pub data NodeOutcome : Type 0 where
  updated : AgentState → NodeOutcome
  interrupted : ApprovalRequest → NodeOutcome

-- The order of the last turn stands in for a missing order number.
unfoldable pub resolve_order : IntentAnalysis → Option Text → Option Text × Bool
resolve_order analysis none = (analysis.order_id, analysis.needs_clarification)
resolve_order analysis (some active) =
    if intent_is analysis.intent order_query && is_none analysis.order_id && not (is_blank active)
    then (some active, false)
    else (analysis.order_id, analysis.needs_clarification)

-- `f"订单 {order_id} …"` and its like.
abbrev order_not_found_answer : Text → Text
order_not_found_answer order_id = lit "没有找到订单 " ++ (order_id ++ lit "，请检查订单号是否正确。")

abbrev pub refund_cancelled_answer : Text → Text
refund_cancelled_answer order_id = lit "已取消订单 " ++ (order_id ++ lit " 的退款申请。")

abbrev pub refund_submitted_answer : Text → Text
refund_submitted_answer order_id = lit "订单 " ++ (order_id ++ lit " 的退款申请已提交，当前状态为 REFUNDING。")

-- What `query_order` makes of the tool's result.
abbrev pub found_order : AgentState → Result Error OrderResponse → Exec Log AgentState
found_order state (ok order) =
    pure (record state { order_found = some true; order_data = some order })
found_order state (err (order_not_found_error _)) = pure (record state { order_found = some false })
found_order state (err e) = raise e

abbrev pub knowledge_unavailable : AgentState → AgentState
knowledge_unavailable state = record state {
  knowledge_status = some unavailable;
  knowledge_context = some [];
  knowledge_references = some [];
}

-- What `retrieve_knowledge` makes of the retriever's result.
abbrev pub retrieved : AgentState → Result Error (List Document) → Exec Log AgentState
retrieved state (err knowledge_store_unavailable_error) = pure (knowledge_unavailable state)
retrieved state (err e) = raise e
retrieved state (ok chunks) = do
  context ← lift (format_retrieved_context chunks)
  pure (record state {
    knowledge_status = some (if is_empty chunks then no_match else available);
    knowledge_context = some context.text;
    knowledge_references = some context.references;
  })

unfoldable pub approval_payload : Text → OrderResponse → ApprovalRequest
approval_payload order_id order_data = record {
  order_id = order_id;
  product_name = order_data.product_name;
  total_amount = order_data.total_amount;
  status = order_data.status;
}

-- The rest of `request_refund_approval`, from what `interrupt` does: without a resume value it
-- pauses the graph.
decide : AgentState → Text → OrderResponse → Option ResumeValue → Exec Log NodeOutcome
unfolding approval_payload
decide state order_id order_data none = pure (interrupted (approval_payload order_id order_data))
decide state order_id order_data (some not_object) = raise type_error
decide state order_id order_data (some no_boolean) = raise type_error
decide state order_id order_data (some (approved false)) = pure (
    updated (record state {
      refund_approved = some false;
      answer = some (refund_cancelled_answer order_id);
    }))
decide state order_id order_data (some (approved true)) =
    pure (updated (record state { refund_approved = some true }))

abbrev pub required {ℓ} : {A : Type ℓ} → Error → Option A → Exec Log A
required e none = raise e
required e (some a) = pure a

abbrev known_status : Option KnowledgeStatus → Exec Log KnowledgeStatus
known_status = required value_error

-- `list(state.get("conversation_history", []))`, one turn longer.
abbrev pub extended_history : AgentState → Text → List ConversationMessage
extended_history state answer =
    get_or state.conversation_history []
    ++ record { role = user; content = state.message }
      ∷ record { role = assistant; content = answer }
      ∷ []

-- `order_id if state.get("order_found") is True and isinstance(order_id, str) else active`
abbrev pub current_order : Option Bool → Option Text → Option Text → Option Text
current_order (some true) (some order_id) active = some order_id
current_order _ _ active = active

unfoldable pub turn_saved : ℕ → AgentState → Text → AgentState
turn_saved max_messages state answer = record state {
  conversation_history = some (take_last max_messages (extended_history state answer));
  active_order_id = current_order state.order_found state.order_id state.active_order_id;
}

module _ (sv : Services) (ctx : AgentContext) where
  node_analyze_intent : AgentState → Exec Log AgentState
  unfolding analyze resolve_order
  node_analyze_intent state = do
    analysis ← analyze sv state.message
    let (order_id, needs_clarification) = resolve_order analysis state.active_order_id
    pure (record state {
      intent = some (some analysis.intent);
      order_id = order_id;
      needs_clarification = some needs_clarification;
    })

  node_request_clarification : AgentState → Exec Log AgentState
  node_request_clarification state = pure (record state { answer = some (lit "请提供需要处理的订单号。") })

  node_unsupported : AgentState → Exec Log AgentState
  node_unsupported state = pure (record state { answer = some (lit "目前我可以帮助查询订单状态和退款资格。") })

  node_query_order : AgentState → Exec Log AgentState
  unfolding get_order_tool
  node_query_order state = do
    order_id ← required value_error state.order_id
    result ← attempt (get_order_tool sv ctx.tenant_id ctx.user_id order_id)
    found_order state result

  node_order_not_found : AgentState → Exec Log AgentState
  node_order_not_found state = do
    order_id ← required value_error state.order_id
    pure (record state { answer = some (order_not_found_answer order_id) })

  node_retrieve_knowledge : AgentState → Exec Log AgentState
  node_retrieve_knowledge state = elim sv.knowledge_retriever [
    | none ↦ pure (knowledge_unavailable state)
    | some retrieve ↦ do
      result ← attempt (
          ask (retrieve_call ctx.tenant_id state.message)
            (λ log. retrieve log ctx.tenant_id state.message))
      retrieved state result
  ]

  answer_from_knowledge : AgentState → Exec Log AgentState
  unfolding generate_from_knowledge
  answer_from_knowledge state = do
    chain ← required runtime_error sv.knowledge_answer_chain
    text ← required value_error state.knowledge_context
    references ← required value_error state.knowledge_references
    answer ←
        generate_from_knowledge chain state.message
          (record { text = text; references = references })
    pure (record state { answer = some answer })

  node_generate_knowledge_answer : AgentState → Exec Log AgentState
  unfolding answer_from_knowledge
  node_generate_knowledge_answer state = elim state.knowledge_status [
    | none ↦ raise value_error
    | some unavailable ↦ pure (record state { answer = some knowledge_unavailable_answer })
    | some available ↦ answer_from_knowledge state
    | some no_match ↦ answer_from_knowledge state
  ]

  node_generate_answer : AgentState → Exec Log AgentState
  unfolding generate
  node_generate_answer state = do
    order_data ← required type_error state.order_data
    answer ← generate sv state.message order_data
    pure (record state { answer = some answer })

  node_request_refund_approval : Option ResumeValue → AgentState → Exec Log NodeOutcome
  unfolding decide
  node_request_refund_approval resume state = do
    order_id ← required type_error state.order_id
    order_data ← required type_error state.order_data
    decide state order_id order_data resume

  node_submit_refund : AgentState → Exec Log AgentState
  unfolding refund_order
  node_submit_refund state = do
    order_id ← required type_error state.order_id
    idempotency_key ← required type_error ctx.idempotency_key
    order ← refund_order sv ctx.tenant_id ctx.user_id order_id idempotency_key
    pure
        (record state { order_data = some order; answer = some (refund_submitted_answer order_id) })

  node_save_turn : AgentState → Exec Log AgentState
  unfolding turn_saved
  node_save_turn state = do
    answer ← required type_error state.answer
    if is_blank answer
        then raise type_error
        else pure (turn_saved sv.history_max_messages state answer)

  abbrev pub always : Exec Log AgentState → Exec Log NodeOutcome
  always m = m >>= λ state. pure (updated state)

  -- The nodes by the names under which `build_support_agent_graph` adds them.
  unfoldable pub node : NodeName → Option ResumeValue → AgentState → Exec Log NodeOutcome
  unfolding node_analyze_intent node_request_clarification node_unsupported node_query_order
      node_order_not_found node_retrieve_knowledge node_generate_knowledge_answer
      node_generate_answer node_request_refund_approval node_submit_refund node_save_turn
  node analyze_intent resume state = always (node_analyze_intent state)
  node request_clarification resume state = always (node_request_clarification state)
  node unsupported resume state = always (node_unsupported state)
  node query_order resume state = always (node_query_order state)
  node order_not_found resume state = always (node_order_not_found state)
  node generate_answer resume state = always (node_generate_answer state)
  node request_refund_approval resume state = node_request_refund_approval resume state
  node submit_refund resume state = always (node_submit_refund state)
  node retrieve_knowledge resume state = always (node_retrieve_knowledge state)
  node generate_knowledge_answer resume state = always (node_generate_knowledge_answer state)
  node save_turn resume state = always (node_save_turn state)
