-- ===== src/Tests/Sample.antt =====
-- A refund of an order: the services' answers, the request, and the states of the run.
use enterprise_support_agent.Base.{true, false, none, some, [], ok}
use enterprise_support_agent.Base.Text.{Text, lit}
use enterprise_support_agent.Domain.{
  refund, IntentAnalysis, OrderResponse, paid, refunding, ApprovalRequest,
}
use enterprise_support_agent.Graph.State.{AgentState, AgentContext, no_match}
use enterprise_support_agent.Graph.Services.{Services}

abbrev pub order_number : Text
order_number = lit "O-1"

abbrev pub message : Text
message = lit "refund O-1"

abbrev pub paid_order : OrderResponse
paid_order = record {
  order_id = order_number;
  product_name = lit "lamp";
  quantity = 1;
  total_amount = record { negative = false; digits = 1999; scale = 2 };
  status = paid;
  created_at = lit "2026-01-01T00:00:00Z";
  cancelable = true;
  refundable = true;
}

abbrev pub refunding_order : OrderResponse
refunding_order = record paid_order { status = refunding }

abbrev refund_analysis : IntentAnalysis
refund_analysis = record {
  intent = refund;
  order_id = some order_number;
  needs_clarification = false;
}

abbrev pub services : Services
services = record {
  intent_chain = λ log message. ok (some refund_analysis);
  get_order = λ log tenant user order. ok paid_order;
  request_refund = λ log tenant user order key. ok refunding_order;
  knowledge_retriever = none;
  answer_chain = λ log message order. ok (lit "paid");
  knowledge_answer_chain = none;
  history_max_messages = 6;
}

abbrev pub context : AgentContext
context = record {
  tenant_id = lit "acme";
  user_id = lit "ann";
  idempotency_key = some (lit "key-1");
}

-- `_new_graph_input(message)` on a new conversation.
abbrev pub input_state : AgentState
input_state = record {
  message = message;
  conversation_history = none;
  active_order_id = none;
  intent = some none;
  order_id = none;
  needs_clarification = some false;
  order_data = none;
  order_found = some false;
  refund_approved = none;
  knowledge_context = some [];
  knowledge_references = some [];
  knowledge_status = some no_match;
  answer = some [];
}

abbrev pub paused_state : AgentState
paused_state = record input_state {
  intent = some (some refund);
  order_id = some order_number;
  order_found = some true;
  order_data = some paid_order;
}

abbrev pub payload : ApprovalRequest
payload = record {
  order_id = order_number;
  product_name = lit "lamp";
  total_amount = record { negative = false; digits = 1999; scale = 2 };
  status = paid;
}
