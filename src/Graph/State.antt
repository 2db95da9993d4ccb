-- ===== src/Graph/State.antt =====
-- agent-service/src/agent_service/graph/state.py. A key that may be missing is an `Option`; where a
-- missing key and `None` are read alike (`state.get(key)`), one `none` stands for both.
use enterprise_support_agent.Base.{Bool, Option, List}
use enterprise_support_agent.Base.Text.{Text}
use enterprise_support_agent.Domain.{IntentType, OrderResponse, KnowledgeReference}

pub data Role : Type 0 where
  user assistant : Role

pub record ConversationMessage : Type 0 where
  pub role : Role
  pub content : Text

pub data KnowledgeStatus : Type 0 where
  available no_match unavailable : KnowledgeStatus

-- `intent` tells a missing key from `None`.
pub record AgentState : Type 0 where
  pub message : Text
  pub conversation_history : Option (List ConversationMessage)
  pub active_order_id : Option Text
  pub intent : Option (Option IntentType)
  pub order_id : Option Text
  pub needs_clarification : Option Bool
  pub order_data : Option OrderResponse
  pub order_found : Option Bool
  pub refund_approved : Option Bool
  pub knowledge_context : Option Text
  pub knowledge_references : Option (List KnowledgeReference)
  pub knowledge_status : Option KnowledgeStatus
  pub answer : Option Text

pub record AgentContext : Type 0 where
  pub tenant_id : Text
  pub user_id : Text
  pub idempotency_key : Option Text
