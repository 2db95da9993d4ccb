-- ===== src/Domain.antt =====
-- agent-service/src/agent_service/domain/ (intents, orders, replies) and the exceptions of
-- integrations/business_service/errors.py, services/ and rag/.
use enterprise_support_agent.Base.{ℕ, Bool, true, false, Option, List, ◌≡◌, arith}
use enterprise_support_agent.Base.Text.{Text}

pub data IntentType : Type 0 where
  order_query refund policy_query complaint other : IntentType

pub record IntentAnalysis : Type 0 where
  pub intent : IntentType
  pub order_id : Option Text
  pub needs_clarification : Bool

pub data OrderStatus : Type 0 where
  pending_payment paid shipped completed cancelled refunding refunded : OrderStatus

-- A finite `Decimal`: sign, digits and the number of digits behind the point. `str` and `Decimal`
-- are inverse on these, so that `model_dump(mode="json")` keeps the value.
pub record Decimal : Type 0 where
  pub negative : Bool
  pub digits : ℕ
  pub scale : ℕ

-- An order, and also its `model_dump(mode="json", by_alias=True)`, which has the same fields.
-- A time stands as its ISO text.
pub record OrderResponse : Type 0 where
  pub order_id : Text
  pub product_name : Text
  pub quantity : ℕ
  pub total_amount : Decimal
  pub status : OrderStatus
  pub created_at : Text
  pub cancelable : Bool
  pub refundable : Bool

-- `KnowledgeReference`, `KnowledgeReferenceState` and `KnowledgeSource` have these fields.
pub record KnowledgeReference : Type 0 where
  pub reference_number : ℕ
  pub document_id : Text
  pub title : Text
  pub section_title : Option Text
  pub version : Text

pub record AgentReply : Type 0 where
  pub answer : Text
  pub intent : IntentType
  pub order_id : Option Text
  pub sources : List KnowledgeReference

-- The value of an interrupt, and `ApprovalRequest`; `operation` is always "request_refund".
pub record ApprovalRequest : Type 0 where
  pub order_id : Text
  pub product_name : Text
  pub total_amount : Decimal
  pub status : OrderStatus

-- `AgentResult`; `intent` of `AgentApprovalRequired` can only be REFUND.
pub data AgentResult : Type 0 where
  reply : AgentReply → AgentResult
  approval_required : Text → ApprovalRequest → AgentResult

-- The exceptions of the service; their messages are left out. `http_exception` is FastAPI's, also
-- the 422 for a request that its validation refuses.
pub data Error : Type 0 where
  value_error type_error key_error runtime_error validation_error assertion_error : Error
  recursion_limit_error model_error zero_division_error : Error
  order_not_found_error refund_not_allowed_error refund_outcome_unknown_error : Text → Error
  idempotency_conflict_error idempotency_in_progress_error idempotency_unavailable_error : Error
  business_service_timeout_error business_service_unavailable_error : Error
  upstream_service_error : ℕ → Error
  upstream_contract_error : Error
  knowledge_store_unavailable_error store_error : Error
  conversation_thread_not_found_error conversation_persistence_unavailable_error : Error
  approval_not_pending_error : Error
  rate_limit_exceeded_error : ℕ → Error
  rate_limit_unavailable_error : Error
  invalid_tenant_id_error knowledge_catalog_not_found_error : Error
  redis_configuration_error redis_unavailable_error collection_error : Error
  http_exception : ℕ → Error

-- `a is b` on intents.
abbrev pub intent_is : IntentType → IntentType → Bool
intent_is order_query order_query = true
intent_is refund refund = true
intent_is policy_query policy_query = true
intent_is complaint complaint = true
intent_is other other = true
intent_is _ _ = false

-- `status is OrderStatus.REFUNDING`
abbrev pub is_refunding : OrderStatus → Bool
is_refunding refunding = true
is_refunding _ = false

pub intent_is-eq : (a b : IntentType) → intent_is a b ≡ true → a ≡ b
intent_is-eq a b h = ground arith
