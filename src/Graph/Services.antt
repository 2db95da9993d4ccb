-- ===== src/Graph/Services.antt =====
-- What the nodes call. The language models, the order service and the retriever stand as functions
-- of all calls made so far and of their arguments, so that they may answer differently each time;
-- every call is logged, newest first. Around the models: services/intent_analyzer.py,
-- services/answer_generator.py, services/knowledge_answer_generator.py and tools/order.py.
use enterprise_support_agent.Base.{
  ℕ, true, false, Option, none, some, List, ◌∷◌, is_empty, is_none, if◌then◌else◌, Result, ok, err,
  ◌&&◌, ◌||◌,
}
use enterprise_support_agent.Base.Text.{Text, lit, strip, is_blank}
use enterprise_support_agent.Domain.{
  order_query, refund, policy_query, intent_is, IntentAnalysis, OrderResponse, Error, value_error,
  type_error, validation_error,
}
use enterprise_support_agent.Exec.{Exec, pure, raise, lift, ◌>>=◌}
use enterprise_support_agent.Rag.Context.{Document, FormattedKnowledgeContext}

-- Calls by their arguments; tenant, user and order come in this order.
pub data Call : Type 0 where
  intent_call : Text → Call
  order_call : Text → Text → Text → Call
  refund_call : Text → Text → Text → Text → Call
  retrieve_call : Text → Text → Call
  answer_call : Text → OrderResponse → Call
  knowledge_answer_call : Text → Text → Call

abbrev pub Log : Type 0
Log = List Call

-- The `none` of `intent_chain` is a result that is no `IntentAnalysis`.
pub record Services : Type 0 where
  pub intent_chain : Log → Text → Result Error (Option IntentAnalysis)
  pub get_order : Log → Text → Text → Text → Result Error OrderResponse
  pub request_refund : Log → Text → Text → Text → Text → Result Error OrderResponse
  pub knowledge_retriever : Option (Log → Text → Text → Result Error (List Document))
  pub answer_chain : Log → Text → OrderResponse → Result Error Text
  pub knowledge_answer_chain : Option (Log → Text → Text → Result Error Text)
  pub history_max_messages : ℕ

-- Ask a service and log the call.
abbrev pub ask {ℓ} : {A : Type ℓ} → Call → (Log → Result Error A) → Exec Log A
ask call f log = (f log, call ∷ log)

-- `IntentAnalyzer.analyze`, after the model has answered.
unfoldable pub complete_analysis : IntentAnalysis → IntentAnalysis
complete_analysis a =
    if intent_is a.intent policy_query
    then record a { needs_clarification = false }
    else if (intent_is a.intent order_query || intent_is a.intent refund) && is_none a.order_id
    then record a { needs_clarification = true }
    else a

abbrev checked_analysis : Option IntentAnalysis → Result Error IntentAnalysis
checked_analysis none = err type_error
checked_analysis (some a) = ok (complete_analysis a)

abbrev pub no_knowledge_answer : Text
no_knowledge_answer = lit "当前知识库中没有找到足够依据，建议联系人工客服确认。"

module _ (sv : Services) where
  unfoldable pub analyze : Text → Exec Log IntentAnalysis
  analyze message = if is_blank message then raise value_error else do
    result ← ask (intent_call (strip message)) (λ log. sv.intent_chain log (strip message))
    lift (checked_analysis result)

  -- `AnswerGenerator.generate`
  unfoldable pub generate : Text → OrderResponse → Exec Log Text
  generate message order_data =
      ask (answer_call message order_data) (λ log. sv.answer_chain log message order_data)

  -- The tool of `create_get_order_tool`; its schema wants `order_id` to have a character.
  unfoldable pub get_order_tool : Text → Text → Text → Exec Log OrderResponse
  get_order_tool tenant_id user_id order_id =
      if is_empty order_id
      then raise validation_error
      else ask (order_call tenant_id user_id order_id)
          (λ log. sv.get_order log tenant_id user_id order_id)

  -- `BusinessServiceClient.request_refund`, as the nodes see it.
  unfoldable pub refund_order : Text → Text → Text → Text → Exec Log OrderResponse
  refund_order tenant_id user_id order_id idempotency_key =
      ask (refund_call tenant_id user_id order_id idempotency_key)
        (λ log. sv.request_refund log tenant_id user_id order_id idempotency_key)

abbrev checked_answer : Text → Result Error Text
checked_answer answer = if is_blank answer then err type_error else ok (strip answer)

-- `KnowledgeAnswerGenerator.generate` over its model.
unfoldable pub generate_from_knowledge :
    (Log → Text → Text → Result Error Text) → Text → FormattedKnowledgeContext → Exec Log Text
generate_from_knowledge chain message context =
    if is_blank message
    then raise value_error
    else if is_empty context.text
    then pure no_knowledge_answer
    else do
      answer ←
          ask (knowledge_answer_call (strip message) context.text)
            (λ log. chain log (strip message) context.text)
      lift (checked_answer answer)
