-- ===== src/Service/Reply.antt =====
-- agent-service/src/agent_service/services/support_agent.py: the input of a run, and the reply that
-- a run's result is mapped to. A result is the graph's state with the values of its interrupts.
pub mod Unique
pub mod Mapped
use enterprise_support_agent.Base.{
  ℕ, suc, ◌≤◌, Bool, true, false, Option, none, some, List, [], ◌∷◌, ◌≡◌, refl, arith,
  if◌then◌else◌, Result, ok, err, ◌>>=◌, ◌>>◌, ◌&&◌, ◌||◌, not, is_empty, length, all, get_or, leb,
  ltb, ◌==◌,
}
use enterprise_support_agent.Base.Text.{Text, is_blank, text_eq}
use enterprise_support_agent.Domain.{
  IntentType, refund, intent_is, Decimal, KnowledgeReference, AgentReply, ApprovalRequest,
  AgentResult, reply, approval_required, Error, type_error,
}
use enterprise_support_agent.Graph.State.{AgentState, no_match}
use enterprise_support_agent.Graph.Walk.{Outcome, finished, paused, limit_reached}

-- `_new_graph_input`, merged into the state that the conversation's checkpoint holds: what the input
-- does not set, the history and the active order, stays.
unfoldable pub with_input : Option AgentState → Text → AgentState
with_input checkpoint message = record {
  message = message;
  conversation_history = elim checkpoint [ none ↦ none | some s ↦ s.conversation_history ];
  active_order_id = elim checkpoint [ none ↦ none | some s ↦ s.active_order_id ];
  intent = some none;
  order_id = none;
  needs_clarification = some false;
  order_data = none;
  order_found = some false;
  refund_approved = none;
  knowledge_context = some [];
  knowledge_references = some [];
  knowledge_status = some no_match;
  answer = some [];
}

pub record GraphResult : Type 0 where
  pub state : AgentState
  pub interrupts : List ApprovalRequest

-- `0 <= amount`
abbrev pub is_nonnegative : Decimal → Bool
is_nonnegative d = not d.negative || d.digits == 0

-- `ApprovalRequest.model_validate`
unfoldable pub validate_approval : ApprovalRequest → Result Error ApprovalRequest
validate_approval value =
    if not (is_empty value.order_id)
      && not (is_empty value.product_name)
      && is_nonnegative value.total_amount
    then ok value
    else err type_error

abbrev pub validate_intent : Option (Option IntentType) → Result Error IntentType
validate_intent (some (some intent)) = ok intent
validate_intent _ = err type_error

-- `KnowledgeSource.model_validate` accepts the value.
unfoldable pub is_source : KnowledgeReference → Bool
is_source r =
    leb 1 r.reference_number
    && not (is_empty r.document_id)
    && not (is_empty r.title)
    && not (is_empty r.version)

unfoldable pub contains : ℕ → List ℕ → Bool
contains n [] = false
contains n (m ∷ ms) = n == m || contains n ms

-- `len(set(numbers))`
unfoldable pub count_distinct : List ℕ → ℕ
unfolding contains
count_distinct [] = 0
count_distinct (n ∷ ns) = let rest = count_distinct ns in if contains n ns then rest else suc rest

abbrev pub numbers : List KnowledgeReference → List ℕ
numbers [] = []
numbers (r ∷ rs) = r.reference_number ∷ numbers rs

-- A check that raises `TypeError`.
abbrev require : Bool → Result Error (Unit {0})
require true = ok tt
require false = err type_error

abbrev item {ℓ} : {A : Type ℓ} → Option A → Result Error A
item none = err type_error
item (some a) = ok a

abbrev single {ℓ} : {A : Type ℓ} → List A → Result Error A
single (a ∷ []) = ok a
single _ = err type_error

-- The branch of `_map_graph_result` for a paused run.
unfoldable pub map_interrupted : GraphResult → Result Error AgentResult
map_interrupted result = do
  value ← single result.interrupts
  approval ← validate_approval value
  intent ← validate_intent result.state.intent
  require (intent_is intent refund)
  order_id ← item result.state.order_id
  require (text_eq approval.order_id order_id)
  ok (approval_required order_id approval)

-- The rest of `_map_graph_result`.
unfoldable pub map_finished : AgentState → Result Error AgentResult
unfolding count_distinct
map_finished state = do
  intent ← validate_intent state.intent
  answer ← item state.answer
  require (not (is_blank answer))
  let sources = get_or state.knowledge_references []
  require (all is_source sources)
  require (length (numbers sources) == count_distinct (numbers sources))
  ok (
      reply
        (record { answer = answer; intent = intent; order_id = state.order_id; sources = sources }))

unfoldable pub map_graph_result : GraphResult → Result Error AgentResult
map_graph_result result =
    if is_empty result.interrupts then map_finished result.state else map_interrupted result
