-- ===== src/Graph/Routing.antt =====
-- agent-service/src/agent_service/graph/routing.py and the edges of graph/builder.py
use enterprise_support_agent.Base.{
  ℕ, ◌<◌, Bool, true, false, Option, none, some, ◌≡◌, arith, if◌then◌else◌, Result, ok, err, ◌>>=◌,
  ◌||◌,
}
use enterprise_support_agent.Domain.{
  IntentType, order_query, refund, policy_query, intent_is, Error, key_error,
}
use enterprise_support_agent.Graph.State.{AgentState}

pub data NodeName : Type 0 where
  analyze_intent request_clarification unsupported query_order order_not_found : NodeName
  generate_answer request_refund_approval submit_refund retrieve_knowledge : NodeName
  generate_knowledge_answer save_turn : NodeName

-- Where an edge leads: to a node, or to `END`.
pub data Target : Type 0 where
  to : NodeName → Target
  finish : Target

-- `state[key]`
abbrev item {ℓ} : {A : Type ℓ} → Option A → Result Error A
item none = err key_error
item (some a) = ok a

-- `state["intent"] is intent`, for a present key.
abbrev pub is_intent : Option IntentType → IntentType → Bool
is_intent none intent = false
is_intent (some a) intent = intent_is a intent

unfoldable pub route_after_intent : AgentState → Result Error NodeName
route_after_intent state = do
  needs_clarification ← item state.needs_clarification
  if needs_clarification then ok request_clarification else do
    intent ← item state.intent
    ok (
        if is_intent intent policy_query
        then retrieve_knowledge
        else if is_intent intent order_query || is_intent intent refund
        then query_order
        else unsupported)

unfoldable pub route_after_order : AgentState → Result Error NodeName
route_after_order state = do
  order_found ← item state.order_found
  if order_found
      then (do
        intent ← item state.intent
        ok (if is_intent intent refund then request_refund_approval else generate_answer))
      else ok order_not_found

-- `state.get("refund_approved") is True`
unfoldable pub route_after_refund_approval : AgentState → NodeName
route_after_refund_approval state = elim state.refund_approved [
  | some true ↦ submit_refund
  | _ ↦ save_turn
]

abbrev to_node : Result Error NodeName → Result Error Target
to_node r = r >>= λ n. ok (to n)

-- The edges that `build_support_agent_graph` adds.
unfoldable pub next : NodeName → AgentState → Result Error Target
unfolding route_after_intent route_after_order route_after_refund_approval
next analyze_intent state = to_node (route_after_intent state)
next request_clarification state = ok (to save_turn)
next unsupported state = ok (to save_turn)
next query_order state = to_node (route_after_order state)
next order_not_found state = ok (to save_turn)
next generate_answer state = ok (to save_turn)
next request_refund_approval state = ok (to (route_after_refund_approval state))
next submit_refund state = ok (to save_turn)
next retrieve_knowledge state = ok (to generate_knowledge_answer)
next generate_knowledge_answer state = ok (to save_turn)
next save_turn state = ok finish

-- The length of the longest way from a node to `END`.
abbrev pub rank : NodeName → ℕ
rank analyze_intent = 5
rank request_clarification = 2
rank unsupported = 2
rank query_order = 4
rank order_not_found = 2
rank generate_answer = 2
rank request_refund_approval = 3
rank submit_refund = 2
rank retrieve_knowledge = 3
rank generate_knowledge_answer = 2
rank save_turn = 1

pub rank_pos : (n : NodeName) → 0 < rank n
rank_pos n = ground arith

-- Every edge leads closer to `END`, so that the graph has no cycle.
pub rank-next :
    (n : NodeName) (state : AgentState) (m : NodeName) → next n state ≡ ok (to m) → rank m < rank n
unfolding next
rank-next n state m h = ground arith

-- `submit_refund` is entered from the approval alone, and only on `refund_approved is True`.
pub next-submit_refund :
    (n : NodeName) (state : AgentState)
    → next n state ≡ ok (to submit_refund)
    → (n ≡ request_refund_approval) × (state.refund_approved ≡ some true)
unfolding next
next-submit_refund n state h = ground arith

-- The approval is entered only for a found order and a refund.
pub next-request_refund_approval :
    (n : NodeName) (state : AgentState)
    → next n state ≡ ok (to request_refund_approval)
    → (n ≡ query_order) × (state.order_found ≡ some true) × (state.intent ≡ some (some refund))
unfolding next
next-request_refund_approval n state h = ground arith
