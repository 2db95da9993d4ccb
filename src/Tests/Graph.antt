-- ===== src/Tests/Graph.antt =====
-- Runs of the graph.
use enterprise_support_agent.Base.{
  true, false, none, some, [], ◌∷◌, ◌≡◌, ◌≢◌, refl, arith, ok, get_or, All,
}
use enterprise_support_agent.Base.Text.{lit, is_space, strip}
use enterprise_support_agent.Domain.{refund}
use enterprise_support_agent.Graph.State.{AgentState}
use enterprise_support_agent.Graph.Services.{refund_call, complete_analysis}
use enterprise_support_agent.Graph.Routing.{analyze_intent, request_refund_approval, next}
use enterprise_support_agent.Graph.Nodes.{
  approved, node, turn_saved, refund_cancelled_answer, refund_submitted_answer, init_nodes,
}
use enterprise_support_agent.Graph.Walk.{finished, paused, limit_reached, walk, start, resume}
use enterprise_support_agent.Graph.Walk.Fuel.{walk_ends}
use enterprise_support_agent.Graph.Walk.Approval.{refunds, refunds-walk, start-paused, Queried}
use enterprise_support_agent.Graph.Walk.Decision.{resume_approved, resume_cancelled}
use enterprise_support_agent.Graph.Walk.Identity.{IsTrusted, walk-IsTrusted}
use enterprise_support_agent.Graph.Walk.History.{Saved, walk-Saved, IsHistory, walk-IsHistory}
use enterprise_support_agent.Tests.Sample.{
  services, context, input_state, paused_state, payload, order_number, paid_order, refunding_order,
}

walk_ends_example :
    (walk services context 5 analyze_intent none input_state []).0 ≢ ok limit_reached
walk_ends_example = walk_ends services context 5 analyze_intent none input_state [] (omega arith)

refunds-walk_example :
    refunds (walk services context 25 analyze_intent none input_state []).1 ≡ refunds []
refunds-walk_example =
    refunds-walk services context 25 analyze_intent none input_state [] (omega arith) (λ p. cc)
      (λ p. cc)

pauses : (start services context input_state []).0 ≡ ok (paused paused_state payload)
unfolding walk node next is_space strip complete_analysis
pauses = refl

start-paused_example :
    (paused_state.intent ≡ some (some refund))
    × (paused_state.order_found ≡ some true)
    × (paused_state.order_id ≡ some payload.order_id)
    × Queried services context paused_state payload (start services context input_state []).1
start-paused_example = start-paused services context input_state paused_state payload [] pauses

abbrev submitted_state : AgentState
submitted_state = record paused_state {
  refund_approved = some true;
  order_data = some refunding_order;
  answer = some (refund_submitted_answer order_number);
}

resume_approved_example : resume services context (approved true) paused_state [] ≡ (
  ok (finished (turn_saved 6 submitted_state (refund_submitted_answer order_number))),
  refund_call (lit "acme") (lit "ann") order_number (lit "key-1") ∷ [],
)
resume_approved_example =
    resume_approved services context paused_state [] order_number (lit "key-1") paid_order refl refl
      refl

abbrev cancelled_state : AgentState
cancelled_state =
    turn_saved 6
      (record paused_state {
        refund_approved = some false;
        answer = some (refund_cancelled_answer order_number);
      })
      (refund_cancelled_answer order_number)

resume_cancelled_example :
    resume services context (approved false) paused_state [] ≡ (ok (finished cancelled_state), [])
resume_cancelled_example =
    resume_cancelled services context paused_state [] order_number paid_order refl refl

walk-IsTrusted_example :
    All (IsTrusted context) (walk services context 25 analyze_intent none input_state []).1
walk-IsTrusted_example =
    walk-IsTrusted context services 25 analyze_intent none input_state [] (omega arith) tt

ends :
    (walk services context 25 request_refund_approval (some (approved false)) paused_state []).0
    ≡ ok (finished cancelled_state)
unfolding walk node next is_space strip
ends = refl

walk-Saved_example : Saved services context paused_state cancelled_state
walk-Saved_example =
    walk-Saved services context paused_state 25 request_refund_approval (some (approved false)) []
      cancelled_state (omega arith) ends

accepted : init_nodes services ≡ ok services
unfolding init_nodes
accepted = refl

walk-IsHistory_example : IsHistory 6 (get_or cancelled_state.conversation_history [])
walk-IsHistory_example =
    walk-IsHistory services services context 25 request_refund_approval (some (approved false))
      paused_state [] cancelled_state accepted (omega arith) tt ends
