-- ===== src/Tests/Service.antt =====
-- Mapped results and streams.
use enterprise_support_agent.Base.{
  false, none, some, List, [], ◌∷◌, ◌≡◌, refl, Result, ok, err, get_or,
}
use enterprise_support_agent.Base.Text.{Text, lit, is_blank, is_space, strip}
use enterprise_support_agent.Domain.{
  IntentType, complaint, reply, approval_required, AgentResult, ApprovalRequest, Error,
}
use enterprise_support_agent.Graph.State.{AgentState, user, assistant}
use enterprise_support_agent.Graph.Services.{Services, complete_analysis}
use enterprise_support_agent.Graph.Routing.{next, generate_answer}
use enterprise_support_agent.Graph.Nodes.{node}
use enterprise_support_agent.Graph.Walk.{finished, paused, walk, start}
use enterprise_support_agent.Service.Reply.{
  with_input, map_graph_result, map_finished, validate_approval,
}
use enterprise_support_agent.Service.Reply.Mapped.{map-start_finished, map-start_paused}
use enterprise_support_agent.Service.Stream.{messages, values, text, stream_graph, GraphEvent}
use enterprise_support_agent.Tests.Sample.{
  services, context, input_state, message, paused_state, payload,
}

-- A complaint is answered by a fixed text.
abbrev complaint_services : Services
complaint_services = record services {
  intent_chain = λ log message.
      ok (some (record { intent = complaint; order_id = none; needs_clarification = false }));
}

abbrev fixed_answer : Text
fixed_answer = lit "目前我可以帮助查询订单状态和退款资格。"

abbrev pub answered_state : AgentState
answered_state = record input_state {
  intent = some (some complaint);
  answer = some fixed_answer;
  conversation_history = some (
      record { role = user; content = message }
      ∷ record { role = assistant; content = fixed_answer }
      ∷ []);
}

answers :
    (start complaint_services context (with_input none message) []).0 ≡ ok (finished answered_state)
unfolding walk node next is_space strip complete_analysis with_input
answers = refl

map-start_finished_example :
    (answer : Text) × (intent : IntentType) × (answered_state.answer ≡ some answer)
    × (answered_state.intent ≡ some (some intent))
    × (is_blank answer ≡ false)
    × (map_graph_result (record { state = answered_state; interrupts = [] })
        ≡ ok (
            reply (record {
              answer = answer;
              intent = intent;
              order_id = answered_state.order_id;
              sources = get_or answered_state.knowledge_references [];
            })))
map-start_finished_example =
    map-start_finished complaint_services context none message [] answered_state answers

pauses_on_input :
    (start services context (with_input none message) []).0 ≡ ok (paused paused_state payload)
unfolding walk node next is_space strip complete_analysis with_input
pauses_on_input = refl

abbrev required_approval : Result Error ApprovalRequest → Result Error AgentResult
required_approval (err e) = err e
required_approval (ok a) = ok (approval_required a.order_id a)

map-start_paused_example :
    map_graph_result (record { state = paused_state; interrupts = payload ∷ [] })
    ≡ required_approval (validate_approval payload)
unfolding validate_approval
map-start_paused_example =
    map-start_paused services context none message [] paused_state payload pauses_on_input

abbrev pub events : List GraphEvent
events = messages (some generate_answer) (text (lit "hi")) ∷ values answered_state [] ∷ []

streams : (stream_graph none events none).1 ≡ none
unfolding stream_graph map_graph_result map_finished strip is_space
streams = refl
