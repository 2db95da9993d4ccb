-- ===== src/Evaluation/Live/Streamed.antt =====
-- The observation of a stream that the API sends.
use mathlib.Core.Path.{subst}
use enterprise_support_agent.Base.{
  true, Option, none, some, List, [], ◌∷◌, ◌≡◌, refl, ap, arith, ok,
}
use enterprise_support_agent.Base.Text.{Text, text_eq_refl}
use enterprise_support_agent.Domain.{AgentResult, reply, approval_required, refund, Error}
use enterprise_support_agent.Service.Reply.{GraphResult}
use enterprise_support_agent.Service.Stream.{
  GraphEvent, AgentStreamEvent, token, completed, stream_graph,
}
use enterprise_support_agent.Service.Stream.Laws.{IsStream, stream_graph-IsStream}
use enterprise_support_agent.Api.Events.{
  StreamEventType, result_event_of, encode_events, encode_agent_event_stream, event_types,
  is_public_sequence,
}
use enterprise_support_agent.Api.Events.Order.{is_public_sequence-stream_graph}
use enterprise_support_agent.Evaluation.Cases.{replies, asks_approval}
use enterprise_support_agent.Evaluation.Live.{
  LiveAgentObservation, Collected, collect, first_occurrences, document_ids,
  validate_public_event_sequence, terminal_observation, build_observation,
}

-- What the loop has collected at the end of the events of a stream with this result.
abbrev collected_of : Collected → Text → AgentResult → Collected
collected_of c thread_id (reply r) = record c { result = some (thread_id, r) }
collected_of c thread_id (approval_required order_id approval) = record c {
  approval = some (thread_id, order_id);
}

-- The result of a stream.
abbrev pub IsResult : List AgentStreamEvent → AgentResult → Type 0
IsResult [] result = ⊥
IsResult (token t ∷ events) result = IsResult events result
IsResult (completed r ∷ events) result = r ≡ result

collect-encode_events :
    (thread_id : Text) (events : List AgentStreamEvent) (result : AgentResult) (c : Collected)
    → IsStream events none
    → IsResult events result
    → collect (encode_events thread_id events none) c ≡ ok (collected_of c thread_id result)
unfolding collect encode_events result_event_of
collect-encode_events thread_id [] result c h r = absurd r
collect-encode_events thread_id (token [] ∷ events) result c h r = absurd (ground arith)
collect-encode_events thread_id (token (x ∷ s) ∷ events) result c h r =
    collect-encode_events thread_id events result c h.1 r
collect-encode_events thread_id (completed (reply a) ∷ []) result c h r =
    ap (λ q. ok (collected_of c thread_id q)) r
collect-encode_events thread_id (completed (approval_required o a) ∷ []) result c h r =
    ap (λ q. ok (collected_of c thread_id q)) r
collect-encode_events thread_id (completed q ∷ x ∷ events) result c h r = absurd (ground arith)

IsStream-IsResult :
    (events : List AgentStreamEvent)
    → IsStream events none
    → (result : AgentResult) × IsResult events result
IsStream-IsResult [] h = absurd (h refl)
IsStream-IsResult (token t ∷ events) h = IsStream-IsResult events h.1
IsStream-IsResult (completed result ∷ events) h = (result, refl)

-- What is observed of a result, behind events of the types.
abbrev pub observed : Text → List StreamEventType → AgentResult → LiveAgentObservation
observed case_id types (reply r) = record {
  case_id = case_id;
  outcome = replies;
  intent = r.intent;
  order_id = r.order_id;
  source_document_ids = first_occurrences [] (document_ids r.sources);
  answer = r.answer;
  event_types = types;
}
observed case_id types (approval_required order_id approval) = record {
  case_id = case_id;
  outcome = asks_approval;
  intent = refund;
  order_id = some order_id;
  source_document_ids = [];
  answer = [];
  event_types = types;
}

abbrev started : Text → Collected
started thread_id = record { metadata = some thread_id; result = none; approval = none }

collected_of-metadata :
    (thread_id : Text) (result : AgentResult)
    → (collected_of (started thread_id) thread_id result).metadata ≡ some thread_id
collected_of-metadata thread_id (reply r) = refl
collected_of-metadata thread_id (approval_required order_id approval) = refl

terminal_observation-observed :
    (case_id thread_id : Text) (types : List StreamEventType) (result : AgentResult)
    → is_public_sequence types ≡ true
    → terminal_observation case_id thread_id types
        (collected_of (started thread_id) thread_id result).result
        (collected_of (started thread_id) thread_id result).approval
      ≡ ok (observed case_id types result)
unfolding terminal_observation validate_public_event_sequence
terminal_observation-observed case_id thread_id types (reply r) h =
    ground (arith, text_eq_refl thread_id)
terminal_observation-observed case_id thread_id types (approval_required order_id approval) h =
    ground (arith, text_eq_refl thread_id)

-- If the service's stream ends without an exception, then the reader observes in the events that
-- are sent for it, without an error, exactly the result that the service yielded.
pub build_observation-stream_graph :
    (case_id thread_id : Text) (last : Option GraphResult) (events : List GraphEvent)
    (e : Option Error)
    → (stream_graph last events e).1 ≡ none
    → let sent = encode_agent_event_stream thread_id (stream_graph last events e).0 none in
      (result : AgentResult) × IsResult (stream_graph last events e).0 result
      × (build_observation case_id thread_id sent ≡ ok (observed case_id (event_types sent) result))
unfolding build_observation encode_agent_event_stream collect
build_observation-stream_graph case_id thread_id last events e ended =
    let stream = (stream_graph last events e).0 in
    let ordered : IsStream stream none =
      subst (IsStream stream) ended (stream_graph-IsStream last events e) in
    let (result, yielded) = IsStream-IsResult stream ordered in
    let accepted = is_public_sequence-stream_graph thread_id last events e ended in
    let gathered =
      collect-encode_events thread_id stream result (started thread_id) ordered yielded in
    let concluded =
      terminal_observation-observed case_id thread_id
        (event_types (encode_agent_event_stream thread_id stream none)) result accepted in
    (
      result,
      yielded,
      rw (gathered, collected_of-metadata thread_id result, text_eq_refl thread_id) concluded,
    )
