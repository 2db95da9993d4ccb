-- ===== src/Evaluation/Live.antt =====
-- agent-service/src/agent_service/evaluation/live.py: from the events of a public stream to an
-- observation, and its comparison with a case. An event stands as its data, which it is parsed to.
pub mod Streamed
use enterprise_support_agent.Base.{
  ℕ, Bool, true, false, Option, none, some, List, [], ◌∷◌, ◌++◌, ◌≡◌, refl, arith, map, get_or,
  is_none, if◌then◌else◌, Result, ok, err, ◌>>=◌, ◌&&◌, ◌||◌, ◌==◌, not, is_empty,
}
use enterprise_support_agent.Base.Text.{Text, text_eq}
use enterprise_support_agent.Domain.{
  IntentType, refund, intent_is, AgentReply, ApprovalRequest, KnowledgeReference,
}
use enterprise_support_agent.Api.Events.{
  StreamData, StreamEventType, metadata_data, token_data, result_data, approval_data, error_data,
  done_data, event_types, is_public_sequence,
}
use enterprise_support_agent.Api.Sse.{join_lines}
use enterprise_support_agent.Evaluation.Cases.{
  AgentEvaluationCase, ExpectedOutcome, replies, asks_approval, outcome_is, option_is, list_is,
  member, Failure, case_id_failure, intent_failure, outcome_failure, order_id_failure,
  source_document_ids_failure, failing, missing_facts,
}

-- The exceptions of a live run. `other_http` is another `HTTPError`; an exception that no handler
-- expects is `unexpected`.
pub data LiveError : Type 0 where
  protocol_error payload_invalid timeout connect_error other_http unexpected : LiveError
  http_status : ℕ → LiveError

pub record LiveAgentObservation : Type 0 where
  pub case_id : Text
  pub outcome : ExpectedOutcome
  pub intent : IntentType
  pub order_id : Option Text
  pub source_document_ids : List Text
  pub answer : Text
  pub event_types : List StreamEventType

-- The variables of the loop of `_build_observation`; an approval is its thread and its order.
pub record Collected : Type 0 where
  pub metadata : Option Text
  pub result : Option (Text × AgentReply)
  pub approval : Option (Text × Text)

unfoldable pub collect : List StreamData → Collected → Result LiveError Collected
collect [] c = ok c
collect (metadata_data thread_id ∷ events) c =
    collect events (record c { metadata = some thread_id })
collect (token_data content ∷ events) c =
    if is_empty content then err payload_invalid else collect events c
collect (result_data thread_id reply ∷ events) c =
    collect events (record c { result = some (thread_id, reply) })
collect (approval_data thread_id order_id approval ∷ events) c =
    collect events (record c { approval = some (thread_id, order_id) })
collect (error_data ∷ events) c = err protocol_error
collect (done_data ∷ events) c = collect events c

abbrev is_thread : Option Text → Text → Bool
is_thread none thread_id = false
is_thread (some t) thread_id = text_eq t thread_id

-- `list(dict.fromkeys(...))`: the first occurrences, where `seen` came before.
unfoldable pub first_occurrences : List Text → List Text → List Text
unfolding member
first_occurrences seen [] = []
first_occurrences seen (s ∷ ss) =
    let rest = first_occurrences (s ∷ seen) ss in
    let skipped = first_occurrences seen ss in if member text_eq s seen then skipped else s ∷ rest

abbrev pub document_ids : List KnowledgeReference → List Text
document_ids [] = []
document_ids (source ∷ sources) = source.document_id ∷ document_ids sources

-- `validate_public_event_sequence`
unfoldable pub validate_public_event_sequence :
    LiveAgentObservation → Result LiveError LiveAgentObservation
unfolding is_public_sequence
validate_public_event_sequence o =
    if is_public_sequence o.event_types then ok o else err payload_invalid

-- What follows the loop, on the result and the approval.
unfoldable pub terminal_observation :
    Text
    → Text
    → List StreamEventType
    → Option (Text × AgentReply)
    → Option (Text × Text)
    → Result LiveError LiveAgentObservation
terminal_observation case_id thread_id types none none = err protocol_error
terminal_observation case_id thread_id types (some r) (some a) = err protocol_error
terminal_observation case_id thread_id types (some (t, reply)) none =
    if text_eq t thread_id
    then validate_public_event_sequence (record {
      case_id = case_id;
      outcome = replies;
      intent = reply.intent;
      order_id = reply.order_id;
      source_document_ids = first_occurrences [] (document_ids reply.sources);
      answer = reply.answer;
      event_types = types;
    })
    else err protocol_error
terminal_observation case_id thread_id types none (some (t, order_id)) =
    if text_eq t thread_id
    then validate_public_event_sequence (record {
      case_id = case_id;
      outcome = asks_approval;
      intent = refund;
      order_id = some order_id;
      source_document_ids = [];
      answer = [];
      event_types = types;
    })
    else err protocol_error

-- `_build_observation`
unfoldable pub build_observation :
    Text → Text → List StreamData → Result LiveError LiveAgentObservation
build_observation case_id thread_id [] = err protocol_error
build_observation case_id thread_id (e ∷ events) = do
  c ← collect (e ∷ events) (record { metadata = none; result = none; approval = none })
  if is_thread c.metadata thread_id
      then terminal_observation case_id thread_id (event_types (e ∷ events)) c.result c.approval
      else err protocol_error

pub record LiveAgentCaseResult : Type 0 where
  pub case_id : Text
  pub public_contract_passed : Bool
  pub public_contract_failures : List Failure
  pub required_facts_passed : Bool
  pub missing_required_facts : List Text

unfoldable pub public_contract_failures_of :
    AgentEvaluationCase → LiveAgentObservation → List Failure
unfolding list_is
public_contract_failures_of case o =
    let expected = case.deterministic in
    failing (not (text_eq o.case_id case.case_id)) case_id_failure (
      failing (not (intent_is o.intent expected.intent)) intent_failure (
        failing (not (outcome_is o.outcome expected.outcome)) outcome_failure (
          failing (not (option_is o.order_id expected.order_id)) order_id_failure (
            failing (not (list_is text_eq o.source_document_ids expected.source_document_ids))
              source_document_ids_failure []))))

-- `public_fact_evidence`
unfoldable pub public_fact_evidence : LiveAgentObservation → Text
unfolding join_lines
public_fact_evidence o = join_lines (o.answer ∷ get_or o.order_id [] ∷ o.source_document_ids)

unfoldable pub evaluate_live_agent_case :
    AgentEvaluationCase → LiveAgentObservation → LiveAgentCaseResult
evaluate_live_agent_case case o =
    let failures = public_contract_failures_of case o in
    let missing = missing_facts case.required_facts (public_fact_evidence o) in
    record {
      case_id = case.case_id;
      public_contract_passed = is_empty failures;
      public_contract_failures = failures;
      required_facts_passed = is_empty missing;
      missing_required_facts = missing;
    }
