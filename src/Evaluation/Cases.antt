-- ===== src/Evaluation/Cases.antt =====
-- agent-service/src/agent_service/evaluation/agent.py: cases, observations of a controlled run, and
-- their comparison. The messages of failures are left out: a failure is what it is about.
pub mod Verdict
use enterprise_support_agent.Base.{
  ℕ, zero, suc, ◌+◌, Bool, true, false, Option, none, some, List, [], ◌∷◌, ◌++◌, ◌≡◌, refl, arith,
  if◌then◌else◌, Result, ok, err, ◌>>=◌, ◌>>◌, ◌&&◌, ◌||◌, ◌==◌, not, is_empty, length,
}
use enterprise_support_agent.Base.Text.{Text, text_eq}
use enterprise_support_agent.Domain.{Error, value_error, validation_error, IntentType, intent_is}
use enterprise_support_agent.Graph.Routing.{
  NodeName, analyze_intent, request_clarification, unsupported, query_order, order_not_found,
  generate_answer, request_refund_approval, submit_refund, retrieve_knowledge,
  generate_knowledge_answer, save_turn,
}

pub record ExpectedCallCounts : Type 0 where
  pub intent_analysis : ℕ
  pub order_lookup : ℕ
  pub knowledge_retrieval : ℕ
  pub order_answer_generation : ℕ
  pub knowledge_answer_generation : ℕ
  pub refund_submission : ℕ

-- "reply" and "approval_required"
pub data ExpectedOutcome : Type 0 where
  replies asks_approval : ExpectedOutcome

pub data RiskLevel : Type 0 where
  standard critical : RiskLevel

pub record DeterministicExpectations : Type 0 where
  pub intent : IntentType
  pub outcome : ExpectedOutcome
  pub expected_nodes : List NodeName
  pub forbidden_nodes : List NodeName
  pub calls : ExpectedCallCounts
  pub order_id : Option Text
  pub source_document_ids : List Text

-- A case; `required_facts` and `rubric` are those of `quality`.
pub record AgentEvaluationCase : Type 0 where
  pub case_id : Text
  pub risk_level : RiskLevel
  pub question : Text
  pub tenant_id : Text
  pub user_id : Text
  pub deterministic : DeterministicExpectations
  pub required_facts : List Text
  pub rubric : List Text

pub record OrderLookupObservation : Type 0 where
  pub tenant_id : Text
  pub user_id : Text
  pub order_id : Text

-- A retrieval is observed by its tenant.
pub record AgentEvaluationObservation : Type 0 where
  pub case_id : Text
  pub intent : IntentType
  pub outcome : ExpectedOutcome
  pub visited_nodes : List NodeName
  pub calls : ExpectedCallCounts
  pub order_id : Option Text
  pub source_document_ids : List Text
  pub answer : Text
  pub order_lookups : List OrderLookupObservation
  pub knowledge_retrievals : List Text

abbrev node_code : NodeName → ℕ
node_code analyze_intent = 0
node_code request_clarification = 1
node_code unsupported = 2
node_code query_order = 3
node_code order_not_found = 4
node_code generate_answer = 5
node_code request_refund_approval = 6
node_code submit_refund = 7
node_code retrieve_knowledge = 8
node_code generate_knowledge_answer = 9
node_code save_turn = 10

-- `a == b` on names of nodes.
abbrev pub node_is : NodeName → NodeName → Bool
node_is a b = node_code a == node_code b

abbrev pub outcome_is : ExpectedOutcome → ExpectedOutcome → Bool
outcome_is replies replies = true
outcome_is asks_approval asks_approval = true
outcome_is _ _ = false

module _ {ℓ} {A : Type ℓ} (eq : A → A → Bool) where
  -- `x in xs`
  unfoldable pub member : A → List A → Bool
  member x [] = false
  member x (y ∷ ys) = eq x y || member x ys

  -- `len(set(xs)) == len(xs)`
  unfoldable pub is_unique : List A → Bool
  unfolding member
  is_unique [] = true
  is_unique (x ∷ xs) = not (member x xs) && is_unique xs

  -- `xs == ys`
  unfoldable pub list_is : List A → List A → Bool
  list_is [] [] = true
  list_is [] (y ∷ ys) = false
  list_is (x ∷ xs) [] = false
  list_is (x ∷ xs) (y ∷ ys) = eq x y && list_is xs ys

  -- `set(xs) & set(ys)` is not empty.
  unfoldable pub intersects : List A → List A → Bool
  unfolding member
  intersects [] ys = false
  intersects (x ∷ xs) ys = member x ys || intersects xs ys

abbrev pub option_is : Option Text → Option Text → Bool
option_is none none = true
option_is (some a) (some b) = text_eq a b
option_is _ _ = false

abbrev pub counts_are : ExpectedCallCounts → ExpectedCallCounts → Bool
counts_are a b =
    a.intent_analysis == b.intent_analysis
    && a.order_lookup == b.order_lookup
    && a.knowledge_retrieval == b.knowledge_retrieval
    && a.order_answer_generation == b.order_answer_generation
    && a.knowledge_answer_generation == b.knowledge_answer_generation
    && a.refund_submission == b.refund_submission

abbrev raise_if : Bool → Result Error (Unit {0})
raise_if b = if b then err validation_error else ok tt

-- `validate_nodes_and_outcome`, with the least length of `expected_nodes`.
unfoldable pub validate_nodes_and_outcome :
    DeterministicExpectations → Result Error DeterministicExpectations
unfolding is_unique intersects member
validate_nodes_and_outcome d = do
  raise_if (is_empty d.expected_nodes)
  raise_if (not (is_unique node_is d.expected_nodes))
  raise_if (intersects node_is d.expected_nodes d.forbidden_nodes)
  raise_if (
      outcome_is d.outcome asks_approval
      && not (member node_is request_refund_approval d.expected_nodes))
  raise_if (
      not (is_empty d.source_document_ids)
      && not (member node_is retrieve_knowledge d.expected_nodes))
  ok d

-- `validate_call_evidence`
unfoldable pub validate_call_evidence :
    AgentEvaluationObservation → Result Error AgentEvaluationObservation
validate_call_evidence o = do
  raise_if (not (o.calls.order_lookup == length o.order_lookups))
  raise_if (not (o.calls.knowledge_retrieval == length o.knowledge_retrievals))
  ok o

-- What a failure is about; `run_error` has the code of the error.
pub data Failure : Type 0 where
  case_id_failure intent_failure outcome_failure visited_nodes_failure : Failure
  forbidden_nodes_failure calls_failure order_id_failure source_document_ids_failure : Failure
  order_lookup_failure knowledge_retrieval_failure : Failure
  run_error : Text → Failure

pub record AgentEvaluationCaseResult : Type 0 where
  pub case_id : Text
  pub deterministic_passed : Bool
  pub deterministic_failures : List Failure
  pub required_facts_passed : Bool
  pub missing_required_facts : List Text
  pub quality_review_required : Bool

abbrev starts_with : Text → Text → Bool
starts_with [] s = true
starts_with (c ∷ p) [] = false
starts_with (c ∷ p) (d ∷ s) = c == d && starts_with p s

-- `fact in text`
unfoldable pub occurs_in : Text → Text → Bool
occurs_in fact [] = is_empty fact
occurs_in fact (c ∷ s) = starts_with fact (c ∷ s) || occurs_in fact s

-- The facts that are not in the text.
unfoldable pub missing_facts : List Text → Text → List Text
missing_facts [] s = []
missing_facts (fact ∷ facts) s =
    let rest = missing_facts facts s in if occurs_in fact s then rest else fact ∷ rest

-- The loops over `order_lookups` and `knowledge_retrievals`.
unfoldable pub untrusted_lookup : Text → Text → List OrderLookupObservation → Bool
untrusted_lookup tenant_id user_id [] = false
untrusted_lookup tenant_id user_id (lookup ∷ lookups) =
    not (text_eq lookup.tenant_id tenant_id)
    || not (text_eq lookup.user_id user_id)
    || untrusted_lookup tenant_id user_id lookups

unfoldable pub untrusted_retrieval : Text → List Text → Bool
untrusted_retrieval tenant_id [] = false
untrusted_retrieval tenant_id (t ∷ ts) =
    not (text_eq t tenant_id) || untrusted_retrieval tenant_id ts

-- `failures.append(failure)` under a condition, before the later ones.
abbrev pub failing : Bool → Failure → List Failure → List Failure
failing b failure rest = if b then failure ∷ rest else rest

unfoldable pub deterministic_failures_of :
    AgentEvaluationCase → AgentEvaluationObservation → List Failure
deterministic_failures_of case o =
    let expected = case.deterministic in
    failing (not (text_eq o.case_id case.case_id)) case_id_failure (
      failing (not (intent_is o.intent expected.intent)) intent_failure (
        failing (not (outcome_is o.outcome expected.outcome)) outcome_failure (
          failing (not (list_is node_is o.visited_nodes expected.expected_nodes))
            visited_nodes_failure
            (failing (intersects node_is o.visited_nodes expected.forbidden_nodes)
              forbidden_nodes_failure
              (failing (not (counts_are o.calls expected.calls)) calls_failure (
                failing (not (option_is o.order_id expected.order_id)) order_id_failure (
                  failing (not (list_is text_eq o.source_document_ids expected.source_document_ids))
                    source_document_ids_failure
                    (failing (untrusted_lookup case.tenant_id case.user_id o.order_lookups)
                      order_lookup_failure
                      (failing (untrusted_retrieval case.tenant_id o.knowledge_retrievals)
                        knowledge_retrieval_failure [])))))))))

-- `evaluate_agent_case`
unfoldable pub evaluate_agent_case :
    AgentEvaluationCase → AgentEvaluationObservation → AgentEvaluationCaseResult
evaluate_agent_case case o =
    let failures = deterministic_failures_of case o in
    let missing = missing_facts case.required_facts o.answer in
    record {
      case_id = case.case_id;
      deterministic_passed = is_empty failures;
      deterministic_failures = failures;
      required_facts_passed = is_empty missing;
      missing_required_facts = missing;
      quality_review_required = not (is_empty case.required_facts) || not (is_empty case.rubric);
    }
