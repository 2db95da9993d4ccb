-- ===== src/Evaluation/Cases/Verdict.antt =====
-- What a case that passes says of its observation.
use enterprise_support_agent.Base.{
  Bool, true, false, Option, none, some, List, [], ◌∷◌, ◌≡◌, refl, ap, arith, is_empty, All,
}
use enterprise_support_agent.Base.Text.{Text, text_eq, text_eq_iff}
use enterprise_support_agent.Domain.{intent_is-eq}
use enterprise_support_agent.Graph.Routing.{NodeName}
use enterprise_support_agent.Evaluation.Cases.{
  ExpectedCallCounts, ExpectedOutcome, AgentEvaluationCase, AgentEvaluationObservation,
  OrderLookupObservation, node_is, outcome_is, option_is, counts_are, list_is, untrusted_lookup,
  untrusted_retrieval, deterministic_failures_of, occurs_in, missing_facts, evaluate_agent_case,
}

list_is-eq :
    {A : Type 0} (eq : A → A → Bool)
    → ((a b : A) → eq a b ≡ true → a ≡ b)
    → (xs ys : List A) → list_is eq xs ys ≡ true
    → xs ≡ ys
unfolding list_is
list_is-eq eq sound [] [] h = refl
list_is-eq eq sound [] (y ∷ ys) h = cc
list_is-eq eq sound (x ∷ xs) [] h = cc
list_is-eq eq sound (x ∷ xs) (y ∷ ys) h =
    let first = sound x y (ground arith) in
    let rest = list_is-eq eq sound xs ys (ground arith) in cc

node_is-eq : (a b : NodeName) → node_is a b ≡ true → a ≡ b
node_is-eq a b h = ground arith

option_is-eq : (a b : Option Text) → option_is a b ≡ true → a ≡ b
option_is-eq none none h = refl
option_is-eq none (some b) h = cc
option_is-eq (some a) none h = cc
option_is-eq (some a) (some b) h = ap some ((text_eq_iff a b).0 h)

outcome_is-eq : (a b : ExpectedOutcome) → outcome_is a b ≡ true → a ≡ b
outcome_is-eq a b h = ground arith

counts_are-eq : (a b : ExpectedCallCounts) → counts_are a b ≡ true → a ≡ b
counts_are-eq a b h = ground arith

-- The lookups are the user's of the tenant.
abbrev pub AreOwn : Text → Text → List OrderLookupObservation → Type 0
AreOwn tenant_id user_id =
    All (λ lookup. (lookup.tenant_id ≡ tenant_id) × (lookup.user_id ≡ user_id))

untrusted_lookup-AreOwn :
    (tenant_id user_id : Text) (lookups : List OrderLookupObservation)
    → untrusted_lookup tenant_id user_id lookups ≡ false
    → AreOwn tenant_id user_id lookups
unfolding untrusted_lookup
untrusted_lookup-AreOwn tenant_id user_id [] h = tt
untrusted_lookup-AreOwn tenant_id user_id (lookup ∷ lookups) h = (
  ground (arith, text_eq_iff lookup.tenant_id tenant_id, text_eq_iff lookup.user_id user_id),
  untrusted_lookup-AreOwn tenant_id user_id lookups (ground arith),
)

untrusted_retrieval-All :
    (tenant_id : Text) (retrievals : List Text)
    → untrusted_retrieval tenant_id retrievals ≡ false
    → All (λ t. t ≡ tenant_id) retrievals
unfolding untrusted_retrieval
untrusted_retrieval-All tenant_id [] h = tt
untrusted_retrieval-All tenant_id (t ∷ ts) h =
    (ground (arith, text_eq_iff t tenant_id), untrusted_retrieval-All tenant_id ts (ground arith))

missing_facts-All :
    (facts : List Text) (s : Text)
    → is_empty (missing_facts facts s) ≡ true
    → All (λ fact. occurs_in fact s ≡ true) facts
unfolding missing_facts
missing_facts-All [] s h = tt
missing_facts-All (fact ∷ facts) s h = (ground arith, missing_facts-All facts s (ground arith))

-- The observation is what the case expects, and its calls were made for the case's tenant and user.
abbrev pub IsExpected : AgentEvaluationCase → AgentEvaluationObservation → Type 0
IsExpected case o =
    (o.case_id ≡ case.case_id)
    × (o.intent ≡ case.deterministic.intent)
    × (o.outcome ≡ case.deterministic.outcome)
    × (o.visited_nodes ≡ case.deterministic.expected_nodes)
    × (o.calls ≡ case.deterministic.calls)
    × (o.order_id ≡ case.deterministic.order_id)
    × (o.source_document_ids ≡ case.deterministic.source_document_ids)
    × AreOwn case.tenant_id case.user_id o.order_lookups
    × All (λ t. t ≡ case.tenant_id) o.knowledge_retrievals

deterministic_failures_of-IsExpected :
    (case : AgentEvaluationCase) (o : AgentEvaluationObservation)
    → is_empty (deterministic_failures_of case o) ≡ true
    → IsExpected case o
unfolding deterministic_failures_of
deterministic_failures_of-IsExpected case o h =
    let d = case.deterministic in
    (
      (text_eq_iff o.case_id case.case_id).0 (ground arith),
      intent_is-eq o.intent d.intent (ground arith),
      outcome_is-eq o.outcome d.outcome (ground arith),
      list_is-eq node_is node_is-eq o.visited_nodes d.expected_nodes (ground arith),
      counts_are-eq o.calls d.calls (ground arith),
      option_is-eq o.order_id d.order_id (ground arith),
      list_is-eq text_eq (λ a b. (text_eq_iff a b).0) o.source_document_ids d.source_document_ids
          (ground arith),
      untrusted_lookup-AreOwn case.tenant_id case.user_id o.order_lookups (ground arith),
      untrusted_retrieval-All case.tenant_id o.knowledge_retrievals (ground arith),
    )

-- A case that passes its deterministic checks and its facts was observed as it expects: the intent,
-- the outcome, the nodes and the calls, the order, the sources in their order, calls only for the
-- case's tenant and user, and each required fact in the answer.
pub evaluate_agent_case-IsExpected :
    (case : AgentEvaluationCase) (o : AgentEvaluationObservation)
    → (evaluate_agent_case case o).deterministic_passed ≡ true
    → (evaluate_agent_case case o).required_facts_passed ≡ true
    → IsExpected case o × All (λ fact. occurs_in fact o.answer ≡ true) case.required_facts
unfolding evaluate_agent_case
evaluate_agent_case-IsExpected case o passed facts = (
  deterministic_failures_of-IsExpected case o passed,
  missing_facts-All case.required_facts o.answer facts,
)
