-- ===== src/Tests/Evaluation.antt =====
-- A suite of two cases against a runner that always observes the same, and reports.
use enterprise_support_agent.Base.{
  ℕ, suc, true, false, none, some, List, [], ◌∷◌, ◌≡◌, refl, arith, Result, ok, err, All,
}
use enterprise_support_agent.Base.Text.{lit, text_eq}
use enterprise_support_agent.Domain.{order_query, AgentResult, Error}
use enterprise_support_agent.Graph.Routing.{analyze_intent, query_order, generate_answer, save_turn}
use enterprise_support_agent.Service.Stream.{stream_graph}
use enterprise_support_agent.Api.Events.{
  metadata_event, result_event, done_event, event_types, encode_agent_event_stream,
}
use enterprise_support_agent.Api.Sse.{join_lines}
use enterprise_support_agent.Evaluation.Cases.{
  AgentEvaluationCase, AgentEvaluationObservation, standard, critical, replies, ExpectedCallCounts,
  is_unique, member, list_is, intersects, occurs_in, missing_facts, untrusted_lookup,
  untrusted_retrieval, deterministic_failures_of, evaluate_agent_case,
}
use enterprise_support_agent.Evaluation.Live.{
  LiveError, LiveAgentObservation, public_contract_failures_of, public_fact_evidence,
  evaluate_live_agent_case, build_observation,
}
use enterprise_support_agent.Evaluation.Live.Streamed.{
  IsResult, observed, build_observation-stream_graph,
}
use enterprise_support_agent.Evaluation.Suite.{
  LiveAgentSuiteResult, LiveAgentRunRecord, results_of, matched_facts, build_run_evidence, round_of,
  plan, case_ids, run_all, run_live_agent_suite,
}
use enterprise_support_agent.Evaluation.Suite.Runs.{run_live_agent_suite-completes}
use enterprise_support_agent.Evaluation.Stability.{
  default_policy, LiveStabilitySummary, evaluate_live_agent_stability, count_if, sum_of,
  case_results, evaluate_case_stability, same_set, summary_of,
}
use enterprise_support_agent.Evaluation.Stability.Complete.{evaluate_live_agent_stability-returns}
use enterprise_support_agent.Evaluation.Stability.Gates.{CasePassed}
use enterprise_support_agent.Evaluation.Report.{
  failed, LiveAgentEvaluationReport, AgentEvaluationReport, build_live_agent_evaluation_report,
  live_agent_evaluation_exit_code, live_status, is_report, build_agent_evaluation_report,
  agent_evaluation_exit_code, evaluate_cases, summarize_agent_results, both_ci_gates_pass,
  build_case_report,
}
use enterprise_support_agent.Evaluation.Report.Gates.{
  live_exit_code-passed, AllExpected, exit_code-AllExpected,
}
use enterprise_support_agent.Tests.Service.{events}
use enterprise_support_agent.Tests.Api.{ends_well}

abbrev counts : ExpectedCallCounts
counts = record {
  intent_analysis = 1;
  order_lookup = 1;
  knowledge_retrieval = 0;
  order_answer_generation = 1;
  knowledge_answer_generation = 0;
  refund_submission = 0;
}

abbrev first_case : AgentEvaluationCase
first_case = record {
  case_id = lit "c1";
  risk_level = critical;
  question = lit "where?";
  tenant_id = lit "acme";
  user_id = lit "ann";
  deterministic = record {
    intent = order_query;
    outcome = replies;
    expected_nodes = analyze_intent ∷ query_order ∷ generate_answer ∷ save_turn ∷ [];
    forbidden_nodes = [];
    calls = counts;
    order_id = some (lit "O-1");
    source_document_ids = [];
  };
  required_facts = lit "paid" ∷ [];
  rubric = [];
}

abbrev second_case : AgentEvaluationCase
second_case = record first_case { case_id = lit "c2"; risk_level = standard }

abbrev cases : List AgentEvaluationCase
cases = first_case ∷ second_case ∷ []

abbrev seen : AgentEvaluationCase → LiveAgentObservation
seen case = record {
  case_id = case.case_id;
  outcome = replies;
  intent = order_query;
  order_id = some (lit "O-1");
  source_document_ids = [];
  answer = lit "it is paid";
  event_types = metadata_event ∷ result_event ∷ done_event ∷ [];
}

-- The runner counts its runs.
abbrev run_case : AgentEvaluationCase → ℕ → Result LiveError LiveAgentObservation × ℕ
run_case case n = (ok (seen case), suc n)

names_differ : is_unique text_eq (case_ids cases) ≡ true
unfolding is_unique member text_eq
names_differ = refl

run_live_agent_suite-completes_example :
    (suite : LiveAgentSuiteResult) × ((run_live_agent_suite run_case cases 3 0).0 ≡ ok suite)
    × (suite.aborted ≡ false)
    × (suite.completed_runs ≡ 6)
run_live_agent_suite-completes_example =
    run_live_agent_suite-completes run_case cases 3 0 refl (omega arith) names_differ (λ case v. tt)

-- The run of a case, and all six.
abbrev run : ℕ → AgentEvaluationCase → LiveAgentRunRecord
run run_number case = record {
  case_id = case.case_id;
  run_number = run_number;
  result = record {
    case_id = case.case_id;
    public_contract_passed = true;
    public_contract_failures = [];
    required_facts_passed = true;
    missing_required_facts = [];
  };
  error_code = none;
  evidence = some (record {
    intent = order_query;
    outcome = replies;
    order_id = some (lit "O-1");
    source_document_ids = [];
    event_types = metadata_event ∷ result_event ∷ done_event ∷ [];
    matched_required_facts = lit "paid" ∷ [];
  });
}

abbrev suite : LiveAgentSuiteResult
suite = record {
  planned_runs = 6;
  completed_runs = 6;
  aborted = false;
  abort_code = none;
  runs =
      run 1 first_case
      ∷ run 1 second_case
      ∷ run 2 first_case
      ∷ run 2 second_case
      ∷ run 3 first_case
      ∷ run 3 second_case
      ∷ [];
}

completes : (run_live_agent_suite run_case cases 3 0).0 ≡ ok suite
unfolding run_live_agent_suite is_unique member text_eq run_all plan round_of
    evaluate_live_agent_case public_contract_failures_of public_fact_evidence missing_facts
    occurs_in list_is join_lines build_run_evidence matched_facts
completes = refl

evaluate_live_agent_stability-returns_example :
    (summary : LiveStabilitySummary) × (evaluate_live_agent_stability cases suite default_policy
      ≡ ok summary)
    × (summary.total_cases ≡ 2)
    × (summary.total_runs ≡ 6)
unfolding default_policy
evaluate_live_agent_stability-returns_example =
    evaluate_live_agent_stability-returns run_case cases 3 0 suite completes default_policy refl
      refl

abbrev report_or : Result Error LiveAgentEvaluationReport → LiveAgentEvaluationReport
report_or (ok report) = report
report_or (err e) = record {
  status = failed;
  planned_runs = 0;
  completed_runs = 0;
  abort_code = none;
  ci_passed = false;
  stability = none;
  runs = [];
}

live_report : LiveAgentEvaluationReport
live_report =
    report_or
      (build_live_agent_evaluation_report cases suite (lit "provider") (lit "model") default_policy)

builds_live :
    build_live_agent_evaluation_report cases suite (lit "provider") (lit "model") default_policy
    ≡ ok live_report
unfolding live_report build_live_agent_evaluation_report live_status evaluate_live_agent_stability
    is_report case_results evaluate_case_stability results_of same_set summary_of count_if sum_of
    default_policy member text_eq
builds_live = refl

exits_live : live_agent_evaluation_exit_code live_report ≡ 0
unfolding live_report build_live_agent_evaluation_report live_status evaluate_live_agent_stability
    is_report case_results evaluate_case_stability results_of same_set summary_of count_if sum_of
    default_policy member text_eq live_agent_evaluation_exit_code
exits_live = refl

live_exit_code-passed_example :
    (suite.aborted ≡ false)
    × All (λ r. r.result.public_contract_passed ≡ true) suite.runs
    × All (CasePassed suite.runs) cases
live_exit_code-passed_example =
    live_exit_code-passed cases suite (lit "provider") (lit "model") default_policy live_report
      builds_live exits_live

abbrev observation : AgentEvaluationObservation
observation = record {
  case_id = lit "c1";
  intent = order_query;
  outcome = replies;
  visited_nodes = analyze_intent ∷ query_order ∷ generate_answer ∷ save_turn ∷ [];
  calls = counts;
  order_id = some (lit "O-1");
  source_document_ids = [];
  answer = lit "it is paid";
  order_lookups = record { tenant_id = lit "acme"; user_id = lit "ann"; order_id = lit "O-1" } ∷ [];
  knowledge_retrievals = [];
}

abbrev agent_report_or : Result Error AgentEvaluationReport → AgentEvaluationReport
agent_report_or (ok report) = report
agent_report_or (err e) = record {
  summary = record {
    total_cases = 0;
    deterministic_passed_cases = 0;
    deterministic_pass_rate = record { passed = 0; total = 0 };
    required_facts_passed_cases = 0;
    required_facts_pass_rate = record { passed = 0; total = 0 };
    quality_review_pending_cases = 0;
  };
  ci_passed = false;
  cases = [];
}

agent_report : AgentEvaluationReport
agent_report = agent_report_or (
    build_agent_evaluation_report (first_case ∷ []) (observation ∷ []) (lit "provider")
      (lit "model"))

builds :
    build_agent_evaluation_report
      (first_case ∷ [])
      (observation ∷ [])
      (lit "provider")
      (lit "model")
    ≡ ok agent_report
unfolding agent_report build_agent_evaluation_report evaluate_cases evaluate_agent_case
    deterministic_failures_of missing_facts occurs_in list_is member intersects untrusted_lookup
    untrusted_retrieval summarize_agent_results count_if both_ci_gates_pass build_case_report
    text_eq matched_facts
builds = refl

exits : agent_evaluation_exit_code agent_report ≡ 0
unfolding agent_report build_agent_evaluation_report evaluate_cases evaluate_agent_case
    deterministic_failures_of missing_facts occurs_in list_is member intersects untrusted_lookup
    untrusted_retrieval summarize_agent_results count_if both_ci_gates_pass build_case_report
    text_eq matched_facts agent_evaluation_exit_code
exits = refl

exit_code-AllExpected_example : AllExpected (first_case ∷ []) (observation ∷ [])
exit_code-AllExpected_example =
    exit_code-AllExpected (first_case ∷ []) (observation ∷ []) (lit "provider") (lit "model")
      agent_report builds exits

build_observation-stream_graph_example :
    let sent = encode_agent_event_stream (lit "t1") (stream_graph none events none).0 none in
    (result : AgentResult) × IsResult (stream_graph none events none).0 result
    × (build_observation (lit "c1") (lit "t1") sent
        ≡ ok (observed (lit "c1") (event_types sent) result))
build_observation-stream_graph_example =
    build_observation-stream_graph (lit "c1") (lit "t1") none events none ends_well
