-- ===== src/Evaluation/Report.antt =====
-- The reports: `build_live_agent_evaluation_report` of
-- agent-service/src/agent_service/evaluation/live_report.py and evaluation/report.py, without their
-- times and the names of provider and model, which are texts that must not be empty.
pub mod Gates
use enterprise_support_agent.Base.{
  ℕ, zero, suc, Bool, true, false, Option, none, some, List, [], ◌∷◌, ◌≡◌, refl, arith, map,
  if◌then◌else◌, Result, ok, err, ◌>>=◌, ◌&&◌, ◌||◌, ◌==◌, leb, not, is_empty, all, length,
}
use enterprise_support_agent.Base.Text.{Text}
use enterprise_support_agent.Domain.{Error, value_error, validation_error}
use enterprise_support_agent.Evaluation.Cases.{
  AgentEvaluationCase, AgentEvaluationObservation, AgentEvaluationCaseResult, Failure,
  evaluate_agent_case,
}
use enterprise_support_agent.Evaluation.Suite.{
  LiveAgentRunEvidence, LiveAgentRunRecord, LiveAgentSuiteResult, matched_facts,
}
use enterprise_support_agent.Evaluation.Stability.{
  Rate, LiveAgentStabilityPolicy, LiveStabilitySummary, count_if, evaluate_live_agent_stability,
}

pub data Status : Type 0 where
  passed failed aborted : Status

abbrev pub is_passed : Status → Bool
is_passed passed = true
is_passed _ = false

-- The evidence report has the fields of the evidence.
pub record LiveRunReport : Type 0 where
  pub case_id : Text
  pub run_number : ℕ
  pub public_contract_passed : Bool
  pub required_facts_passed : Bool
  pub error_code : Option Text
  pub evidence : Option LiveAgentRunEvidence

-- The stability report has the fields of the summary.
pub record LiveAgentEvaluationReport : Type 0 where
  pub status : Status
  pub planned_runs : ℕ
  pub completed_runs : ℕ
  pub abort_code : Option Text
  pub ci_passed : Bool
  pub stability : Option LiveStabilitySummary
  pub runs : List LiveRunReport

abbrev run_report : LiveAgentRunRecord → LiveRunReport
run_report run = record {
  case_id = run.case_id;
  run_number = run.run_number;
  public_contract_passed = run.result.public_contract_passed;
  required_facts_passed = run.result.required_facts_passed;
  error_code = run.error_code;
  evidence = run.evidence;
}

-- The status and the stability report.
unfoldable pub live_status :
    List AgentEvaluationCase
    → LiveAgentSuiteResult
    → LiveAgentStabilityPolicy
    → Result Error (Status × Option LiveStabilitySummary)
live_status cases suite policy = if suite.aborted then ok (aborted, none) else (do
  summary ← evaluate_live_agent_stability cases suite policy
  ok (if summary.passed then passed else failed, some summary))

-- The bounds of the fields of `LiveAgentEvaluationReport` and of its runs.
unfoldable pub is_report : LiveAgentEvaluationReport → Bool
is_report report =
    leb 1 report.planned_runs
    && leb 1 report.completed_runs
    && not (is_empty report.runs)
    && all (λ run. leb 1 run.run_number) report.runs

unfoldable pub build_live_agent_evaluation_report :
    List AgentEvaluationCase
    → LiveAgentSuiteResult
    → Text
    → Text
    → LiveAgentStabilityPolicy
    → Result Error LiveAgentEvaluationReport
build_live_agent_evaluation_report cases suite model_provider model_name policy = do
  status ← live_status cases suite policy
  let report : LiveAgentEvaluationReport = record {
    status = status.0;
    planned_runs = suite.planned_runs;
    completed_runs = suite.completed_runs;
    abort_code = suite.abort_code;
    ci_passed = is_passed status.0;
    stability = status.1;
    runs = map run_report suite.runs;
  }
  if is_empty model_provider || is_empty model_name || not (is_report report)
      then err validation_error
      else ok report

-- `live_agent_evaluation_exit_code`
unfoldable pub live_agent_evaluation_exit_code : LiveAgentEvaluationReport → ℕ
live_agent_evaluation_exit_code report = if report.ci_passed then 0 else 1

pub record AgentEvaluationSummary : Type 0 where
  pub total_cases : ℕ
  pub deterministic_passed_cases : ℕ
  pub deterministic_pass_rate : Rate
  pub required_facts_passed_cases : ℕ
  pub required_facts_pass_rate : Rate
  pub quality_review_pending_cases : ℕ

-- `summarize_agent_results` of evaluation/agent.py
unfoldable pub summarize_agent_results :
    List AgentEvaluationCaseResult → Result Error AgentEvaluationSummary
summarize_agent_results [] = err value_error
summarize_agent_results (r ∷ rs) =
    let results = r ∷ rs in
    let deterministic = count_if (λ r. r.deterministic_passed) results in
    let facts = count_if (λ r. r.required_facts_passed) results in
    ok (record {
      total_cases = length results;
      deterministic_passed_cases = deterministic;
      deterministic_pass_rate = record { passed = deterministic; total = length results };
      required_facts_passed_cases = facts;
      required_facts_pass_rate = record { passed = facts; total = length results };
      quality_review_pending_cases = count_if (λ r. r.quality_review_required) results;
    })

-- `_both_ci_gates_pass`
unfoldable pub both_ci_gates_pass : AgentEvaluationSummary → Bool
both_ci_gates_pass summary =
    summary.deterministic_passed_cases == summary.total_cases
    && summary.required_facts_passed_cases == summary.total_cases

-- A case's report; `evidence` is the observation that its evidence is taken from, with the facts
-- that it matched.
pub record AgentCaseReport : Type 0 where
  pub result : AgentEvaluationCaseResult
  pub evidence : AgentEvaluationObservation
  pub matched_required_facts : List Text

-- `_build_case_report`
unfoldable pub build_case_report :
    AgentEvaluationCase → AgentEvaluationObservation → AgentEvaluationCaseResult → AgentCaseReport
build_case_report case observation result = record {
  result = result;
  evidence = observation;
  matched_required_facts = matched_facts case.required_facts result.missing_required_facts;
}

-- The results of the loop over `zip(cases, observations, strict=True)`, with the cases' reports.
unfoldable pub evaluate_cases :
    List AgentEvaluationCase
    → List AgentEvaluationObservation
    → List (AgentEvaluationCaseResult × AgentCaseReport)
evaluate_cases (case ∷ cases) (o ∷ os) =
    let result = evaluate_agent_case case o in
    (result, build_case_report case o result) ∷ evaluate_cases cases os
evaluate_cases _ _ = []

abbrev pub results_in :
    List (AgentEvaluationCaseResult × AgentCaseReport) → List AgentEvaluationCaseResult
results_in [] = []
results_in ((result, report) ∷ rs) = result ∷ results_in rs

abbrev pub reports_in : List (AgentEvaluationCaseResult × AgentCaseReport) → List AgentCaseReport
reports_in [] = []
reports_in ((result, report) ∷ rs) = report ∷ reports_in rs

pub record AgentEvaluationReport : Type 0 where
  pub summary : AgentEvaluationSummary
  pub ci_passed : Bool
  pub cases : List AgentCaseReport

unfoldable pub build_agent_evaluation_report :
    List AgentEvaluationCase
    → List AgentEvaluationObservation
    → Text
    → Text
    → Result Error AgentEvaluationReport
build_agent_evaluation_report cases observations model_provider model_name =
    if not (length cases == length observations) || is_empty cases then err value_error else (do
      let evaluated = evaluate_cases cases observations
      summary ← summarize_agent_results (results_in evaluated)
      if is_empty model_provider || is_empty model_name
          then err validation_error
          else ok (record {
            summary = summary;
            ci_passed = both_ci_gates_pass summary;
            cases = reports_in evaluated;
          }))

-- `agent_evaluation_exit_code`
unfoldable pub agent_evaluation_exit_code : AgentEvaluationReport → ℕ
agent_evaluation_exit_code report = if report.ci_passed then 0 else 1
