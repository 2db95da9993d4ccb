-- ===== src/Evaluation/Repeated.antt =====
-- The conclusion from several controlled runs of each case:
-- agent-service/src/agent_service/evaluation/stability.py, with a rate as a fraction.
pub mod Gates
use enterprise_support_agent.Base.{
  ℕ, Bool, List, [], ◌∷◌, if◌then◌else◌, Result, ok, err, ◌>>=◌, ◌&&◌, ◌==◌, leb, not, is_empty,
  all, length,
}
use enterprise_support_agent.Base.Text.{Text, text_eq}
use enterprise_support_agent.Domain.{Error, value_error, key_error, zero_division_error}
use enterprise_support_agent.Evaluation.Cases.{
  AgentEvaluationCase, AgentEvaluationCaseResult, RiskLevel, standard, critical, is_unique,
}
use enterprise_support_agent.Evaluation.Suite.{case_ids}
use enterprise_support_agent.Evaluation.Stability.{
  Rate, at_least, always, is_rate, count_if, sum_of, same_set, is_critical,
}

pub record AgentStabilityPolicy : Type 0 where
  pub runs_per_case : ℕ
  pub standard_required_facts_min_rate : Rate
  pub overall_required_facts_min_rate : Rate

-- The bounds of its fields.
unfoldable pub is_stability_policy : AgentStabilityPolicy → Bool
is_stability_policy p =
    leb 2 p.runs_per_case
    && is_rate p.standard_required_facts_min_rate
    && is_rate p.overall_required_facts_min_rate

pub record AgentCaseStabilityResult : Type 0 where
  pub case_id : Text
  pub risk_level : RiskLevel
  pub total_runs : ℕ
  pub deterministic_passed_runs : ℕ
  pub deterministic_pass_rate : Rate
  pub required_facts_passed_runs : ℕ
  pub required_facts_pass_rate : Rate
  pub passed : Bool

pub record AgentStabilitySummary : Type 0 where
  pub total_cases : ℕ
  pub total_runs : ℕ
  pub deterministic_pass_rate : Rate
  pub required_facts_pass_rate : Rate
  pub critical_cases : ℕ
  pub critical_passed_cases : ℕ
  pub passed : Bool
  pub cases : List AgentCaseStabilityResult

abbrev repeated_threshold : AgentStabilityPolicy → RiskLevel → Rate
repeated_threshold policy standard = policy.standard_required_facts_min_rate
repeated_threshold policy critical = always

-- The result of a case whose runs were checked.
unfoldable pub case_stability :
    AgentEvaluationCase
    → List AgentEvaluationCaseResult
    → AgentStabilityPolicy
    → AgentCaseStabilityResult
unfolding count_if
case_stability case results policy =
    let deterministic_passed = count_if (λ r. r.deterministic_passed) results in
    let facts_passed = count_if (λ r. r.required_facts_passed) results in
    let deterministic_rate : Rate = record {
      passed = deterministic_passed;
      total = length results;
    } in
    let facts_rate : Rate = record { passed = facts_passed; total = length results } in
    record {
      case_id = case.case_id;
      risk_level = case.risk_level;
      total_runs = length results;
      deterministic_passed_runs = deterministic_passed;
      deterministic_pass_rate = deterministic_rate;
      required_facts_passed_runs = facts_passed;
      required_facts_pass_rate = facts_rate;
      passed =
          at_least deterministic_rate always
          && at_least facts_rate (repeated_threshold policy case.risk_level);
    }

-- `_evaluate_case_stability`
unfoldable pub repeated_case_stability :
    AgentEvaluationCase
    → List AgentEvaluationCaseResult
    → AgentStabilityPolicy
    → Result Error AgentCaseStabilityResult
repeated_case_stability case results policy =
    if not (length results == policy.runs_per_case)
    then err value_error
    else if not (all (λ r. text_eq r.case_id case.case_id) results)
    then err value_error
    else if is_empty results
    then err zero_division_error
    else ok (case_stability case results policy)

-- A dictionary of results, its keys in order, and `repeated_results[case_id]`.
abbrev pub RepeatedResults : Type 0
RepeatedResults = List (Text × List AgentEvaluationCaseResult)

abbrev pub repeated_ids : RepeatedResults → List Text
repeated_ids [] = []
repeated_ids ((name, results) ∷ rest) = name ∷ repeated_ids rest

unfoldable pub results_for : Text → RepeatedResults → Result Error (List AgentEvaluationCaseResult)
results_for case_id [] = err key_error
results_for case_id ((name, results) ∷ rest) =
    let later = results_for case_id rest in if text_eq case_id name then ok results else later

-- `case_summaries`
unfoldable pub case_summaries :
    RepeatedResults
    → AgentStabilityPolicy
    → List AgentEvaluationCase
    → Result Error (List AgentCaseStabilityResult)
unfolding repeated_case_stability results_for
case_summaries repeated policy [] = ok []
case_summaries repeated policy (case ∷ cases) = do
  results ← results_for case.case_id repeated
  summary ← repeated_case_stability case results policy
  summaries ← case_summaries repeated policy cases
  ok (summary ∷ summaries)

-- The summary of the results of all cases, `total_cases` of them.
unfoldable pub repeated_summary :
    ℕ → AgentStabilityPolicy → List AgentCaseStabilityResult → AgentStabilitySummary
unfolding count_if sum_of
repeated_summary total_cases policy results =
    let total_runs = sum_of (λ r. r.total_runs) results in
    let deterministic_passed = sum_of (λ r. r.deterministic_passed_runs) results in
    let facts_passed = sum_of (λ r. r.required_facts_passed_runs) results in
    let facts_rate : Rate = record { passed = facts_passed; total = total_runs } in
    record {
      total_cases = total_cases;
      total_runs = total_runs;
      deterministic_pass_rate = record { passed = deterministic_passed; total = total_runs };
      required_facts_pass_rate = facts_rate;
      critical_cases = count_if (λ r. is_critical r.risk_level) results;
      critical_passed_cases = count_if (λ r. is_critical r.risk_level && r.passed) results;
      passed =
          all (λ r. r.passed) results && at_least facts_rate policy.overall_required_facts_min_rate;
      cases = results;
    }

unfoldable pub evaluate_agent_stability :
    List AgentEvaluationCase
    → RepeatedResults
    → AgentStabilityPolicy
    → Result Error AgentStabilitySummary
unfolding case_summaries
evaluate_agent_stability cases repeated policy =
    if is_empty cases
    then err value_error
    else if not (is_unique text_eq (case_ids cases))
    then err value_error
    else if not (same_set (repeated_ids repeated) (case_ids cases))
    then err value_error
    else (do
      results ← case_summaries repeated policy cases
      ok (repeated_summary (length cases) policy results))
