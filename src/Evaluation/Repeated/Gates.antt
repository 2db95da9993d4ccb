-- ===== src/Evaluation/Repeated/Gates.antt =====
-- What a passed summary of controlled runs says of the runs.
use enterprise_support_agent.Base.{
  true, List, [], ◌∷◌, ◌≡◌, arith, ok, all, All, length, Result-cases, inl, inr,
}
use enterprise_support_agent.Base.Text.{text_eq}
use enterprise_support_agent.Evaluation.Cases.{AgentEvaluationCase, AgentEvaluationCaseResult}
use enterprise_support_agent.Evaluation.Stability.{at_least}
use enterprise_support_agent.Evaluation.Stability.Gates.{count_if-all}
use enterprise_support_agent.Evaluation.Repeated.{
  AgentStabilityPolicy, AgentCaseStabilityResult, AgentStabilitySummary, RepeatedResults,
  case_stability, repeated_case_stability, results_for, case_summaries, repeated_summary,
  evaluate_agent_stability,
}

-- Every run of the case is there, is of the case and passed its deterministic checks.
abbrev RunsPassed : RepeatedResults → AgentStabilityPolicy → AgentEvaluationCase → Type 0
RunsPassed repeated policy case =
    (results : List AgentEvaluationCaseResult) × (results_for case.case_id repeated ≡ ok results)
    × (length results ≡ policy.runs_per_case)
    × (all (λ r. text_eq r.case_id case.case_id) results ≡ true)
    × (all (λ r. r.deterministic_passed) results ≡ true)

repeated_case_stability-passed :
    (case : AgentEvaluationCase) (results : List AgentEvaluationCaseResult)
    (policy : AgentStabilityPolicy) (summary : AgentCaseStabilityResult)
    → repeated_case_stability case results policy ≡ ok summary
    → summary.passed ≡ true
    → (length results ≡ policy.runs_per_case)
      × (all (λ r. text_eq r.case_id case.case_id) results ≡ true)
      × (all (λ r. r.deterministic_passed) results ≡ true)
unfolding repeated_case_stability case_stability
repeated_case_stability-passed case results policy summary h passed =
    (ground arith, ground arith, count_if-all (λ r. r.deterministic_passed) results (ground arith))

case_summaries-passed :
    (repeated : RepeatedResults) (policy : AgentStabilityPolicy) (cases : List AgentEvaluationCase)
    (summaries : List AgentCaseStabilityResult)
    → case_summaries repeated policy cases ≡ ok summaries
    → all (λ r. r.passed) summaries ≡ true
    → All (RunsPassed repeated policy) cases
unfolding case_summaries
case_summaries-passed repeated policy [] summaries h passed = tt
case_summaries-passed repeated policy (case ∷ cases) summaries h passed =
    elim (Result-cases (results_for case.case_id repeated)) [
      | inr (e, failed) ↦ absurd (ground arith)
      | inl (results, found) ↦ elim (Result-cases (repeated_case_stability case results policy)) [
        | inr (e, failed) ↦ absurd (ground arith)
        | inl (r, made) ↦ elim (Result-cases (case_summaries repeated policy cases)) [
          | inr (e, failed) ↦ absurd (ground arith)
          | inl (rs, rest) ↦
              let all_runs =
                repeated_case_stability-passed case results policy r made (ground arith) in
              (
                (results, found, all_runs.0, all_runs.1, all_runs.2),
                case_summaries-passed repeated policy cases rs rest (ground arith),
              )
        ]
      ]
    ]

-- If the stability of repeated runs passes, then every case has as many runs as the policy asks for,
-- all of that case and all with passed deterministic checks, and the overall rate of found facts
-- reaches the policy's.
evaluate_agent_stability-passed :
    (cases : List AgentEvaluationCase) (repeated : RepeatedResults) (policy : AgentStabilityPolicy)
    (summary : AgentStabilitySummary)
    → evaluate_agent_stability cases repeated policy ≡ ok summary
    → summary.passed ≡ true
    → All (RunsPassed repeated policy) cases
      × (at_least summary.required_facts_pass_rate policy.overall_required_facts_min_rate ≡ true)
unfolding evaluate_agent_stability repeated_summary
evaluate_agent_stability-passed cases repeated policy summary h passed =
    elim (Result-cases (case_summaries repeated policy cases)) [
      | inr (e, failed) ↦ absurd (ground arith)
      | inl (results, made) ↦
          (case_summaries-passed repeated policy cases results made (ground arith), ground arith)
    ]
