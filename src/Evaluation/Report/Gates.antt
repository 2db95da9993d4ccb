-- ===== src/Evaluation/Report/Gates.antt =====
-- What the exit code of a report says.
use enterprise_support_agent.Base.{
  true, false, List, [], ◌∷◌, ◌≡◌, arith, ok, all, length, All, Result-cases, inl, inr,
}
use enterprise_support_agent.Base.Text.{Text}
use enterprise_support_agent.Evaluation.Cases.{
  AgentEvaluationCase, AgentEvaluationObservation, AgentEvaluationCaseResult, occurs_in,
}
use enterprise_support_agent.Evaluation.Cases.Verdict.{IsExpected, evaluate_agent_case-IsExpected}
use enterprise_support_agent.Evaluation.Suite.{LiveAgentSuiteResult}
use enterprise_support_agent.Evaluation.Stability.{
  LiveAgentStabilityPolicy, evaluate_live_agent_stability,
}
use enterprise_support_agent.Evaluation.Stability.Gates.{
  CasePassed, count_if-all, evaluate_live_agent_stability-passed,
}
use enterprise_support_agent.Evaluation.Report.{
  LiveAgentEvaluationReport, live_status, build_live_agent_evaluation_report,
  live_agent_evaluation_exit_code, AgentEvaluationReport, AgentEvaluationSummary,
  summarize_agent_results, both_ci_gates_pass, evaluate_cases, results_in,
  build_agent_evaluation_report, agent_evaluation_exit_code,
}

-- A live report with exit code 0 comes of a suite that was not aborted, each of whose runs passed
-- the public contract, and in whose critical cases each run found all required facts.
pub live_exit_code-passed :
    (cases : List AgentEvaluationCase) (suite : LiveAgentSuiteResult)
    (model_provider model_name : Text) (policy : LiveAgentStabilityPolicy)
    (report : LiveAgentEvaluationReport)
    → build_live_agent_evaluation_report cases suite model_provider model_name policy ≡ ok report
    → live_agent_evaluation_exit_code report ≡ 0
    → (suite.aborted ≡ false)
      × All (λ run. run.result.public_contract_passed ≡ true) suite.runs
      × All (CasePassed suite.runs) cases
unfolding build_live_agent_evaluation_report live_agent_evaluation_exit_code live_status
live_exit_code-passed cases suite model_provider model_name policy report built exits =
    elim (Result-cases (evaluate_live_agent_stability cases suite policy)) [
      | inr (e, failed) ↦ absurd (ground arith)
      | inl (summary, concluded) ↦
          let (contract, by_case, _) =
            evaluate_live_agent_stability-passed cases suite policy summary concluded
              (ground arith) in
          (ground arith, contract, by_case)
    ]

-- Each case passed with its observation.
abbrev pub AllExpected : List AgentEvaluationCase → List AgentEvaluationObservation → Type 0
AllExpected [] [] = Unit
AllExpected (case ∷ cases) (o ∷ os) =
    IsExpected case o
    × All (λ fact. occurs_in fact o.answer ≡ true) case.required_facts
    × AllExpected cases os
AllExpected _ _ = ⊥

evaluate_cases-AllExpected :
    (cases : List AgentEvaluationCase) (os : List AgentEvaluationObservation)
    → length cases ≡ length os
    → all (λ r. r.deterministic_passed) (results_in (evaluate_cases cases os)) ≡ true
    → all (λ r. r.required_facts_passed) (results_in (evaluate_cases cases os)) ≡ true
    → AllExpected cases os
unfolding evaluate_cases
evaluate_cases-AllExpected [] [] same passed facts = tt
evaluate_cases-AllExpected [] (o ∷ os) same passed facts = omega (arith, same)
evaluate_cases-AllExpected (case ∷ cases) [] same passed facts = omega (arith, same)
evaluate_cases-AllExpected (case ∷ cases) (o ∷ os) same passed facts =
    let (expected, found) = evaluate_agent_case-IsExpected case o (ground arith) (ground arith) in
    (
      expected,
      found,
      evaluate_cases-AllExpected cases os (omega (arith, same)) (ground arith) (ground arith),
    )

summarize_agent_results-gates :
    (results : List AgentEvaluationCaseResult) (summary : AgentEvaluationSummary)
    → summarize_agent_results results ≡ ok summary
    → both_ci_gates_pass summary ≡ true
    → (all (λ r. r.deterministic_passed) results ≡ true)
      × (all (λ r. r.required_facts_passed) results ≡ true)
unfolding summarize_agent_results both_ci_gates_pass
summarize_agent_results-gates [] summary h passed = cc
summarize_agent_results-gates (r ∷ rs) summary h passed = (
  count_if-all (λ r. r.deterministic_passed) (r ∷ rs) (ground arith),
  count_if-all (λ r. r.required_facts_passed) (r ∷ rs) (ground arith),
)

-- A report of controlled runs with exit code 0 comes of observations that are, case by case, what
-- the cases expect, with all their facts.
pub exit_code-AllExpected :
    (cases : List AgentEvaluationCase) (os : List AgentEvaluationObservation)
    (model_provider model_name : Text) (report : AgentEvaluationReport)
    → build_agent_evaluation_report cases os model_provider model_name ≡ ok report
    → agent_evaluation_exit_code report ≡ 0
    → AllExpected cases os
unfolding build_agent_evaluation_report agent_evaluation_exit_code
exit_code-AllExpected cases os model_provider model_name report built exits =
    elim (Result-cases (summarize_agent_results (results_in (evaluate_cases cases os)))) [
      | inr (e, failed) ↦ absurd (ground arith)
      | inl (summary, summarized) ↦
          let (passed, facts) =
            summarize_agent_results-gates (results_in (evaluate_cases cases os)) summary summarized
              (ground arith) in
          evaluate_cases-AllExpected cases os (ground arith) passed facts
    ]
