-- ===== src/Evaluation/Stability/Gates.antt =====
-- What a passed suite says of its runs.
use mathlib.Core.Path.{subst}
use enterprise_support_agent.Base.{
  ℕ, ◌≤◌, Bool, true, List, [], ◌∷◌, ◌≡◌, refl, sym, arith, ok, Bool-cases, length, all, All,
  Result-cases, inl, inr,
}
use enterprise_support_agent.Base.Text.{Text, text_eq, text_eq_iff, text_eq_refl}
use enterprise_support_agent.Evaluation.Cases.{
  AgentEvaluationCase, RiskLevel, standard, critical, member,
}
use enterprise_support_agent.Evaluation.Live.{LiveAgentCaseResult}
use enterprise_support_agent.Evaluation.Suite.{
  LiveAgentRunRecord, LiveAgentSuiteResult, results_of, case_ids,
}
use enterprise_support_agent.Evaluation.Stability.{
  at_least, facts_threshold, LiveAgentStabilityPolicy, LiveCaseStabilityResult,
  LiveStabilitySummary, count_if, evaluate_case_stability, case_results, run_ids, same_set,
  summary_of, evaluate_live_agent_stability,
}

count_if-length : {A : Type 0} (test : A → Bool) (xs : List A) → count_if test xs ≤ length xs
unfolding count_if
count_if-length test [] = omega arith
count_if-length test (x ∷ xs) = ground (arith, count_if-length test xs)

-- What is counted at least as often as there are elements holds of all.
pub count_if-all :
    {A : Type 0} (test : A → Bool) (xs : List A) → length xs ≤ count_if test xs → all test xs ≡ true
unfolding count_if
count_if-all test [] h = refl
count_if-all test (x ∷ xs) h = ground (arith, count_if-length test xs, count_if-all test xs)

-- All of the results found the required facts, if the case is critical.
abbrev pub FactsPassed : RiskLevel → List LiveAgentCaseResult → Type 0
FactsPassed standard results = Unit
FactsPassed critical results = all (λ r. r.required_facts_passed) results ≡ true

-- All of the case's results passed the public contract, and in a critical case they all found the
-- required facts.
abbrev pub CasePassed : List LiveAgentRunRecord → AgentEvaluationCase → Type 0
CasePassed runs case =
    (all (λ r. r.public_contract_passed) (results_of case.case_id runs) ≡ true)
    × FactsPassed case.risk_level (results_of case.case_id runs)

FactsPassed-at_least :
    (risk_level : RiskLevel) (results : List LiveAgentCaseResult)
    (policy : LiveAgentStabilityPolicy)
    → at_least
        (record {
          passed = count_if (λ r. r.required_facts_passed) results;
          total = length results;
        })
        (facts_threshold policy risk_level)
      ≡ true
    → FactsPassed risk_level results
FactsPassed-at_least standard results policy h = tt
FactsPassed-at_least critical results policy h =
    count_if-all (λ r. r.required_facts_passed) results (ground arith)

evaluate_case_stability-passed :
    (runs : List LiveAgentRunRecord) (case : AgentEvaluationCase)
    (policy : LiveAgentStabilityPolicy) (r : LiveCaseStabilityResult)
    → evaluate_case_stability case (results_of case.case_id runs) policy ≡ ok r
    → r.passed ≡ true
    → CasePassed runs case
unfolding evaluate_case_stability
evaluate_case_stability-passed runs case policy r h passed =
    let results = results_of case.case_id runs in
    (
      count_if-all (λ r. r.public_contract_passed) results (ground arith),
      FactsPassed-at_least case.risk_level results policy (ground arith),
    )

case_results-passed :
    (runs : List LiveAgentRunRecord) (policy : LiveAgentStabilityPolicy)
    (cases : List AgentEvaluationCase) (results : List LiveCaseStabilityResult)
    → case_results runs policy cases ≡ ok results
    → all (λ r. r.passed) results ≡ true
    → All (CasePassed runs) cases
unfolding case_results
case_results-passed runs policy [] results h passed = tt
case_results-passed runs policy (case ∷ cases) results h passed =
    elim (Result-cases (evaluate_case_stability case (results_of case.case_id runs) policy)) [
      | inr (e, failed) ↦ absurd (ground arith)
      | inl (r, made) ↦ elim (Result-cases (case_results runs policy cases)) [
        | inr (e, failed) ↦ absurd (ground arith)
        | inl (rs, rest) ↦ (
          evaluate_case_stability-passed runs case policy r made (ground arith),
          case_results-passed runs policy cases rs rest (ground arith),
        )
      ]
    ]

-- The public contract for all runs of a case.
abbrev ContractPassed : List LiveAgentRunRecord → Text → Type 0
ContractPassed runs name = all (λ r. r.public_contract_passed) (results_of name runs) ≡ true

ContractPassed-case :
    (runs : List LiveAgentRunRecord) (cases : List AgentEvaluationCase) (name : Text)
    → All (CasePassed runs) cases
    → member text_eq name (case_ids cases) ≡ true
    → ContractPassed runs name
unfolding member
ContractPassed-case runs [] name h m = cc
ContractPassed-case runs (case ∷ cases) name h m = elim (Bool-cases (text_eq name case.case_id)) [
  | inl same ↦ subst (ContractPassed runs) (sym ((text_eq_iff name case.case_id).0 same)) h.0.0
  | inr other ↦ ContractPassed-case runs cases name h.1 (ground arith)
]

runs-passed :
    (runs : List LiveAgentRunRecord) (ids : List Text)
    → all (λ x. member text_eq x ids) (run_ids runs) ≡ true
    → ((name : Text) → member text_eq name ids ≡ true → ContractPassed runs name)
    → All (λ run. run.result.public_contract_passed ≡ true) runs
unfolding results_of
runs-passed [] ids known h = tt
runs-passed (run ∷ runs) ids known h =
    let first = h run.case_id (ground arith) in
    (
      ground (arith, text_eq_refl run.case_id),
      runs-passed runs ids (ground arith) (λ name m. let all_runs = h name m in ground arith),
    )

summary_of-passed :
    (total_cases : ℕ) (policy : LiveAgentStabilityPolicy) (results : List LiveCaseStabilityResult)
    (summary : LiveStabilitySummary)
    → summary_of total_cases policy results ≡ summary
    → summary.passed ≡ true
    → (all (λ r. r.passed) results ≡ true)
      × (at_least summary.required_facts_pass_rate policy.overall_required_facts_min_rate ≡ true)
unfolding summary_of
summary_of-passed total_cases policy results summary h passed = ground arith

same_set-left :
    (xs ys : List Text) → same_set xs ys ≡ true → all (λ x. member text_eq x ys) xs ≡ true
unfolding same_set
same_set-left xs ys h = ground arith

-- If a suite's stability passes, then every run passed the public contract, every run of a critical
-- case found all required facts, and the overall rate of found facts reaches the policy's.
pub evaluate_live_agent_stability-passed :
    (cases : List AgentEvaluationCase) (suite : LiveAgentSuiteResult)
    (policy : LiveAgentStabilityPolicy) (summary : LiveStabilitySummary)
    → evaluate_live_agent_stability cases suite policy ≡ ok summary
    → summary.passed ≡ true
    → All (λ run. run.result.public_contract_passed ≡ true) suite.runs
      × All (CasePassed suite.runs) cases
      × (at_least summary.required_facts_pass_rate policy.overall_required_facts_min_rate ≡ true)
unfolding evaluate_live_agent_stability
evaluate_live_agent_stability-passed cases suite policy summary h passed =
    elim (Result-cases (case_results suite.runs policy cases)) [
      | inr (e, failed) ↦ absurd (ground arith)
      | inl (results, made) ↦
          let summarized : summary_of (length cases) policy results ≡ summary = ground arith in
          let (cases_passed, rate) =
            summary_of-passed (length cases) policy results summary summarized passed in
          let known = same_set-left (run_ids suite.runs) (case_ids cases) (ground arith) in
          let by_case = case_results-passed suite.runs policy cases results made cases_passed in
          (
            runs-passed suite.runs (case_ids cases) known
                (λ name. ContractPassed-case suite.runs cases name by_case),
            by_case,
            rate,
          )
    ]
