-- ===== src/Evaluation/Stability.antt =====
-- The conclusion from a live suite: agent-service/src/agent_service/evaluation/live_report.py. A
-- rate is a fraction of natural numbers: division of floats is monotone, and so gives the same
-- answer when a rate is compared with a threshold that is the nearest float to its fraction.
pub mod Occurrences
pub mod Complete
pub mod Gates
use enterprise_support_agent.Base.{
  ℕ, zero, suc, ◌+◌, ◌*◌, Bool, true, false, Option, none, some, List, [], ◌∷◌, ◌≡◌, refl, arith,
  if◌then◌else◌, Result, ok, err, ◌>>=◌, ◌&&◌, ◌||◌, ◌==◌, leb, not, is_empty, all, length,
}
use enterprise_support_agent.Base.Text.{Text, text_eq}
use enterprise_support_agent.Domain.{Error, value_error, zero_division_error}
use enterprise_support_agent.Evaluation.Cases.{
  AgentEvaluationCase, RiskLevel, standard, critical, member,
}
use enterprise_support_agent.Evaluation.Live.{LiveAgentCaseResult}
use enterprise_support_agent.Evaluation.Suite.{
  LiveAgentRunRecord, LiveAgentSuiteResult, results_of, case_ids,
}

-- `passed / total`
pub record Rate : Type 0 where
  pub passed : ℕ
  pub total : ℕ

-- `rate >= threshold`
abbrev pub at_least : Rate → Rate → Bool
at_least rate threshold = leb (threshold.passed * rate.total) (rate.passed * threshold.total)

-- The rate of what passes always: 1.0.
abbrev pub always : Rate
always = record { passed = 1; total = 1 }

pub record LiveAgentStabilityPolicy : Type 0 where
  pub runs_per_case : ℕ
  pub standard_required_facts_min_rate : Rate
  pub overall_required_facts_min_rate : Rate

-- The bounds of its fields.
abbrev pub is_rate : Rate → Bool
is_rate rate = leb 1 rate.passed && leb rate.passed rate.total

unfoldable pub is_policy : LiveAgentStabilityPolicy → Bool
is_policy p =
    leb 2 p.runs_per_case
    && is_rate p.standard_required_facts_min_rate
    && is_rate p.overall_required_facts_min_rate

-- Two thirds of the runs of each case, and nine tenths of all runs.
unfoldable pub default_policy : LiveAgentStabilityPolicy
default_policy = record {
  runs_per_case = 3;
  standard_required_facts_min_rate = record { passed = 2; total = 3 };
  overall_required_facts_min_rate = record { passed = 9; total = 10 };
}

pub record LiveCaseStabilityResult : Type 0 where
  pub case_id : Text
  pub risk_level : RiskLevel
  pub total_runs : ℕ
  pub public_contract_passed_runs : ℕ
  pub public_contract_pass_rate : Rate
  pub required_facts_passed_runs : ℕ
  pub required_facts_pass_rate : Rate
  pub passed : Bool

pub record LiveStabilitySummary : Type 0 where
  pub total_cases : ℕ
  pub total_runs : ℕ
  pub public_contract_pass_rate : Rate
  pub required_facts_pass_rate : Rate
  pub critical_cases : ℕ
  pub critical_passed_cases : ℕ
  pub passed : Bool
  pub cases : List LiveCaseStabilityResult

-- `sum(test(x) for x in xs)` on Booleans, and on numbers.
module _ {ℓ} {A : Type ℓ} where
  unfoldable pub count_if : (A → Bool) → List A → ℕ
  count_if test [] = 0
  count_if test (x ∷ xs) = let rest = count_if test xs in if test x then suc rest else rest

  unfoldable pub sum_of : (A → ℕ) → List A → ℕ
  sum_of f [] = 0
  sum_of f (x ∷ xs) = f x + sum_of f xs

abbrev pub facts_threshold : LiveAgentStabilityPolicy → RiskLevel → Rate
facts_threshold policy standard = policy.standard_required_facts_min_rate
facts_threshold policy critical = always

-- `_evaluate_case_stability`
unfoldable pub evaluate_case_stability :
    AgentEvaluationCase
    → List LiveAgentCaseResult
    → LiveAgentStabilityPolicy
    → Result Error LiveCaseStabilityResult
unfolding count_if
evaluate_case_stability case results policy =
    let contract_passed = count_if (λ r. r.public_contract_passed) results in
    let facts_passed = count_if (λ r. r.required_facts_passed) results in
    let contract_rate : Rate = record { passed = contract_passed; total = length results } in
    let facts_rate : Rate = record { passed = facts_passed; total = length results } in
    if length results == policy.runs_per_case
    then ok (record {
      case_id = case.case_id;
      risk_level = case.risk_level;
      total_runs = length results;
      public_contract_passed_runs = contract_passed;
      public_contract_pass_rate = contract_rate;
      required_facts_passed_runs = facts_passed;
      required_facts_pass_rate = facts_rate;
      passed =
          at_least contract_rate always
          && at_least facts_rate (facts_threshold policy case.risk_level);
    })
    else err value_error

-- `case_results`
unfoldable pub case_results :
    List LiveAgentRunRecord
    → LiveAgentStabilityPolicy
    → List AgentEvaluationCase
    → Result Error (List LiveCaseStabilityResult)
unfolding evaluate_case_stability results_of
case_results runs policy [] = ok []
case_results runs policy (case ∷ cases) = do
  result ← evaluate_case_stability case (results_of case.case_id runs) policy
  results ← case_results runs policy cases
  ok (result ∷ results)

-- The keys of `results_by_case`, some several times.
abbrev pub run_ids : List LiveAgentRunRecord → List Text
run_ids [] = []
run_ids (run ∷ runs) = run.case_id ∷ run_ids runs

-- `set(xs) == set(ys)`
unfoldable pub same_set : List Text → List Text → Bool
unfolding member
same_set xs ys = all (λ x. member text_eq x ys) xs && all (λ y. member text_eq y xs) ys

abbrev pub is_critical : RiskLevel → Bool
is_critical critical = true
is_critical standard = false

-- The summary of the results of all cases, `total_cases` of them.
unfoldable pub summary_of :
    ℕ → LiveAgentStabilityPolicy → List LiveCaseStabilityResult → LiveStabilitySummary
unfolding count_if sum_of
summary_of total_cases policy results =
    let total_runs = sum_of (λ r. r.total_runs) results in
    let contract_passed = sum_of (λ r. r.public_contract_passed_runs) results in
    let facts_passed = sum_of (λ r. r.required_facts_passed_runs) results in
    let facts_rate : Rate = record { passed = facts_passed; total = total_runs } in
    record {
      total_cases = total_cases;
      total_runs = total_runs;
      public_contract_pass_rate = record { passed = contract_passed; total = total_runs };
      required_facts_pass_rate = facts_rate;
      critical_cases = count_if (λ r. is_critical r.risk_level) results;
      critical_passed_cases = count_if (λ r. is_critical r.risk_level && r.passed) results;
      passed =
          all (λ r. r.passed) results && at_least facts_rate policy.overall_required_facts_min_rate;
      cases = results;
    }

-- The errors of `evaluate_live_agent_stability` are a `ValueError` or a `ZeroDivisionError`.
unfoldable pub evaluate_live_agent_stability :
    List AgentEvaluationCase
    → LiveAgentSuiteResult
    → LiveAgentStabilityPolicy
    → Result Error LiveStabilitySummary
evaluate_live_agent_stability cases suite policy =
    let expected_runs = length cases * policy.runs_per_case in
    if suite.aborted
    then err value_error
    else if not (suite.planned_runs == expected_runs && suite.completed_runs == expected_runs)
    then err value_error
    else if not (same_set (run_ids suite.runs) (case_ids cases))
    then err value_error
    else (do
      results ← case_results suite.runs policy cases
      if sum_of (λ r. r.total_runs) results == 0
          then err zero_division_error
          else ok (summary_of (length cases) policy results))
