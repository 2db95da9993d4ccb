-- ===== src/Evaluation/Stability/Complete.antt =====
-- A suite that was not aborted has a conclusion.
use mathlib.Core.Path.{subst}
use enterprise_support_agent.Base.{
  ℕ, zero, suc, ◌*◌, true, false, List, [], ◌∷◌, ◌≡◌, refl, ap, sym, ◌∙◌, arith, Result, ok, take,
  length, is_empty, ◌==◌, ltb, All, Result-cases, inl, inr,
}
use enterprise_support_agent.Base.Text.{Text, text_eq, text_eq_refl}
use enterprise_support_agent.Evaluation.Cases.{AgentEvaluationCase, is_unique, member}
use enterprise_support_agent.Evaluation.Live.{LiveError, LiveAgentObservation}
use enterprise_support_agent.Evaluation.Suite.{
  LiveAgentRunRecord, LiveAgentSuiteResult, results_of, plan, case_ids, run_live_agent_suite,
}
use enterprise_support_agent.Evaluation.Suite.Runs.{
  plan_labels, length-plan, run_live_agent_suite-IsPrefix,
}
use enterprise_support_agent.Evaluation.Stability.{
  LiveAgentStabilityPolicy, LiveCaseStabilityResult, LiveStabilitySummary, evaluate_case_stability,
  case_results, run_ids, same_set, sum_of, summary_of, evaluate_live_agent_stability,
}
use enterprise_support_agent.Evaluation.Stability.Occurrences.{
  occurrences, names_of, planned_names, names_of-labels, length-results_of, names_of-plan,
  occurrences-planned, occurrences_unique, same_set-planned_names,
}

take_all {ℓ} : {A : Type ℓ} (n : ℕ) (xs : List A) → n ≡ length xs → take n xs ≡ xs
take_all zero [] h = refl
take_all zero (x ∷ xs) h = absurd (omega (arith, h))
take_all (suc n) [] h = refl
take_all (suc n) (x ∷ xs) h = ap (λ ys. x ∷ ys) (take_all n xs (omega (arith, h)))

length-plan_labels :
    (todo : List (ℕ × AgentEvaluationCase)) → length (plan_labels todo) ≡ length todo
length-plan_labels [] = refl
length-plan_labels ((n, case) ∷ todo) = ap suc (length-plan_labels todo)

-- The cases have the number of results that the policy asks for.
abbrev HaveRuns : List LiveAgentRunRecord → ℕ → List AgentEvaluationCase → Type 0
HaveRuns runs n = All (λ case. length (results_of case.case_id runs) ≡ n)

case_results-ok :
    (runs : List LiveAgentRunRecord) (policy : LiveAgentStabilityPolicy)
    (cases : List AgentEvaluationCase)
    → HaveRuns runs policy.runs_per_case cases
    → (results : List LiveCaseStabilityResult) × (case_results runs policy cases ≡ ok results)
      × (length results ≡ length cases)
      × (sum_of (λ r. r.total_runs) results ≡ length cases * policy.runs_per_case)
unfolding case_results evaluate_case_stability sum_of
case_results-ok runs policy [] h = ([], refl, refl, omega arith)
case_results-ok runs policy (case ∷ cases) h =
    let (results, rest, count, total) = case_results-ok runs policy cases h.1 in
    elim (Result-cases (evaluate_case_stability case (results_of case.case_id runs) policy)) [
      | inr (e, failed) ↦ absurd (ground (arith, h.0))
      | inl (result, made) ↦
          let ran : result.total_runs ≡ policy.runs_per_case = ground (arith, h.0) in
          (result ∷ results, ground arith, ground arith, grind (arith, ran, total))
    ]

HaveRuns-sub :
    (runs : List LiveAgentRunRecord) (n : ℕ) (ids : List Text) (cases : List AgentEvaluationCase)
    → ((x : Text) → member text_eq x ids ≡ true → length (results_of x runs) ≡ n)
    → ((x : Text) → member text_eq x (case_ids cases) ≡ true → member text_eq x ids ≡ true)
    → HaveRuns runs n cases
unfolding member
HaveRuns-sub runs n ids [] h sub = tt
HaveRuns-sub runs n ids (case ∷ cases) h sub = (
  h case.case_id (sub case.case_id (ground (arith, text_eq_refl case.case_id))),
  HaveRuns-sub runs n ids cases h (λ x m. sub x (ground arith)),
)

same_set-planned :
    (n : ℕ) (cases : List AgentEvaluationCase)
    → ltb n 1 ≡ false
    → same_set (planned_names n cases) (case_ids cases) ≡ true
same_set-planned zero cases h = cc
same_set-planned (suc n) cases h = same_set-planned_names n cases

positive_product :
    (cases : List AgentEvaluationCase) (n : ℕ)
    → is_empty cases ≡ false
    → ltb n 1 ≡ false
    → (length cases * n == 0) ≡ false
positive_product [] n h k = cc
positive_product (case ∷ cases) zero h k = cc
positive_product (case ∷ cases) (suc n) h k = ground arith

module _ {W : Type 0}
    (run_case : AgentEvaluationCase → W → Result LiveError LiveAgentObservation × W)
    (cases : List AgentEvaluationCase) (runs_per_case : ℕ) (w : W) (suite : LiveAgentSuiteResult)
    (returned : (run_live_agent_suite run_case cases runs_per_case w).0 ≡ ok suite) where
  checked :
      (is_empty cases ≡ false)
      × (ltb runs_per_case 1 ≡ false)
      × (is_unique text_eq (case_ids cases) ≡ true)
  unfolding run_live_agent_suite
  checked = ground arith

  run_ids-planned : suite.aborted ≡ false → run_ids suite.runs ≡ planned_names runs_per_case cases
  run_ids-planned complete =
      let (planned, completed, _, made, whole) =
        run_live_agent_suite-IsPrefix run_case cases runs_per_case w suite returned in
      let todo = plan 1 runs_per_case cases in
      sym (names_of-labels suite.runs)
      ∙ ap names_of (
          made
          ∙ take_all suite.completed_runs (plan_labels todo) (
              whole complete
              ∙ planned
              ∙ sym (length-plan 1 runs_per_case cases)
              ∙ sym (length-plan_labels todo)))
      ∙ names_of-plan 1 runs_per_case cases

  suite-HaveRuns : suite.aborted ≡ false → HaveRuns suite.runs runs_per_case cases
  suite-HaveRuns complete =
      HaveRuns-sub suite.runs runs_per_case (case_ids cases) cases
        (λ x m.
          length-results_of x suite.runs
          ∙ ap (occurrences x) (run_ids-planned complete)
          ∙ occurrences-planned x runs_per_case cases
          ∙ grind (arith, occurrences_unique x (case_ids cases) checked.2 m))
        (λ x m. m)

  -- A suite that was not aborted has a stability summary, under every policy that asks for the
  -- number of runs that the suite made of each case: none of the checks fails, and no rate divides
  -- by zero.
  pub evaluate_live_agent_stability-returns :
      (policy : LiveAgentStabilityPolicy)
      → policy.runs_per_case ≡ runs_per_case
      → suite.aborted ≡ false
      → (summary : LiveStabilitySummary) × (evaluate_live_agent_stability cases suite policy
          ≡ ok summary)
        × (summary.total_cases ≡ length cases)
        × (summary.total_runs ≡ length cases * runs_per_case)
  unfolding evaluate_live_agent_stability summary_of
  evaluate_live_agent_stability-returns policy same complete =
      let (planned, completed, _, _, whole) =
        run_live_agent_suite-IsPrefix run_case cases runs_per_case w suite returned in
      let (results, made, count, total) =
        case_results-ok suite.runs policy cases
          (subst (λ n. HaveRuns suite.runs n cases) (sym same) (suite-HaveRuns complete)) in
      let named : same_set (run_ids suite.runs) (case_ids cases) ≡ true =
        subst (λ names. same_set names (case_ids cases) ≡ true) (sym (run_ids-planned complete))
          (same_set-planned runs_per_case cases checked.1) in
      let some_run = positive_product cases runs_per_case checked.0 checked.1 in
      (
        summary_of (length cases) policy results,
        ground (arith, whole complete),
        refl,
        grind (arith, same, total),
      )
