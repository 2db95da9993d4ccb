-- ===== src/Evaluation/Suite/Runs.antt =====
-- Which runs a suite makes.
use enterprise_support_agent.Base.{
  ℕ, zero, suc, ◌*◌, ◌≤◌, true, false, Option, none, some, List, [], ◌∷◌, ◌≡◌, refl, ap, ◌∙◌, arith,
  Result, ok, err, take, length, length-append, Result-cases, inl, inr, is_empty,
}
use enterprise_support_agent.Base.Text.{Text, text_eq}
use enterprise_support_agent.Evaluation.Cases.{AgentEvaluationCase, is_unique}
use enterprise_support_agent.Evaluation.Live.{LiveError, LiveAgentObservation}
use enterprise_support_agent.Evaluation.Suite.{
  LiveAgentRunRecord, LiveAgentSuiteResult, classify_live_failure, failed_run, Round, round_of,
  numbered, plan, case_ids, Rounds, then_rounds, run_all, run_live_agent_suite,
}

-- The number of a run and its case.
abbrev pub Label : Type 0
Label = ℕ × Text

abbrev pub labels : List LiveAgentRunRecord → List Label
labels [] = []
labels (run ∷ runs) = (run.run_number, run.case_id) ∷ labels runs

abbrev pub plan_labels : List (ℕ × AgentEvaluationCase) → List Label
plan_labels [] = []
plan_labels ((run_number, case) ∷ todo) = (run_number, case.case_id) ∷ plan_labels todo

round_of-label :
    (run_number : ℕ) (case : AgentEvaluationCase) (observed : Result LiveError LiveAgentObservation)
    (run : LiveAgentRunRecord) (abort_code : Option Text)
    → round_of run_number case observed ≡ ok (run, abort_code)
    → (run.run_number ≡ run_number) × (run.case_id ≡ case.case_id)
unfolding round_of
round_of-label run_number case (ok o) run abort_code h = ground arith
round_of-label run_number case (err e) run abort_code h = ground arith

length-numbered :
    (run_number : ℕ) (cases : List AgentEvaluationCase)
    → length (numbered run_number cases) ≡ length cases
length-numbered run_number [] = refl
length-numbered run_number (case ∷ cases) = ap suc (length-numbered run_number cases)

pub length-plan :
    (run_number left : ℕ) (cases : List AgentEvaluationCase)
    → length (plan run_number left cases) ≡ length cases * left
unfolding plan
length-plan run_number zero cases = omega arith
length-plan run_number (suc left) cases =
    length-append (numbered run_number cases) (plan (suc run_number) left cases)
    ∙ grind (arith, length-numbered run_number cases, length-plan (suc run_number) left cases)

-- The runs are the first ones of the plan, and all of them where nothing was aborted.
abbrev IsPrefix : List (ℕ × AgentEvaluationCase) → Rounds → Type 0
IsPrefix todo (err e) = Unit
IsPrefix todo (ok (runs, abort_code)) =
    (labels runs ≡ take (length runs) (plan_labels todo))
    × (length runs ≤ length todo)
    × (abort_code ≡ none → length runs ≡ length todo)

module _ {W : Type 0} where
  then_rounds-IsPrefix :
      (run_number : ℕ) (case : AgentEvaluationCase) (todo : List (ℕ × AgentEvaluationCase))
      (observed : Result LiveError LiveAgentObservation) (round : Round) (w : W) (rest : Rounds × W)
      → round_of run_number case observed ≡ round
      → IsPrefix todo rest.0
      → IsPrefix ((run_number, case) ∷ todo) (then_rounds round w rest).0
  then_rounds-IsPrefix run_number case todo observed (err e) w rest h k = tt
  then_rounds-IsPrefix run_number case todo observed (ok (run, some code)) w rest h k =
      let (number, name) = round_of-label run_number case observed run (some code) h in
      (cc (number, name), omega arith, λ p. cc)
  then_rounds-IsPrefix run_number case todo observed (ok (run, none)) w (err e, w') h k = tt
  then_rounds-IsPrefix run_number case todo observed (ok (run, none)) w (ok (runs, code), w') h k =
      let (number, name) = round_of-label run_number case observed run none h in
      (cc (number, name, k.0), omega (arith, k.1), λ p. ap suc (k.2 p))

  module _ (run_case : AgentEvaluationCase → W → Result LiveError LiveAgentObservation × W) where
    run_all-IsPrefix :
        (todo : List (ℕ × AgentEvaluationCase)) (w : W) → IsPrefix todo (run_all run_case todo w).0
    unfolding run_all
    run_all-IsPrefix [] w = (refl, omega arith, λ h. refl)
    run_all-IsPrefix ((run_number, case) ∷ todo) w =
        let (observed, w') = run_case case w in
        then_rounds-IsPrefix run_number case todo observed (round_of run_number case observed) w'
          (run_all run_case todo w') refl (run_all-IsPrefix todo w')

    -- The runs of a suite that returns are the first ones of the plan, case by case and number by
    -- number, and all of the plan if the suite was not aborted.
    pub run_live_agent_suite-IsPrefix :
        (cases : List AgentEvaluationCase) (runs_per_case : ℕ) (w : W)
        (suite : LiveAgentSuiteResult)
        → (run_live_agent_suite run_case cases runs_per_case w).0 ≡ ok suite
        → (suite.planned_runs ≡ length cases * runs_per_case)
          × (suite.completed_runs ≡ length suite.runs)
          × (suite.completed_runs ≤ suite.planned_runs)
          × (labels suite.runs
              ≡ take suite.completed_runs (plan_labels (plan 1 runs_per_case cases)))
          × (suite.aborted ≡ false → suite.completed_runs ≡ suite.planned_runs)
    unfolding run_live_agent_suite
    run_live_agent_suite-IsPrefix cases runs_per_case w suite h =
        let todo = plan 1 runs_per_case cases in
        let is_prefix = run_all-IsPrefix todo w in
        let planned = length-plan 1 runs_per_case cases in
        elim (Result-cases (run_all run_case todo w).0) [
          | inr (e, failed) ↦ absurd (ground arith)
          | inl ((runs, none), made) ↦
              (ground arith, ground arith, ground arith, ground arith, ground arith)
          | inl ((runs, some code), made) ↦
              (ground arith, ground arith, ground arith, ground arith, ground arith)
        ]

    -- An observation, or a failure after which the suite goes on.
    abbrev pub IsLocal : Result LiveError LiveAgentObservation → Type 0
    IsLocal (ok o) = Unit
    IsLocal (err e) = (code : Text) × (classify_live_failure e ≡ some (false, code))

    round_of-IsLocal :
        (run_number : ℕ) (case : AgentEvaluationCase)
        (observed : Result LiveError LiveAgentObservation)
        → IsLocal observed
        → (run : LiveAgentRunRecord) × (round_of run_number case observed ≡ ok (run, none))
    unfolding round_of
    round_of-IsLocal run_number case (ok o) h = (_, refl)
    round_of-IsLocal run_number case (err e) (code, h) = (failed_run run_number case code, rw h)

    run_all-IsLocal :
        (todo : List (ℕ × AgentEvaluationCase)) (w : W)
        → ((case : AgentEvaluationCase) (v : W) → IsLocal (run_case case v).0)
        → (runs : List LiveAgentRunRecord) × ((run_all run_case todo w).0 ≡ ok (runs, none))
    unfolding run_all
    run_all-IsLocal [] w local = ([], refl)
    run_all-IsLocal ((run_number, case) ∷ todo) w local =
        let (run, made) = round_of-IsLocal run_number case (run_case case w).0 (local case w) in
        let (runs, rest) = run_all-IsLocal todo (run_case case w).1 local in
        (run ∷ runs, ground arith)

    -- A suite of one case at least with different names, each to be run once at least, against a
    -- runner whose failures do not stop it, returns, is not aborted and makes all planned runs.
    pub run_live_agent_suite-completes :
        (cases : List AgentEvaluationCase) (runs_per_case : ℕ) (w : W)
        → is_empty cases ≡ false
        → 1 ≤ runs_per_case
        → is_unique text_eq (case_ids cases) ≡ true
        → ((case : AgentEvaluationCase) (v : W) → IsLocal (run_case case v).0)
        → (suite : LiveAgentSuiteResult) × ((run_live_agent_suite run_case cases runs_per_case w).0
            ≡ ok suite)
          × (suite.aborted ≡ false)
          × (suite.completed_runs ≡ length cases * runs_per_case)
    unfolding run_live_agent_suite
    run_live_agent_suite-completes cases runs_per_case w some_case some_run unique local =
        let todo = plan 1 runs_per_case cases in
        let (runs, made) = run_all-IsLocal todo w local in
        let is_prefix = run_all-IsPrefix todo w in
        let planned = length-plan 1 runs_per_case cases in
        (
          record {
            planned_runs = length cases * runs_per_case;
            completed_runs = length runs;
            aborted = false;
            abort_code = none;
            runs = runs;
          },
          ground arith,
          refl,
          ground arith,
        )
