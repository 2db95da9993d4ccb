-- ===== src/Evaluation/Suite.antt =====
-- agent-service/src/agent_service/evaluation/live_suite.py: all cases, several times, against a
-- runner, which is an argument with a state of its own.
pub mod Runs
use enterprise_support_agent.Base.{
  ℕ, zero, suc, ◌+◌, ◌*◌, Bool, true, false, Option, none, some, List, [], ◌∷◌, ◌++◌, ◌≡◌, refl,
  arith, map, if◌then◌else◌, Result, ok, err, ◌>>=◌, ◌&&◌, ◌||◌, ◌==◌, ltb, not, is_empty, is_none,
  length,
}
use enterprise_support_agent.Base.Text.{Text, lit, text_eq}
use enterprise_support_agent.Base.Json.{decimal}
use enterprise_support_agent.Domain.{IntentType}
use enterprise_support_agent.Api.Events.{StreamEventType}
use enterprise_support_agent.Evaluation.Cases.{
  AgentEvaluationCase, ExpectedOutcome, member, is_unique, Failure, run_error,
}
use enterprise_support_agent.Evaluation.Live.{
  LiveError, protocol_error, payload_invalid, timeout, connect_error, other_http, unexpected,
  http_status, LiveAgentObservation, LiveAgentCaseResult, evaluate_live_agent_case,
}

pub record LiveAgentRunEvidence : Type 0 where
  pub intent : IntentType
  pub outcome : ExpectedOutcome
  pub order_id : Option Text
  pub source_document_ids : List Text
  pub event_types : List StreamEventType
  pub matched_required_facts : List Text

pub record LiveAgentRunRecord : Type 0 where
  pub case_id : Text
  pub run_number : ℕ
  pub result : LiveAgentCaseResult
  pub error_code : Option Text
  pub evidence : Option LiveAgentRunEvidence

pub record LiveAgentSuiteResult : Type 0 where
  pub planned_runs : ℕ
  pub completed_runs : ℕ
  pub aborted : Bool
  pub abort_code : Option Text
  pub runs : List LiveAgentRunRecord

-- `suite.results_by_case()[case_id]`, the empty list for a key that is not there.
unfoldable pub results_of : Text → List LiveAgentRunRecord → List LiveAgentCaseResult
results_of case_id [] = []
results_of case_id (run ∷ runs) =
    let rest = results_of case_id runs in
    if text_eq run.case_id case_id then run.result ∷ rest else rest

-- `_classify_live_failure`, for the exceptions of `_EXPECTED_LIVE_FAILURES`; `none` for another
-- one, which is not caught.
unfoldable pub classify_live_failure : LiveError → Option (Bool × Text)
classify_live_failure protocol_error = some (false, lit "PUBLIC_PROTOCOL_ERROR")
classify_live_failure payload_invalid = some (false, lit "PUBLIC_PAYLOAD_INVALID")
classify_live_failure timeout = some (true, lit "SYSTEM_TIMEOUT")
classify_live_failure connect_error = some (true, lit "JAVA_UNREACHABLE")
classify_live_failure (http_status status_code) = some (
  member ◌==◌ status_code (401 ∷ 403 ∷ 429 ∷ 500 ∷ 502 ∷ 503 ∷ []),
  lit "HTTP_" ++ decimal status_code,
)
classify_live_failure other_http = some (false, lit "HTTP_TRANSPORT_ERROR")
classify_live_failure unexpected = none

-- `_failed_case_result`
unfoldable pub failed_case_result : AgentEvaluationCase → Text → LiveAgentCaseResult
failed_case_result case error_code = record {
  case_id = case.case_id;
  public_contract_passed = false;
  public_contract_failures = run_error error_code ∷ [];
  required_facts_passed = false;
  missing_required_facts = case.required_facts;
}

-- The facts that are not missing.
unfoldable pub matched_facts : List Text → List Text → List Text
unfolding member
matched_facts [] missing = []
matched_facts (fact ∷ facts) missing =
    let rest = matched_facts facts missing in
    if member text_eq fact missing then rest else fact ∷ rest

-- `_build_run_evidence`
unfoldable pub build_run_evidence :
    AgentEvaluationCase → LiveAgentObservation → LiveAgentCaseResult → LiveAgentRunEvidence
unfolding matched_facts
build_run_evidence case o result = record {
  intent = o.intent;
  outcome = o.outcome;
  order_id = o.order_id;
  source_document_ids = o.source_document_ids;
  event_types = o.event_types;
  matched_required_facts = matched_facts case.required_facts result.missing_required_facts;
}

-- How a round of the loop goes on: the record, and the code of an abort; or an exception.
abbrev pub Round : Type 0
Round = Result LiveError (LiveAgentRunRecord × Option Text)

abbrev pub failed_run : ℕ → AgentEvaluationCase → Text → LiveAgentRunRecord
failed_run run_number case error_code = record {
  case_id = case.case_id;
  run_number = run_number;
  result = failed_case_result case error_code;
  error_code = some error_code;
  evidence = none;
}

abbrev failed_round : ℕ → AgentEvaluationCase → LiveError → Option (Bool × Text) → Round
failed_round run_number case e none = err e
failed_round run_number case e (some (abort, error_code)) =
    ok (failed_run run_number case error_code, if abort then some error_code else none)

-- The body of the loops, on what `run_case` gives.
unfoldable pub round_of : ℕ → AgentEvaluationCase → Result LiveError LiveAgentObservation → Round
unfolding evaluate_live_agent_case build_run_evidence classify_live_failure failed_case_result
round_of run_number case (ok observation) =
    let result = evaluate_live_agent_case case observation in
    ok (
      record {
        case_id = case.case_id;
        run_number = run_number;
        result = result;
        error_code = none;
        evidence = some (build_run_evidence case observation result);
      },
      none,
    )
round_of run_number case (err e) = failed_round run_number case e (classify_live_failure e)

-- The pairs of the two loops, in their order: from `run_number` on, `left` times all cases.
abbrev pub numbered : ℕ → List AgentEvaluationCase → List (ℕ × AgentEvaluationCase)
numbered run_number [] = []
numbered run_number (case ∷ cases) = (run_number, case) ∷ numbered run_number cases

unfoldable pub plan : ℕ → ℕ → List AgentEvaluationCase → List (ℕ × AgentEvaluationCase)
plan run_number zero cases = []
plan run_number (suc left) cases = numbered run_number cases ++ plan (suc run_number) left cases

abbrev pub case_ids : List AgentEvaluationCase → List Text
case_ids [] = []
case_ids (case ∷ cases) = case.case_id ∷ case_ids cases

-- What stops `run_live_agent_suite`: a `ValueError`, or an exception of the runner.
pub data SuiteError : Type 0 where
  suite_value_error : SuiteError
  raised : LiveError → SuiteError

-- The records of the rounds, and the code of an abort.
abbrev pub Rounds : Type 0
Rounds = Result LiveError (List LiveAgentRunRecord × Option Text)

module _ {W : Type 0} where
  -- A round and the rounds behind it, which count only if the loop goes on.
  abbrev pub then_rounds : Round → W → Rounds × W → Rounds × W
  then_rounds (err e) w rest = (err e, w)
  then_rounds (ok (run, some error_code)) w rest = (ok (run ∷ [], some error_code), w)
  then_rounds (ok (run, none)) w (rounds, w') =
      (rounds >>= λ (runs, abort_code). ok (run ∷ runs, abort_code), w')

  module _ (run_case : AgentEvaluationCase → W → Result LiveError LiveAgentObservation × W) where
    -- The two loops over the pairs that are left.
    unfoldable pub run_all : List (ℕ × AgentEvaluationCase) → W → Rounds × W
    unfolding round_of
    run_all [] w = (ok ([], none), w)
    run_all ((run_number, case) ∷ todo) w =
        let (observed, w') = run_case case w in
        then_rounds (round_of run_number case observed) w' (run_all todo w')

    abbrev pub suite_of : ℕ → Rounds → Result SuiteError LiveAgentSuiteResult
    suite_of planned_runs (err e) = err (raised e)
    suite_of planned_runs (ok (runs, abort_code)) = ok (record {
      planned_runs = planned_runs;
      completed_runs = length runs;
      aborted = not (is_none abort_code);
      abort_code = abort_code;
      runs = runs;
    })

    unfoldable pub run_live_agent_suite :
        List AgentEvaluationCase → ℕ → W → Result SuiteError LiveAgentSuiteResult × W
    unfolding is_unique run_all plan
    run_live_agent_suite cases runs_per_case w =
        if is_empty cases || ltb runs_per_case 1 || not (is_unique text_eq (case_ids cases))
        then (err suite_value_error, w)
        else (let (rounds, w') = run_all (plan 1 runs_per_case cases) w in
            (suite_of (length cases * runs_per_case) rounds, w'))
