-- ===== src/Evaluation/Stability/Occurrences.antt =====
-- How often the names of the cases occur in the plan of a suite.
use enterprise_support_agent.Base.{
  ℕ, zero, suc, ◌+◌, ◌*◌, Bool, true, false, List, [], ◌∷◌, ◌++◌, ◌≡◌, refl, ap, ◌∙◌, arith,
  if◌then◌else◌, length, all, inl, inr, ◌⊎◌,
}
use enterprise_support_agent.Base.Text.{Text, text_eq, text_eq_iff, text_eq_refl}
use enterprise_support_agent.Evaluation.Cases.{AgentEvaluationCase, is_unique, member}
use enterprise_support_agent.Evaluation.Suite.{
  LiveAgentRunRecord, results_of, numbered, plan, case_ids,
}
use enterprise_support_agent.Evaluation.Suite.Runs.{Label, labels, plan_labels}
use enterprise_support_agent.Evaluation.Stability.{run_ids, same_set}

-- How often the name occurs.
abbrev pub occurrences : Text → List Text → ℕ
occurrences name [] = 0
occurrences name (other ∷ names) = (if text_eq other name then 1 else 0) + occurrences name names

abbrev pub names_of : List Label → List Text
names_of [] = []
names_of ((number, name) ∷ ls) = name ∷ names_of ls

pub names_of-labels : (runs : List LiveAgentRunRecord) → names_of (labels runs) ≡ run_ids runs
names_of-labels [] = refl
names_of-labels (run ∷ runs) = ap (λ names. run.case_id ∷ names) (names_of-labels runs)

pub length-results_of :
    (name : Text) (runs : List LiveAgentRunRecord)
    → length (results_of name runs) ≡ occurrences name (run_ids runs)
unfolding results_of
length-results_of name [] = refl
length-results_of name (run ∷ runs) = ground (arith, length-results_of name runs)

occurrences-append :
    (name : Text) (xs ys : List Text)
    → occurrences name (xs ++ ys) ≡ occurrences name xs + occurrences name ys
occurrences-append name [] ys = omega arith
occurrences-append name (x ∷ xs) ys = omega (arith, occurrences-append name xs ys)

-- The names of the plan.
abbrev pub planned_names : ℕ → List AgentEvaluationCase → List Text
planned_names zero cases = []
planned_names (suc left) cases = case_ids cases ++ planned_names left cases

names_of-numbered :
    (run_number : ℕ) (cases : List AgentEvaluationCase) (todo : List (ℕ × AgentEvaluationCase))
    → names_of (plan_labels (numbered run_number cases ++ todo))
      ≡ case_ids cases ++ names_of (plan_labels todo)
names_of-numbered run_number [] todo = refl
names_of-numbered run_number (case ∷ cases) todo =
    ap (λ names. case.case_id ∷ names) (names_of-numbered run_number cases todo)

pub names_of-plan :
    (run_number left : ℕ) (cases : List AgentEvaluationCase)
    → names_of (plan_labels (plan run_number left cases)) ≡ planned_names left cases
unfolding plan
names_of-plan run_number zero cases = refl
names_of-plan run_number (suc left) cases =
    names_of-numbered run_number cases (plan (suc run_number) left cases)
    ∙ ap (λ names. case_ids cases ++ names) (names_of-plan (suc run_number) left cases)

pub occurrences-planned :
    (name : Text) (left : ℕ) (cases : List AgentEvaluationCase)
    → occurrences name (planned_names left cases) ≡ left * occurrences name (case_ids cases)
occurrences-planned name zero cases = omega arith
occurrences-planned name (suc left) cases =
    occurrences-append name (case_ids cases) (planned_names left cases)
    ∙ grind (arith, occurrences-planned name left cases)

occurrences-absent :
    (name : Text) (names : List Text)
    → member text_eq name names ≡ false
    → occurrences name names ≡ 0
unfolding member
occurrences-absent name [] h = refl
occurrences-absent name (other ∷ names) h =
    ground (arith, text_eq_iff other name, text_eq_iff name other, occurrences-absent name names)

pub occurrences_unique :
    (name : Text) (names : List Text)
    → is_unique text_eq names ≡ true
    → member text_eq name names ≡ true
    → occurrences name names ≡ 1
unfolding is_unique member
occurrences_unique name [] unique h = cc
occurrences_unique name (other ∷ names) unique h = ground (
  arith,
  text_eq_iff other name,
  text_eq_iff name other,
  occurrences_unique name names,
  occurrences-absent name names,
)

pub all_from :
    (p : Text → Bool) (xs : List Text)
    → ((x : Text) → member text_eq x xs ≡ true → p x ≡ true)
    → all p xs ≡ true
unfolding member
all_from p [] h = refl
all_from p (x ∷ xs) h =
    let first = h x (ground (arith, text_eq_refl x)) in
    let rest = all_from p xs (λ y m. h y (ground arith)) in ground arith

member-append_left :
    (x : Text) (xs ys : List Text) → member text_eq x xs ≡ true → member text_eq x (xs ++ ys) ≡ true
unfolding member
member-append_left x [] ys h = cc
member-append_left x (y ∷ xs) ys h = ground (arith, member-append_left x xs ys)

member-append_or :
    (x : Text) (xs ys : List Text)
    → member text_eq x (xs ++ ys) ≡ true
    → (member text_eq x xs ≡ true) ⊎ (member text_eq x ys ≡ true)
unfolding member
member-append_or x [] ys h = inr h
member-append_or x (y ∷ xs) ys h = ground (arith, member-append_or x xs ys)

member-planned_names :
    (x : Text) (left : ℕ) (cases : List AgentEvaluationCase)
    → member text_eq x (planned_names left cases) ≡ true
    → member text_eq x (case_ids cases) ≡ true
unfolding member
member-planned_names x zero cases h = cc
member-planned_names x (suc left) cases h =
    elim (member-append_or x (case_ids cases) (planned_names left cases) h) [
      | inl here ↦ here
      | inr later ↦ member-planned_names x left cases later
    ]

-- The plan names the cases, all of them where there is a round.
pub same_set-planned_names :
    (left : ℕ) (cases : List AgentEvaluationCase)
    → same_set (planned_names (suc left) cases) (case_ids cases) ≡ true
unfolding same_set
same_set-planned_names left cases =
    let names = planned_names (suc left) cases in
    let planned =
      all_from (λ x. member text_eq x (case_ids cases)) names
        (λ x. member-planned_names x (suc left) cases) in
    let run =
      all_from (λ x. member text_eq x names) (case_ids cases)
        (λ x. member-append_left x (case_ids cases) (planned_names left cases)) in
    ground arith
