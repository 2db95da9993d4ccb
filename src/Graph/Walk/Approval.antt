-- ===== src/Graph/Walk/Approval.antt =====
-- Refunds are submitted only on a human's approval.
use mathlib.Core.Path.{subst}
use enterprise_support_agent.Base.{
  ℕ, suc, ◌≤◌, true, false, Option, none, some, [], ◌∷◌, ◌≡◌, ◌≢◌, refl, arith, Result, ok, err,
}
use enterprise_support_agent.Base.Text.{Text}
use enterprise_support_agent.Domain.{
  refund, value_error, order_not_found_error, OrderResponse, ApprovalRequest, Error,
}
use enterprise_support_agent.Exec.{◌>>=◌, attempt}
use enterprise_support_agent.Graph.State.{AgentState, AgentContext}
use enterprise_support_agent.Graph.Services.{Services, Log, refund_call, order_call, get_order_tool}
use enterprise_support_agent.Graph.Routing.{
  NodeName, analyze_intent, request_clarification, unsupported, query_order, order_not_found,
  generate_answer, request_refund_approval, submit_refund, retrieve_knowledge,
  generate_knowledge_answer, save_turn, next, rank, next-request_refund_approval, Target, to,
  finish,
}
use enterprise_support_agent.Graph.Nodes.{
  ResumeValue, approved, no_boolean, not_object, node, approval_payload, always, required,
  found_order,
}
use enterprise_support_agent.Graph.Walk.{Outcome, paused, walk, start, resume, round_limit}
use enterprise_support_agent.Graph.Walk.Rule.{AfterNode, AtTarget, walk_rule}

-- How many refunds were submitted.
abbrev pub refunds : Log → ℕ
refunds [] = 0
refunds (refund_call _ _ _ _ ∷ log) = suc (refunds log)
refunds (_ ∷ log) = refunds log

abbrev pub NotApproved : Option ResumeValue → Type 0
NotApproved r = r ≢ some (approved true)

module _ (k : ℕ) where
  abbrev Unsubmitted : NodeName → Option ResumeValue → AgentState → Log → Type 0
  Unsubmitted n r state log = (refunds log ≡ k) × (n ≢ submit_refund) × NotApproved r

  abbrev Same : Result Error Outcome → Log → Type 0
  Same result log = refunds log ≡ k

  node-Unsubmitted :
      (sv : Services) (ctx : AgentContext) (n : NodeName) (r : Option ResumeValue)
      (state : AgentState) (log : Log)
      → Unsubmitted n r state log
      → let x = node sv ctx n r state log in AfterNode Unsubmitted Same n state x.0 x.1
  unfolding node next
  node-Unsubmitted sv ctx submit_refund r state log h = absurd (h.1 refl)
  node-Unsubmitted sv ctx analyze_intent r state log h = ground arith
  node-Unsubmitted sv ctx request_clarification r state log h = ground arith
  node-Unsubmitted sv ctx unsupported r state log h = ground arith
  node-Unsubmitted sv ctx query_order r state log h = ground arith
  node-Unsubmitted sv ctx order_not_found r state log h = ground arith
  node-Unsubmitted sv ctx generate_answer r state log h = ground arith
  node-Unsubmitted sv ctx request_refund_approval r state log h = ground arith
  node-Unsubmitted sv ctx retrieve_knowledge r state log h = ground arith
  node-Unsubmitted sv ctx generate_knowledge_answer r state log h = ground arith
  node-Unsubmitted sv ctx save_turn r state log h = ground arith

-- A run from any node but `submit_refund` submits no refund, unless it resumes with approval,
-- whatever the models, the order service and the retriever answer.
pub refunds-walk :
    (sv : Services) (ctx : AgentContext) (fuel : ℕ) (n : NodeName) (r : Option ResumeValue)
    (state : AgentState) (log : Log)
    → rank n ≤ fuel
    → n ≢ submit_refund
    → NotApproved r
    → refunds (walk sv ctx fuel n r state log).1 ≡ refunds log
refunds-walk sv ctx fuel n r state log le other asked =
    walk_rule (Unsubmitted (refunds log)) (Same (refunds log)) sv ctx
      (node-Unsubmitted (refunds log) sv ctx) fuel n r state log le (refl, other, asked)

-- A resume that does not approve (a refusal, or a value without a Boolean) calls no service.
pub resume_refused :
    (sv : Services) (ctx : AgentContext) (value : ResumeValue) (state : AgentState) (log : Log)
    → value ≢ approved true
    → (resume sv ctx value state log).1 ≡ log
unfolding walk node next
resume_refused sv ctx (approved true) state log h = absurd (h refl)
resume_refused sv ctx (approved false) state log h = ground arith
resume_refused sv ctx no_boolean state log h = ground arith
resume_refused sv ctx not_object state log h = ground arith

module _ (sv : Services) (ctx : AgentContext) where
  -- The service's answer to the last call, which the pause shows.
  abbrev pub Queried : AgentState → ApprovalRequest → Log → Type 0
  Queried state payload log =
      (before : Log) × (order : OrderResponse) × (log
        ≡ order_call ctx.tenant_id ctx.user_id payload.order_id ∷ before)
      × (sv.get_order before ctx.tenant_id ctx.user_id payload.order_id ≡ ok order)
      × (payload ≡ approval_payload payload.order_id order)

  abbrev Found : AgentState → Log → Type 0
  Found state log =
      (before : Log) × (order_id : Text) × (order : OrderResponse) × (state.order_id
        ≡ some order_id)
      × (state.order_data ≡ some order)
      × (log ≡ order_call ctx.tenant_id ctx.user_id order_id ∷ before)
      × (sv.get_order before ctx.tenant_id ctx.user_id order_id ≡ ok order)

  abbrev Ready : NodeName → Option ResumeValue → AgentState → Log → Type 0
  Ready request_refund_approval r state log =
      (state.intent ≡ some (some refund)) × (state.order_found ≡ some true) × Found state log
  Ready _ r state log = Unit

  abbrev Shown : Result Error Outcome → Log → Type 0
  Shown (ok (paused state payload)) log =
      (state.intent ≡ some (some refund))
      × (state.order_found ≡ some true)
      × (state.order_id ≡ some payload.order_id)
      × Queried state payload log
  Shown _ log = Unit

  at_target :
      (state : AgentState) (log : Log) (target : Result Error Target)
      → next query_order state ≡ target
      → Found state log
      → AtTarget Ready Shown state log target
  at_target state log (err e) eq found = tt
  at_target state log (ok finish) eq found = tt
  at_target state log (ok (to request_refund_approval)) eq found =
      let q = next-request_refund_approval query_order state eq in (q.2, q.1, found)
  at_target state log (ok (to _)) eq found = tt

  query_result :
      (state : AgentState) (log : Log) (order_id : Text)
      → state.order_id ≡ some order_id
      → (result : Result Error OrderResponse)
      → sv.get_order log ctx.tenant_id ctx.user_id order_id ≡ result
      → let x =
          always sv ctx
            (found_order state result)
            (order_call ctx.tenant_id ctx.user_id order_id ∷ log) in
        AfterNode Ready Shown query_order state x.0 x.1
  unfolding next
  query_result state log order_id eq (ok order) asked =
      at_target (record state { order_found = some true; order_data = some order })
        (order_call ctx.tenant_id ctx.user_id order_id ∷ log) _ refl
        (log, order_id, order, eq, refl, refl, asked)
  query_result state log order_id eq (err (order_not_found_error _)) asked = tt
  query_result state log order_id eq (err _) asked = tt

  query-Shown :
      (state : AgentState) (log : Log) (order_id : Option Text)
      → state.order_id ≡ order_id
      → let x =
          always sv ctx
            (do
              order_id ← required value_error order_id
              result ← attempt (get_order_tool sv ctx.tenant_id ctx.user_id order_id)
              found_order state result)
            log in
        AfterNode Ready Shown query_order state x.0 x.1
  unfolding get_order_tool
  query-Shown state log none eq = tt
  query-Shown state log (some []) eq = tt
  query-Shown state log (some (c ∷ s)) eq = query_result state log (c ∷ s) eq _ refl

  node-Shown :
      (n : NodeName) (r : Option ResumeValue) (state : AgentState) (log : Log)
      → Ready n r state log
      → let x = node sv ctx n r state log in AfterNode Ready Shown n state x.0 x.1
  unfolding node next
  node-Shown submit_refund r state log h = ground arith
  node-Shown analyze_intent r state log h = ground arith
  node-Shown request_clarification r state log h = ground arith
  node-Shown unsupported r state log h = ground arith
  node-Shown query_order r state log h = query-Shown state log state.order_id refl
  node-Shown order_not_found r state log h = ground arith
  node-Shown generate_answer r state log h = ground arith
  node-Shown request_refund_approval none state log
        (is_refund, found, (before, order_id, order, e, d, asked, answered)) =
      rw (e, d) (is_refund, found, refl, (before, order, asked, answered, refl))
  node-Shown request_refund_approval (some r) state log h = ground arith
  node-Shown retrieve_knowledge r state log h = ground arith
  node-Shown generate_knowledge_answer r state log h = ground arith
  node-Shown save_turn r state log h = ground arith

-- A pause is always a refund of a found order. What it shows to the human is what the order service
-- answered in the last call of the run, made for the trusted tenant and user and for the order
-- number that stands in the state.
pub start-paused :
    (sv : Services) (ctx : AgentContext) (state paused_state : AgentState)
    (payload : ApprovalRequest) (log : Log)
    → (start sv ctx state log).0 ≡ ok (paused paused_state payload)
    → (paused_state.intent ≡ some (some refund))
      × (paused_state.order_found ≡ some true)
      × (paused_state.order_id ≡ some payload.order_id)
      × Queried sv ctx paused_state payload (start sv ctx state log).1
start-paused sv ctx state paused_state payload log h =
    subst (λ r. Shown sv ctx r (start sv ctx state log).1) h
      (walk_rule (Ready sv ctx) (Shown sv ctx) sv ctx (node-Shown sv ctx) round_limit analyze_intent
        none state log (omega arith) tt)
