-- ===== src/Graph/Walk/Decision.antt =====
-- How a paused run goes on with the human's decision.
use enterprise_support_agent.Base.{
  ℕ, suc, true, false, some, ◌∷◌, ◌++◌, ◌≡◌, refl, arith, Result, ok, err,
}
use enterprise_support_agent.Base.Text.{Text, lit, nonblank_head, is_space}
use enterprise_support_agent.Domain.{OrderResponse, Error}
use enterprise_support_agent.Graph.State.{AgentState, AgentContext}
use enterprise_support_agent.Graph.Services.{Services, Log, refund_call}
use enterprise_support_agent.Graph.Routing.{request_refund_approval, next}
use enterprise_support_agent.Graph.Nodes.{
  approved, node, turn_saved, refund_submitted_answer, refund_cancelled_answer,
}
use enterprise_support_agent.Graph.Walk.{Outcome, finished, walk, resume}

-- How a resume with approval ends, from the order service's answer.
abbrev submitted : ℕ → AgentState → Text → Result Error OrderResponse → Result Error Outcome
submitted max_messages state order_id (err e) = err e
submitted max_messages state order_id (ok order) = ok (
    finished (
      turn_saved max_messages
        (record state {
          refund_approved = some true;
          order_data = some order;
          answer = some (refund_submitted_answer order_id);
        })
        (refund_submitted_answer order_id)))

walk_approved :
    (fuel : ℕ) (sv : Services) (ctx : AgentContext) (state : AgentState) (log : Log)
    (order_id key : Text) (order : OrderResponse)
    → state.order_id ≡ some order_id
    → state.order_data ≡ some order
    → ctx.idempotency_key ≡ some key
    → let call = refund_call ctx.tenant_id ctx.user_id order_id key in
      walk sv ctx (suc (suc (suc fuel))) request_refund_approval (some (approved true)) state log
      ≡ (
        submitted sv.history_max_messages state order_id
            (sv.request_refund log ctx.tenant_id ctx.user_id order_id key),
        call ∷ log,
      )
unfolding walk node next is_space
walk_approved fuel sv ctx state log order_id key order e d k =
    ground
      (arith, nonblank_head 35746 (lit "单 " ++ (order_id ++ lit " 的退款申请已提交，当前状态为 REFUNDING。")) refl)

-- A resume with approval, under an idempotency key, submits exactly one refund, for the order
-- number in the paused state, and calls nothing else. It ends with the turn saved if the order
-- service accepts the refund, and else raises what the order service raised.
pub resume_approved :
    (sv : Services) (ctx : AgentContext) (state : AgentState) (log : Log) (order_id key : Text)
    (order : OrderResponse)
    → state.order_id ≡ some order_id
    → state.order_data ≡ some order
    → ctx.idempotency_key ≡ some key
    → let call = refund_call ctx.tenant_id ctx.user_id order_id key in
      resume sv ctx (approved true) state log ≡ (
        submitted sv.history_max_messages state order_id
            (sv.request_refund log ctx.tenant_id ctx.user_id order_id key),
        call ∷ log,
      )
resume_approved sv ctx state log order_id key order e d k =
    walk_approved 22 sv ctx state log order_id key order e d k

walk_refused :
    (fuel : ℕ) (sv : Services) (ctx : AgentContext) (state : AgentState) (log : Log)
    (order_id : Text) (order : OrderResponse)
    → state.order_id ≡ some order_id
    → state.order_data ≡ some order
    → walk sv ctx (suc (suc fuel)) request_refund_approval (some (approved false)) state log ≡ (
      ok (
          finished (
            turn_saved sv.history_max_messages
              (record state {
                refund_approved = some false;
                answer = some (refund_cancelled_answer order_id);
              })
              (refund_cancelled_answer order_id))),
      log,
    )
unfolding walk node next is_space
walk_refused fuel sv ctx state log order_id order e d =
    ground (arith, nonblank_head 24050 (lit "取消订单 " ++ (order_id ++ lit " 的退款申请。")) refl)

-- A refusal ends the run: the answer says that the refund of the paused order is cancelled, the
-- turn is saved with it, and nothing is called.
pub resume_cancelled :
    (sv : Services) (ctx : AgentContext) (state : AgentState) (log : Log) (order_id : Text)
    (order : OrderResponse)
    → state.order_id ≡ some order_id
    → state.order_data ≡ some order
    → resume sv ctx (approved false) state log ≡ (
      ok (
          finished (
            turn_saved sv.history_max_messages
              (record state {
                refund_approved = some false;
                answer = some (refund_cancelled_answer order_id);
              })
              (refund_cancelled_answer order_id))),
      log,
    )
resume_cancelled sv ctx state log order_id order e d =
    walk_refused 23 sv ctx state log order_id order e d
