-- ===== src/Graph/Walk.antt =====
-- The compiled graph of agent-service/src/agent_service/graph/builder.py: from a node, run it and
-- follow its edge. LangGraph stops after 25 rounds by default, which the fuel stands for.
pub mod Rule
pub mod Fuel
pub mod Approval
pub mod Decision
pub mod Identity
pub mod Turns
pub mod History
use enterprise_support_agent.Base.{
  ℕ, zero, suc, Bool, true, false, Option, none, some, ◌≡◌, refl, arith, Result, ok, err,
}
use enterprise_support_agent.Base.Text.{Text}
use enterprise_support_agent.Domain.{ApprovalRequest, Error}
use enterprise_support_agent.Exec.{Exec, pure, raise, lift, ◌>>=◌}
use enterprise_support_agent.Graph.State.{AgentState, AgentContext, no_match}
use enterprise_support_agent.Graph.Services.{Services, Log}
use enterprise_support_agent.Graph.Routing.{
  NodeName, analyze_intent, request_refund_approval, Target, to, finish, next,
}
use enterprise_support_agent.Graph.Nodes.{
  ResumeValue, approved, NodeOutcome, updated, interrupted, node,
}

-- The run ended, paused at an `interrupt`, or met the limit (`GraphRecursionError`).
pub data Outcome : Type 0 where
  finished : AgentState → Outcome
  paused : AgentState → ApprovalRequest → Outcome
  limit_reached : Outcome

abbrev pub enter :
    (NodeName → AgentState → Exec Log Outcome) → AgentState → Target → Exec Log Outcome
enter go state finish = pure (finished state)
enter go state (to m) = go m state

abbrev pub proceed :
    (NodeName → AgentState → Exec Log Outcome)
    → NodeName
    → AgentState
    → NodeOutcome
    → Exec Log Outcome
proceed go n state (interrupted payload) = pure (paused state payload)
proceed go n state (updated state') = do target ← lift (next n state'); enter go state' target

module _ (sv : Services) (ctx : AgentContext) where
  -- Only the node at which the run starts can see a resume value.
  unfoldable pub walk : ℕ → NodeName → Option ResumeValue → AgentState → Exec Log Outcome
  walk zero n resume state = pure limit_reached
  walk (suc fuel) n resume state = do
    outcome ← node sv ctx n resume state
    proceed (λ m state'. walk fuel m none state') n state outcome

abbrev pub round_limit : ℕ
round_limit = 25

-- `graph.ainvoke(input)`, from the state into which the input is merged.
abbrev pub start : Services → AgentContext → AgentState → Exec Log Outcome
start sv ctx state = walk sv ctx round_limit analyze_intent none state

-- `graph.ainvoke(Command(resume=value))` for a run that is paused in `state`.
abbrev pub resume : Services → AgentContext → ResumeValue → AgentState → Exec Log Outcome
resume sv ctx value state = walk sv ctx round_limit request_refund_approval (some value) state
