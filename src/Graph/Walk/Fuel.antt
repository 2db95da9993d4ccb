-- ===== src/Graph/Walk/Fuel.antt =====
-- A run of the graph ends: LangGraph's limit of 25 rounds is never met.
use enterprise_support_agent.Base.{ℕ, ◌≤◌, Option, ◌≢◌, Result, ok, err}
use enterprise_support_agent.Domain.{Error}
use enterprise_support_agent.Graph.State.{AgentState, AgentContext}
use enterprise_support_agent.Graph.Services.{Services, Log}
use enterprise_support_agent.Graph.Routing.{NodeName, rank, next, Target, to, finish}
use enterprise_support_agent.Graph.Nodes.{ResumeValue, NodeOutcome, updated, interrupted, node}
use enterprise_support_agent.Graph.Walk.{Outcome, limit_reached, walk}
use enterprise_support_agent.Graph.Walk.Rule.{AfterNode, AtTarget, walk_rule}

abbrev Anything : NodeName → Option ResumeValue → AgentState → Log → Type 0
Anything n r state log = Unit

abbrev Ends : Result Error Outcome → Log → Type 0
Ends result log = result ≢ ok limit_reached

target-Ends :
    (state : AgentState) (log : Log) (target : Result Error Target)
    → AtTarget Anything Ends state log target
target-Ends state log (err e) = λ p. cc
target-Ends state log (ok finish) = λ p. cc
target-Ends state log (ok (to m)) = tt

node-Ends :
    (n : NodeName) (state : AgentState) (r : Result Error NodeOutcome) (log : Log)
    → AfterNode Anything Ends n state r log
node-Ends n state (err e) log = λ p. cc
node-Ends n state (ok (interrupted payload)) log = λ p. cc
node-Ends n state (ok (updated state')) log = target-Ends state' log (next n state')

-- From any node, with the number of rounds of its longest way to the end or more, a run with any
-- services ends with a result, a pause or an exception, and does not meet the limit of rounds.
pub walk_ends :
    (sv : Services) (ctx : AgentContext) (fuel : ℕ) (n : NodeName) (r : Option ResumeValue)
    (state : AgentState) (log : Log)
    → rank n ≤ fuel
    → (walk sv ctx fuel n r state log).0 ≢ ok limit_reached
walk_ends sv ctx fuel n r state log le =
    walk_rule Anything Ends sv ctx
      (λ n r s l _. let x = node sv ctx n r s l in node-Ends n s x.0 x.1) fuel n r state log le tt
