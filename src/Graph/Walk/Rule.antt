-- ===== src/Graph/Walk/Rule.antt =====
-- How to prove a property of all runs: what holds before each node, and what holds at the end.
use enterprise_support_agent.Base.{
  ℕ, zero, suc, ◌≤◌, Option, none, ◌≡◌, refl, arith, Result, ok, err,
}
use enterprise_support_agent.Domain.{Error}
use enterprise_support_agent.Exec.{continue}
use enterprise_support_agent.Graph.State.{AgentState, AgentContext}
use enterprise_support_agent.Graph.Services.{Services, Log}
use enterprise_support_agent.Graph.Routing.{
  NodeName, Target, to, finish, next, rank, rank-next, rank_pos,
}
use enterprise_support_agent.Graph.Nodes.{ResumeValue, NodeOutcome, updated, interrupted, node}
use enterprise_support_agent.Graph.Walk.{Outcome, finished, paused, enter, proceed, walk}

module _ (Pre : NodeName → Option ResumeValue → AgentState → Log → Type 0)
    (Post : Result Error Outcome → Log → Type 0) where
  -- What is to be shown once the edge out of a node is known.
  abbrev pub AtTarget : AgentState → Log → Result Error Target → Type 0
  AtTarget state log (err e) = Post (err e) log
  AtTarget state log (ok finish) = Post (ok (finished state)) log
  AtTarget state log (ok (to m)) = Pre m none state log

  -- What is to be shown of a node that was run in `state`.
  abbrev pub AfterNode : NodeName → AgentState → Result Error NodeOutcome → Log → Type 0
  AfterNode n state (err e) log = Post (err e) log
  AfterNode n state (ok (interrupted payload)) log = Post (ok (paused state payload)) log
  AfterNode n state (ok (updated state')) log = AtTarget state' log (next n state')

  module _ (fuel : ℕ) (go : NodeName → AgentState → Log → Result Error Outcome × Log)
      (reach : (m : NodeName) (state : AgentState) (log : Log)
        → rank m ≤ fuel
        → Pre m none state log
        → Post (go m state log).0 (go m state log).1) where
    enter_rule :
        (n : NodeName) (state : AgentState) (log : Log) (target : Result Error Target)
        → next n state ≡ target
        → rank n ≤ suc fuel
        → AtTarget state log target
        → let x = continue target (enter go state) log in Post x.0 x.1
    enter_rule n state log (err e) eq le h = h
    enter_rule n state log (ok finish) eq le h = h
    enter_rule n state log (ok (to m)) eq le h =
        reach m state log (omega (arith, rank-next n state m eq)) h

    proceed_rule :
        (n : NodeName) (state : AgentState) (r : Result Error NodeOutcome) (log : Log)
        → rank n ≤ suc fuel
        → AfterNode n state r log
        → let x = continue r (proceed go n state) log in Post x.0 x.1
    proceed_rule n state (err e) log le h = h
    proceed_rule n state (ok (interrupted payload)) log le h = h
    proceed_rule n state (ok (updated state')) log le h =
        enter_rule n state' log (next n state') refl le h

  module _ (sv : Services) (ctx : AgentContext)
      (step : (n : NodeName) (r : Option ResumeValue) (state : AgentState) (log : Log)
        → Pre n r state log
        → let x = node sv ctx n r state log in AfterNode n state x.0 x.1) where
    pub walk_rule :
        (fuel : ℕ) (n : NodeName) (r : Option ResumeValue) (state : AgentState) (log : Log)
        → rank n ≤ fuel
        → Pre n r state log
        → let x = walk sv ctx fuel n r state log in Post x.0 x.1
    unfolding walk
    walk_rule zero n r state log le h = absurd (omega (arith, rank_pos n))
    walk_rule (suc fuel) n r state log le h =
        let (result, log') = node sv ctx n r state log in
        proceed_rule fuel (λ m s. walk sv ctx fuel m none s) (λ m s l. walk_rule fuel m none s l) n
          state result log' le (step n r state log h)
