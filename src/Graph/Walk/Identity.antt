-- ===== src/Graph/Walk/Identity.antt =====
-- Who the services are asked for: the tenant and user of the request's context, never one that the
-- model or the message names.
use enterprise_support_agent.Base.{ℕ, ◌≤◌, Option, some, ◌≡◌, arith, Result, ok, err, All}
use enterprise_support_agent.Domain.{Error}
use enterprise_support_agent.Graph.State.{AgentState, AgentContext}
use enterprise_support_agent.Graph.Services.{
  Services, Log, Call, order_call, refund_call, retrieve_call,
}
use enterprise_support_agent.Graph.Routing.{
  NodeName, analyze_intent, request_clarification, unsupported, query_order, order_not_found,
  generate_answer, request_refund_approval, submit_refund, retrieve_knowledge,
  generate_knowledge_answer, save_turn, rank, next, Target, to, finish,
}
use enterprise_support_agent.Graph.Nodes.{ResumeValue, NodeOutcome, updated, interrupted, node}
use enterprise_support_agent.Graph.Walk.{Outcome, walk}
use enterprise_support_agent.Graph.Walk.Rule.{AfterNode, AtTarget, walk_rule}

module _ (ctx : AgentContext) where
  -- A call for the context's tenant and, where it names a user, the context's user.
  abbrev pub IsTrusted : Call → Type 0
  IsTrusted (order_call tenant user order) = (tenant ≡ ctx.tenant_id) × (user ≡ ctx.user_id)
  IsTrusted (refund_call tenant user order key) =
      (tenant ≡ ctx.tenant_id) × (user ≡ ctx.user_id) × (ctx.idempotency_key ≡ some key)
  IsTrusted (retrieve_call tenant question) = tenant ≡ ctx.tenant_id
  IsTrusted _ = Unit

  abbrev Before : NodeName → Option ResumeValue → AgentState → Log → Type 0
  Before n r state log = All IsTrusted log

  abbrev After : Result Error Outcome → Log → Type 0
  After result log = All IsTrusted log

  target_trusted :
      (state : AgentState) (log : Log) (target : Result Error Target)
      → All IsTrusted log
      → AtTarget Before After state log target
  target_trusted state log (err e) h = h
  target_trusted state log (ok finish) h = h
  target_trusted state log (ok (to m)) h = h

  outcome_trusted :
      (n : NodeName) (state : AgentState) (r : Result Error NodeOutcome) (log : Log)
      → All IsTrusted log
      → AfterNode Before After n state r log
  outcome_trusted n state (err e) log h = h
  outcome_trusted n state (ok (interrupted payload)) log h = h
  outcome_trusted n state (ok (updated state')) log h = target_trusted state' log (next n state') h

  node-IsTrusted :
      (sv : Services) (n : NodeName) (r : Option ResumeValue) (state : AgentState) (log : Log)
      → All IsTrusted log
      → All IsTrusted (node sv ctx n r state log).1
  unfolding node
  node-IsTrusted sv submit_refund r state log h = ground arith
  node-IsTrusted sv analyze_intent r state log h = ground arith
  node-IsTrusted sv request_clarification r state log h = ground arith
  node-IsTrusted sv unsupported r state log h = ground arith
  node-IsTrusted sv query_order r state log h = ground arith
  node-IsTrusted sv order_not_found r state log h = ground arith
  node-IsTrusted sv generate_answer r state log h = ground arith
  node-IsTrusted sv request_refund_approval r state log h = ground arith
  node-IsTrusted sv retrieve_knowledge r state log h = ground arith
  node-IsTrusted sv generate_knowledge_answer r state log h = ground arith
  node-IsTrusted sv save_turn r state log h = ground arith

  -- Whatever the message, the models and the services say, each order lookup, refund and retrieval
  -- of a run is made for the tenant and the user of the context, and each refund under the
  -- context's idempotency key.
  pub walk-IsTrusted :
      (sv : Services) (fuel : ℕ) (n : NodeName) (r : Option ResumeValue) (state : AgentState)
      (log : Log)
      → rank n ≤ fuel
      → All IsTrusted log
      → All IsTrusted (walk sv ctx fuel n r state log).1
  walk-IsTrusted sv fuel n r state log le h =
      walk_rule Before After sv ctx
        (λ n r s l t.
          let x = node sv ctx n r s l in outcome_trusted n s x.0 x.1 (node-IsTrusted sv n r s l t))
        fuel n r state log le h
