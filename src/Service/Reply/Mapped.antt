-- ===== src/Service/Reply/Mapped.antt =====
-- The graph and the service fit together: `_map_graph_result` accepts what the graph's runs give.
use mathlib.Core.Path.{subst}
use enterprise_support_agent.Base.{◌>>=◌ as bind}
use enterprise_support_agent.Base.{
  false, Option, none, some, List, [], ◌∷◌, ◌≡◌, refl, arith, Result, ok, err, is_empty, All,
  get_or, if◌then◌else◌,
}
use enterprise_support_agent.Base.Text.{Text, is_blank, text_eq_refl}
use enterprise_support_agent.Domain.{
  IntentType, KnowledgeReference, ApprovalRequest, reply, approval_required, Error,
  knowledge_store_unavailable_error,
}
use enterprise_support_agent.Exec.{◌>>=◌, pure, lift, attempt}
use enterprise_support_agent.Rag.Context.{
  Document, FormattedKnowledgeContext, format_retrieved_context,
}
use enterprise_support_agent.Rag.Context.Numbering.{
  Numbered, HasTexts, format_retrieved_context-valid,
}
use enterprise_support_agent.Graph.State.{AgentState, AgentContext, no_match, available}
use enterprise_support_agent.Graph.Services.{Services, Log, retrieve_call, ask}
use enterprise_support_agent.Graph.Routing.{
  NodeName, analyze_intent, request_clarification, unsupported, query_order, order_not_found,
  generate_answer, request_refund_approval, submit_refund, retrieve_knowledge,
  generate_knowledge_answer, save_turn, next,
}
use enterprise_support_agent.Graph.Nodes.{
  ResumeValue, node, always, retrieved, knowledge_unavailable,
}
use enterprise_support_agent.Graph.Walk.{Outcome, finished, paused, start, round_limit}
use enterprise_support_agent.Graph.Walk.Rule.{AfterNode, walk_rule}
use enterprise_support_agent.Graph.Walk.History.{walk-Saved}
use enterprise_support_agent.Graph.Walk.Approval.{start-paused}
use enterprise_support_agent.Service.Reply.{
  with_input, map_graph_result, map_finished, map_interrupted, validate_approval,
}
use enterprise_support_agent.Service.Reply.Unique.{count_distinct-Numbered, all-is_source}

abbrev AreSources : List KnowledgeReference → Type 0
AreSources rs = Numbered 1 rs × All HasTexts rs

abbrev IsKnown : Option (Option IntentType) → Type 0
IsKnown (some (some intent)) = Unit
IsKnown _ = ⊥

abbrev HasIntent : AgentState → Type 0
HasIntent state = IsKnown state.intent

-- The intent is known behind the first node.
abbrev Known : NodeName → AgentState → Type 0
Known analyze_intent state = Unit
Known _ state = HasIntent state

abbrev Fit : NodeName → Option ResumeValue → AgentState → Log → Type 0
Fit n r state log = AreSources (get_or state.knowledge_references []) × Known n state

abbrev Fits : Result Error Outcome → Log → Type 0
Fits (ok (finished state)) log = AreSources (get_or state.knowledge_references []) × HasIntent state
Fits _ log = Unit

module _ (sv : Services) (ctx : AgentContext) where
  formatted-Fit :
      (state : AgentState) (chunks : List Document) (log : Log)
      → HasIntent state
      → (context : Result Error FormattedKnowledgeContext)
      → format_retrieved_context chunks ≡ context
      → let x =
          always sv ctx
            (do
              context ← lift context
              pure (record state {
                knowledge_status = some (if is_empty chunks then no_match else available);
                knowledge_context = some context.text;
                knowledge_references = some context.references;
              }))
            log in
        AfterNode Fit Fits retrieve_knowledge state x.0 x.1
  unfolding next
  formatted-Fit state chunks log known (err e) eq = tt
  formatted-Fit state chunks log known (ok context) eq =
      let (numbered, texts, count) = format_retrieved_context-valid chunks context eq in
      ((numbered, texts), known)

  retrieved-Fit :
      (state : AgentState) (log : Log) (result : Result Error (List Document))
      → HasIntent state
      → let x = always sv ctx (retrieved state result) log in
        AfterNode Fit Fits retrieve_knowledge state x.0 x.1
  unfolding next
  retrieved-Fit state log (err knowledge_store_unavailable_error) known = ((tt, tt), known)
  retrieved-Fit state log (err _) known = tt
  retrieved-Fit state log (ok chunks) known =
      formatted-Fit state chunks log known (format_retrieved_context chunks) refl

  retriever-Fit :
      (state : AgentState) (log : Log)
      (retriever : Option (Log → Text → Text → Result Error (List Document)))
      → HasIntent state
      → let x =
          always sv ctx
            (elim retriever [
              | none ↦ pure (knowledge_unavailable state)
              | some retrieve ↦ do
                result ← attempt (
                    ask
                      (retrieve_call ctx.tenant_id state.message)
                      (λ log. retrieve log ctx.tenant_id state.message))
                retrieved state result
            ])
            log in
        AfterNode Fit Fits retrieve_knowledge state x.0 x.1
  unfolding next
  retriever-Fit state log none known = ((tt, tt), known)
  retriever-Fit state log (some retrieve) known =
      retrieved-Fit state (retrieve_call ctx.tenant_id state.message ∷ log)
        (retrieve log ctx.tenant_id state.message) known

  node-Fit :
      (n : NodeName) (r : Option ResumeValue) (state : AgentState) (log : Log)
      → Fit n r state log
      → let x = node sv ctx n r state log in AfterNode Fit Fits n state x.0 x.1
  unfolding node next
  node-Fit submit_refund r state log h = ground arith
  node-Fit analyze_intent r state log h = ground arith
  node-Fit request_clarification r state log h = ground arith
  node-Fit unsupported r state log h = ground arith
  node-Fit query_order r state log h = ground arith
  node-Fit order_not_found r state log h = ground arith
  node-Fit generate_answer r state log h = ground arith
  node-Fit request_refund_approval r state log h = ground arith
  node-Fit retrieve_knowledge r state log h = retriever-Fit state log sv.knowledge_retriever h.1
  node-Fit generate_knowledge_answer r state log h = ground arith
  node-Fit save_turn r state log h = ground arith

known_intent :
    (i : Option (Option IntentType)) → IsKnown i → (intent : IntentType) × (i ≡ some (some intent))
known_intent none h = absurd h
known_intent (some none) h = absurd h
known_intent (some (some intent)) h = (intent, refl)

map_finished_lem :
    (state : AgentState) (answer : Text) (intent : IntentType)
    → state.answer ≡ some answer
    → state.intent ≡ some (some intent)
    → is_blank answer ≡ false
    → AreSources (get_or state.knowledge_references [])
    → map_finished state
      ≡ ok (
          reply (record {
            answer = answer;
            intent = intent;
            order_id = state.order_id;
            sources = get_or state.knowledge_references [];
          }))
unfolding map_finished
map_finished_lem state answer intent a i told sources =
    let rs = get_or state.knowledge_references [] in
    ground (
      arith,
      all-is_source 1 rs (omega arith) sources.0 sources.1,
      count_distinct-Numbered 1 rs sources.0,
    )

-- A run on a new message that ends is answered: the mapping raises no exception, and the reply has
-- the answer and the order number of the final state, an intent that the analysis gave it, and the
-- sources that the final state lists.
pub map-start_finished :
    (sv : Services) (ctx : AgentContext) (checkpoint : Option AgentState) (message : Text)
    (log : Log) (state : AgentState)
    → (start sv ctx (with_input checkpoint message) log).0 ≡ ok (finished state)
    → (answer : Text) × (intent : IntentType) × (state.answer ≡ some answer)
      × (state.intent ≡ some (some intent))
      × (is_blank answer ≡ false)
      × (map_graph_result (record { state = state; interrupts = [] })
          ≡ ok (
              reply (record {
                answer = answer;
                intent = intent;
                order_id = state.order_id;
                sources = get_or state.knowledge_references [];
              })))
unfolding map_graph_result with_input
map-start_finished sv ctx checkpoint message log state h =
    let s = with_input checkpoint message in
    let (answer, kept, a, told, m, history, ends, active) =
      walk-Saved sv ctx s round_limit analyze_intent none log state (omega arith) h in
    let (sources, known) =
      subst (λ x. Fits x (start sv ctx s log).1) h
        (walk_rule Fit Fits sv ctx (node-Fit sv ctx) round_limit analyze_intent none s log
          (omega arith) ((tt, tt), tt)) in
    let (intent, i) = known_intent state.intent known in
    (answer, intent, a, i, told, map_finished_lem state answer intent a i told sources)

-- A run on a new message that pauses is answered by the request for approval, if the order that the
-- order service gave has a product name and no negative amount and the order number is not empty,
-- and else by `TypeError`: the checks of intent and order number on a pause never fail.
pub map-start_paused :
    (sv : Services) (ctx : AgentContext) (checkpoint : Option AgentState) (message : Text)
    (log : Log) (state : AgentState) (payload : ApprovalRequest)
    → (start sv ctx (with_input checkpoint message) log).0 ≡ ok (paused state payload)
    → map_graph_result (record { state = state; interrupts = payload ∷ [] })
      ≡ bind (validate_approval payload) (λ a. ok (approval_required a.order_id a))
unfolding map_graph_result map_interrupted validate_approval
map-start_paused sv ctx checkpoint message log state payload h =
    let (is_refund, found, order_id, queried) =
      start-paused sv ctx (with_input checkpoint message) state payload log h in
    ground (arith, text_eq_refl payload.order_id)
