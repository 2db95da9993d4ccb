-- ===== src/Graph/Walk/History.antt =====
-- The conversation that a finished run leaves: `save_turn` of graph/nodes.py.
use mathlib.Core.Path.{subst}
use enterprise_support_agent.Base.{
  ℕ, ◌+◌, ◌-◌, ◌/◌, ◌≤◌, Bool, true, false, Option, none, some, List, [], ◌∷◌, ◌++◌, ◌≡◌, refl,
  arith, Result, ok, length, take_last, length-drop, get_or, ap, if◌then◌else◌, ◌⊎◌, ◌≢◌, inl, inr,
}
use enterprise_support_agent.Base.Text.{Text, is_blank}
use enterprise_support_agent.Domain.{Error, type_error}
use enterprise_support_agent.Exec.{◌>>=◌, pure, raise}
use enterprise_support_agent.Graph.State.{
  AgentState, AgentContext, ConversationMessage, user, assistant,
}
use enterprise_support_agent.Graph.Services.{Services, Log}
use enterprise_support_agent.Graph.Routing.{
  NodeName, analyze_intent, request_clarification, unsupported, query_order, order_not_found,
  generate_answer, request_refund_approval, submit_refund, retrieve_knowledge,
  generate_knowledge_answer, save_turn, rank, next,
}
use enterprise_support_agent.Graph.Nodes.{
  init_nodes, always, required, ResumeValue, node, extended_history, turn_saved, current_order,
}
use enterprise_support_agent.Graph.Walk.{Outcome, finished, walk}
use enterprise_support_agent.Graph.Walk.Turns.{
  IsTurns, IsTurns-append, IsTurns-take_last, IsEnd, take_last-IsEnd,
}
use enterprise_support_agent.Graph.Walk.Rule.{AfterNode, walk_rule}

-- A history of whole turns and of at most `max_messages` messages.
pub record IsHistory (max_messages : ℕ) (h : List ConversationMessage) : Type 0 where
  pub in_turns : IsTurns h
  pub bounded : length h ≤ max_messages

-- The active order is the order of the run, which was found, or there is no such order, and it is
-- the one before the run.
abbrev IsActive : Option Text → AgentState → Type 0
IsActive before state =
    ((order_id : Text) × (state.order_found ≡ some true)
      × (state.order_id ≡ some order_id)
      × (state.active_order_id ≡ some order_id))
    ⊎ (((state.order_found ≢ some true) ⊎ (state.order_id ≡ none))
        × (state.active_order_id ≡ before))

current_order-cases :
    (found : Option Bool) (order_id active : Option Text)
    → ((o : Text) × (found ≡ some true)
        × (order_id ≡ some o)
        × (current_order found order_id active ≡ some o))
      ⊎ (((found ≢ some true) ⊎ (order_id ≡ none)) × (current_order found order_id active ≡ active))
current_order-cases none order_id active = inr (inl (λ p. cc), refl)
current_order-cases (some false) order_id active = inr (inl (λ p. cc), refl)
current_order-cases (some true) none active = inr (inr refl, refl)
current_order-cases (some true) (some o) active = inl (o, refl, refl, refl)

current_order-IsActive :
    (before : Option Text) (state : AgentState)
    → state.active_order_id ≡ current_order state.order_found state.order_id before
    → IsActive before state
current_order-IsActive before state h =
    rw h (current_order-cases state.order_found state.order_id before)

half_max :
    (sv sv' : Services) → init_nodes sv ≡ ok sv' → (m : ℕ) × (sv'.history_max_messages ≡ m + m)
unfolding init_nodes
half_max sv sv' h = (sv.history_max_messages / 2, ground arith)

turn_saved-IsHistory :
    (m : ℕ) (state : AgentState) (answer : Text)
    → IsTurns (get_or state.conversation_history [])
    → IsHistory (m + m) (take_last (m + m) (extended_history state answer))
turn_saved-IsHistory m state answer h = record {
  in_turns =
      IsTurns-take_last m (extended_history state answer)
        (IsTurns-append (get_or state.conversation_history []) _ h (refl, refl, tt));
  bounded = omega (
    arith,
    length-drop (length (extended_history state answer) - (m + m)) (extended_history state answer),
  );
}

module _ (sv : Services) (ctx : AgentContext) (s : AgentState) where
  abbrev Kept : NodeName → Option ResumeValue → AgentState → Log → Type 0
  Kept n r state log =
      (state.message ≡ s.message)
      × (state.conversation_history ≡ s.conversation_history)
      × (state.active_order_id ≡ s.active_order_id)

  -- What `turn_saved` makes of the state before the run.
  abbrev Turned : AgentState → Type 0
  Turned state =
      (answer : Text) × (state.answer ≡ some answer)
      × (is_blank answer ≡ false)
      × (state.message ≡ s.message)
      × (state.conversation_history
          ≡ some (take_last sv.history_max_messages (extended_history s answer)))
      × (state.active_order_id ≡ current_order state.order_found state.order_id s.active_order_id)

  abbrev SavedAtEnd : Result Error Outcome → Log → Type 0
  SavedAtEnd (ok (finished state)) log = Turned state
  SavedAtEnd _ log = Unit

  same_history :
      (state : AgentState) (answer : Text)
      → Kept save_turn none state []
      → extended_history state answer ≡ extended_history s answer
  same_history state answer h = simp (h.0, h.1)

  saved_if :
      (state : AgentState) (log : Log) (answer : Text)
      → state.answer ≡ some answer
      → Kept save_turn none state log
      → (b : Bool) → is_blank answer ≡ b
      → let x =
          always sv ctx
            (if b then raise type_error else pure (turn_saved sv.history_max_messages state answer))
            log in
        AfterNode Kept SavedAtEnd save_turn state x.0 x.1
  unfolding next turn_saved
  saved_if state log answer eq h true blank = tt
  saved_if state log answer eq h false told = (
    answer,
    eq,
    told,
    h.0,
    ap some (ap (take_last sv.history_max_messages) (same_history state answer h)),
    ap (current_order state.order_found state.order_id) h.2,
  )

  saved :
      (state : AgentState) (log : Log) (answer : Option Text)
      → state.answer ≡ answer
      → Kept save_turn none state log
      → let x =
          always sv ctx
            (do
              answer ← required type_error answer
              if is_blank answer
                  then raise type_error
                  else pure (turn_saved sv.history_max_messages state answer))
            log in
        AfterNode Kept SavedAtEnd save_turn state x.0 x.1
  saved state log none eq h = tt
  saved state log (some answer) eq h = saved_if state log answer eq h (is_blank answer) refl

  node_saved :
      (n : NodeName) (r : Option ResumeValue) (state : AgentState) (log : Log)
      → Kept n r state log
      → let x = node sv ctx n r state log in AfterNode Kept SavedAtEnd n state x.0 x.1
  unfolding node next
  node_saved submit_refund r state log h = ground arith
  node_saved analyze_intent r state log h = ground arith
  node_saved request_clarification r state log h = ground arith
  node_saved unsupported r state log h = ground arith
  node_saved query_order r state log h = ground arith
  node_saved order_not_found r state log h = ground arith
  node_saved generate_answer r state log h = ground arith
  node_saved request_refund_approval r state log h = ground arith
  node_saved retrieve_knowledge r state log h = ground arith
  node_saved generate_knowledge_answer r state log h = ground arith
  node_saved save_turn r state log h = saved state log state.answer refl h

  walk-Turned :
      (fuel : ℕ) (n : NodeName) (r : Option ResumeValue) (log : Log) (state : AgentState)
      → rank n ≤ fuel
      → (walk sv ctx fuel n r s log).0 ≡ ok (finished state)
      → Turned state
  walk-Turned fuel n r log state le h =
      subst (λ x. SavedAtEnd x (walk sv ctx fuel n r s log).1) h
        (walk_rule Kept SavedAtEnd sv ctx node_saved fuel n r s log le (refl, refl, refl))

  -- The messages of the turn: the user's one, and the answer.
  abbrev turn : Text → List ConversationMessage
  turn answer =
      record { role = user; content = s.message }
      ∷ record { role = assistant; content = answer }
      ∷ []

  -- The run saved an answer that is not blank, behind the history before the run.
  abbrev pub Saved : AgentState → Type 0
  Saved state =
      (answer : Text) × (kept : List ConversationMessage) × (state.answer ≡ some answer)
      × (is_blank answer ≡ false)
      × (state.message ≡ s.message)
      × (state.conversation_history ≡ some kept)
      × IsEnd sv.history_max_messages (get_or s.conversation_history [] ++ turn answer) kept
      × IsActive s.active_order_id state

  -- A run of the graph that ends has an answer that is not blank. Its history is the one before the
  -- run, the message and the answer, without the first messages where these are more than the
  -- limit. The active order is the run's order if that was found, and else the one before the run.
  pub walk-Saved :
      (fuel : ℕ) (n : NodeName) (r : Option ResumeValue) (log : Log) (state : AgentState)
      → rank n ≤ fuel
      → (walk sv ctx fuel n r s log).0 ≡ ok (finished state)
      → Saved state
  walk-Saved fuel n r log state le h =
      let (answer, told, not_blank, message, history, active) =
        walk-Turned fuel n r log state le h in
      let all_messages = get_or s.conversation_history [] ++ turn answer in
      (
        answer,
        take_last sv.history_max_messages all_messages,
        told,
        not_blank,
        message,
        history,
        take_last-IsEnd sv.history_max_messages all_messages,
        current_order-IsActive s.active_order_id state active,
      )

-- With a limit on the messages that `SupportAgentNodes` accepts, a finished run that began with a
-- history of whole turns leaves one of whole turns, within the limit.
pub walk-IsHistory :
    (sv accepted : Services) (ctx : AgentContext) (fuel : ℕ) (n : NodeName) (r : Option ResumeValue)
    (s : AgentState) (log : Log) (state : AgentState)
    → init_nodes sv ≡ ok accepted
    → rank n ≤ fuel
    → IsTurns (get_or s.conversation_history [])
    → (walk accepted ctx fuel n r s log).0 ≡ ok (finished state)
    → IsHistory accepted.history_max_messages (get_or state.conversation_history [])
walk-IsHistory sv accepted ctx fuel n r s log state start le h e =
    let (m, half) = half_max sv accepted start in
    let (answer, a, b, c, history, d) = walk-Turned accepted ctx s fuel n r log state le e in
    rw (history, half) (turn_saved-IsHistory m s answer h)
