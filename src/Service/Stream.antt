-- ===== src/Service/Stream.antt =====
-- `_stream_graph` and `_extract_user_visible_token` of
-- agent-service/src/agent_service/services/support_agent.py. What LangGraph streams is a list of
-- events, with the exception, if any, that ends it.
pub mod Laws
use enterprise_support_agent.Base.{
  Bool, true, false, Option, none, some, List, [], ◌∷◌, ◌++◌, ◌≡◌, refl, arith, if◌then◌else◌,
  Result, ok, err, is_empty,
}
use enterprise_support_agent.Base.Text.{Text}
use enterprise_support_agent.Domain.{ApprovalRequest, AgentResult, Error, type_error}
use enterprise_support_agent.Graph.State.{AgentState}
use enterprise_support_agent.Graph.Routing.{NodeName, generate_answer, generate_knowledge_answer}
use enterprise_support_agent.Service.Reply.{GraphResult, map_graph_result}

-- A block of a message's content: a text, a dict (is its "type" equal to "text", and its "text",
-- if that is a `str`), or something else.
pub data Block : Type 0 where
  plain : Text → Block
  typed : Bool → Option Text → Block
  other_block : Block

-- `message.content`
pub data Content : Type 0 where
  text : Text → Content
  blocks : List Block → Content
  no_content : Content

-- An event of the graph's stream: a message with its "langgraph_node", if that is a node of the
-- graph, a state with its interrupts, an event of another type, or one whose data are malformed.
pub data GraphEvent : Type 0 where
  messages : Option NodeName → Content → GraphEvent
  values : AgentState → List ApprovalRequest → GraphEvent
  other_event : GraphEvent
  malformed : GraphEvent

pub data AgentStreamEvent : Type 0 where
  token : Text → AgentStreamEvent
  completed : AgentResult → AgentStreamEvent

-- `_USER_VISIBLE_STREAM_NODES`
unfoldable pub is_user_visible : Option NodeName → Bool
is_user_visible (some generate_answer) = true
is_user_visible (some generate_knowledge_answer) = true
is_user_visible _ = false

abbrev block_text : Block → Text
block_text (plain s) = s
block_text (typed true (some s)) = s
block_text _ = []

abbrev join_blocks : List Block → Text
join_blocks [] = []
join_blocks (b ∷ bs) = block_text b ++ join_blocks bs

abbrev content_text : Content → Text
content_text (text s) = s
content_text (blocks bs) = join_blocks bs
content_text no_content = []

unfoldable pub extract_user_visible_token : Option NodeName → Content → Text
unfolding is_user_visible
extract_user_visible_token node content = if is_user_visible node then content_text content else []

-- The events that were yielded, and the exception that ended the stream.
abbrev pub Yielded {ℓ} : Type ℓ → Type ℓ
Yielded A = List A × Option Error

abbrev pub yield_first {ℓ} : {A : Type ℓ} → A → Yielded A → Yielded A
yield_first a (events, e) = (a ∷ events, e)

abbrev complete : Result Error AgentResult → Yielded AgentStreamEvent
complete (ok result) = (completed result ∷ [], none)
complete (err e) = ([], some e)

-- What follows the loop.
abbrev stream_end : Option GraphResult → Yielded AgentStreamEvent
stream_end none = ([], some type_error)
stream_end (some result) = complete (map_graph_result result)

-- The loop of `_stream_graph`; `last` is `final_state`.
unfoldable pub stream_graph :
    Option GraphResult → List GraphEvent → Option Error → Yielded AgentStreamEvent
unfolding extract_user_visible_token
stream_graph last [] (some e) = ([], some e)
stream_graph last [] none = stream_end last
stream_graph last (messages node content ∷ events) e =
    let rest = stream_graph last events e in
    let t = extract_user_visible_token node content in
    if is_empty t then rest else yield_first (token t) rest
stream_graph last (values state interrupts ∷ events) e =
    stream_graph (some (record { state = state; interrupts = interrupts })) events e
stream_graph last (other_event ∷ events) e = stream_graph last events e
stream_graph last (malformed ∷ events) e = ([], some type_error)
