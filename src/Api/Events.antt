-- ===== src/Api/Events.antt =====
-- The events of a streamed answer: agent-service/src/agent_service/api/streaming.py with
-- api/schemas/stream.py, and the check of their order in evaluation/live.py.
pub mod Order
use enterprise_support_agent.Base.{
  suc, ℕ, Bool, true, false, Option, none, some, List, [], ◌∷◌, ◌≡◌, refl, arith, ◌&&◌, ◌||◌, ◌==◌,
  leb, length, if◌then◌else◌,
}
use enterprise_support_agent.Base.Text.{Text}
use enterprise_support_agent.Domain.{
  AgentReply, ApprovalRequest, AgentResult, reply, approval_required, Error,
}
use enterprise_support_agent.Service.Stream.{AgentStreamEvent, token, completed}

pub data StreamEventType : Type 0 where
  metadata_event token_event result_event approval_event error_event done_event : StreamEventType

-- The data of an event: `StreamMetadata`, `StreamToken`, `ChatResponse`,
-- `ApprovalRequiredResponse`, `StreamError` with the code STREAM_FAILED, and `StreamDone`. The
-- first text of a response is the thread.
pub data StreamData : Type 0 where
  metadata_data token_data : Text → StreamData
  result_data : Text → AgentReply → StreamData
  approval_data : Text → Text → ApprovalRequest → StreamData
  error_data done_data : StreamData

-- The type under which `encode_agent_event_stream` sends the data.
abbrev pub event_type : StreamData → StreamEventType
event_type (metadata_data thread_id) = metadata_event
event_type (token_data content) = token_event
event_type (result_data thread_id r) = result_event
event_type (approval_data thread_id order_id approval) = approval_event
event_type error_data = error_event
event_type done_data = done_event

abbrev pub event_types : List StreamData → List StreamEventType
event_types [] = []
event_types (d ∷ ds) = event_type d ∷ event_types ds

-- The two branches of `response_from_result`.
unfoldable pub result_event_of : Text → AgentResult → StreamData
result_event_of thread_id (reply r) = result_data thread_id r
result_event_of thread_id (approval_required order_id approval) =
    approval_data thread_id order_id approval

-- The loop of `encode_agent_event_stream` with its handler of exceptions: `StreamToken` refuses an
-- empty content, and the stream may end with an exception.
unfoldable pub encode_events : Text → List AgentStreamEvent → Option Error → List StreamData
unfolding result_event_of
encode_events thread_id [] none = []
encode_events thread_id [] (some e) = error_data ∷ []
encode_events thread_id (token [] ∷ events) e = error_data ∷ []
encode_events thread_id (token (c ∷ s) ∷ events) e =
    token_data (c ∷ s) ∷ encode_events thread_id events e
encode_events thread_id (completed result ∷ events) e =
    result_event_of thread_id result ∷ done_data ∷ encode_events thread_id events e

-- `encode_agent_event_stream`, before `encode_sse`.
unfoldable pub encode_agent_event_stream :
    Text → List AgentStreamEvent → Option Error → List StreamData
unfolding encode_events
encode_agent_event_stream thread_id events e =
    metadata_data thread_id ∷ encode_events thread_id events e

abbrev code_of : StreamEventType → ℕ
code_of metadata_event = 0
code_of token_event = 1
code_of result_event = 2
code_of approval_event = 3
code_of error_event = 4
code_of done_event = 5

-- `a is b`
abbrev pub type_is : StreamEventType → StreamEventType → Bool
type_is a b = code_of a == code_of b

-- `types.count(t)`
unfoldable pub count : StreamEventType → List StreamEventType → ℕ
count t [] = 0
count t (u ∷ ts) = let rest = count t ts in if type_is u t then suc rest else rest

abbrev pub is_terminal : StreamEventType → Bool
is_terminal t = type_is t result_event || type_is t approval_event

-- `terminal`
unfoldable pub terminals : List StreamEventType → List StreamEventType
terminals [] = []
terminals (t ∷ ts) = let rest = terminals ts in if is_terminal t then t ∷ rest else rest

-- `types[-1] is t`
unfoldable pub last_is : StreamEventType → List StreamEventType → Bool
last_is t [] = false
last_is t (u ∷ []) = type_is u t
last_is t (u ∷ v ∷ ts) = last_is t (v ∷ ts)

-- `types[-2] is t`
unfoldable pub second_last_is : StreamEventType → List StreamEventType → Bool
second_last_is t [] = false
second_last_is t (u ∷ []) = false
second_last_is t (u ∷ v ∷ []) = type_is u t
second_last_is t (u ∷ v ∷ w ∷ ts) = second_last_is t (v ∷ w ∷ ts)

abbrev first_is : StreamEventType → List StreamEventType → Bool
first_is t [] = false
first_is t (u ∷ ts) = type_is u t

abbrev one_before_last : List StreamEventType → List StreamEventType → Bool
one_before_last (t ∷ []) types = second_last_is t types
one_before_last _ types = false

-- `LiveAgentObservation` accepts the types of a stream's events: three at least, and the tests of
-- `validate_public_event_sequence`.
unfoldable pub is_public_sequence : List StreamEventType → Bool
unfolding count terminals last_is second_last_is
is_public_sequence types =
    leb 3 (length types)
    && first_is metadata_event types
    && count metadata_event types == 1
    && last_is done_event types
    && count done_event types == 1
    && one_before_last (terminals types) types
