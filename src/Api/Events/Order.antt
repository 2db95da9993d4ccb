-- ===== src/Api/Events/Order.antt =====
-- What the service streams arrives in the order that the reader demands.
use mathlib.Core.Path.{subst}
use enterprise_support_agent.Base.{
  ◌≤◌, true, Option, none, some, List, [], ◌∷◌, ◌≡◌, refl, arith, length,
}
use enterprise_support_agent.Base.Text.{Text}
use enterprise_support_agent.Domain.{reply, approval_required, Error}
use enterprise_support_agent.Service.Reply.{GraphResult}
use enterprise_support_agent.Service.Stream.{
  AgentStreamEvent, token, completed, GraphEvent, stream_graph,
}
use enterprise_support_agent.Service.Stream.Laws.{IsStream, stream_graph-IsStream}
use enterprise_support_agent.Api.Events.{
  StreamEventType, metadata_event, token_event, result_event, approval_event, error_event,
  done_event, event_types, encode_events, encode_agent_event_stream, count, terminals, last_is,
  second_last_is, is_public_sequence,
}

-- Tokens, a result or a request for approval, and the end.
abbrev Closed : List StreamEventType → Type 0
Closed (token_event ∷ ts) = Closed ts
Closed (result_event ∷ done_event ∷ []) = Unit
Closed (approval_event ∷ done_event ∷ []) = Unit
Closed _ = ⊥

-- Tokens and the error.
abbrev Broken : List StreamEventType → Type 0
Broken (token_event ∷ ts) = Broken ts
Broken (error_event ∷ []) = Unit
Broken _ = ⊥

encode_events-Closed :
    (thread_id : Text) (events : List AgentStreamEvent)
    → IsStream events none
    → Closed (event_types (encode_events thread_id events none))
unfolding encode_events
encode_events-Closed thread_id [] h = absurd (h refl)
encode_events-Closed thread_id (token [] ∷ events) h = ground arith
encode_events-Closed thread_id (token (c ∷ s) ∷ events) h =
    encode_events-Closed thread_id events h.1
encode_events-Closed thread_id (completed (reply r) ∷ events) h = rw h.0 tt
encode_events-Closed thread_id (completed (approval_required o a) ∷ events) h = rw h.0 tt

encode_events-Broken :
    (thread_id : Text) (events : List AgentStreamEvent) (e : Error)
    → IsStream events (some e)
    → Broken (event_types (encode_events thread_id events (some e)))
unfolding encode_events
encode_events-Broken thread_id [] e h = tt
encode_events-Broken thread_id (token [] ∷ events) e h = ground arith
encode_events-Broken thread_id (token (c ∷ s) ∷ events) e h =
    encode_events-Broken thread_id events e h.1
encode_events-Broken thread_id (completed result ∷ events) e h = cc

-- What the reader's tests find behind the metadata.
record Tested (ts : List StreamEventType) : Type 0 where
  long : 2 ≤ length ts
  no_metadata : count metadata_event ts ≡ 0
  one_done : count done_event ts ≡ 1
  ends : last_is done_event ts ≡ true
  terminal : StreamEventType
  one_terminal : terminals ts ≡ terminal ∷ []
  before_done : second_last_is terminal ts ≡ true

token-Tested : (ts : List StreamEventType) → Tested ts → Tested (token_event ∷ ts)
unfolding count terminals last_is second_last_is
token-Tested [] h = absurd (omega (arith, h.long))
token-Tested (t ∷ []) h = absurd (omega (arith, h.long))
token-Tested (t ∷ u ∷ ts) h = record {
  long = omega (arith, h.long);
  no_metadata = h.no_metadata;
  one_done = h.one_done;
  ends = h.ends;
  terminal = h.terminal;
  one_terminal = h.one_terminal;
  before_done = h.before_done;
}

Closed-Tested : (ts : List StreamEventType) → Closed ts → Tested ts
unfolding count terminals last_is second_last_is
Closed-Tested [] h = absurd h
Closed-Tested (token_event ∷ ts) h = token-Tested ts (Closed-Tested ts h)
Closed-Tested (result_event ∷ []) h = absurd h
Closed-Tested (result_event ∷ done_event ∷ []) h = record {
  long = omega arith;
  no_metadata = refl;
  one_done = refl;
  ends = refl;
  terminal = result_event;
  one_terminal = refl;
  before_done = refl;
}
Closed-Tested (approval_event ∷ []) h = absurd h
Closed-Tested (approval_event ∷ done_event ∷ []) h = record {
  long = omega arith;
  no_metadata = refl;
  one_done = refl;
  ends = refl;
  terminal = approval_event;
  one_terminal = refl;
  before_done = refl;
}
Closed-Tested _ h = ground arith

Tested-is_public :
    (ts : List StreamEventType) → Tested ts → is_public_sequence (metadata_event ∷ ts) ≡ true
unfolding is_public_sequence
Tested-is_public [] h = absurd (omega (arith, h.long))
Tested-is_public (t ∷ []) h = absurd (omega (arith, h.long))
Tested-is_public (t ∷ u ∷ ts) h =
    ground (arith, h.long, h.no_metadata, h.one_done, h.ends, h.one_terminal, h.before_done)

-- Whatever the graph streams, if the service's stream ends without an exception, then the reader
-- accepts the order of the events that are sent for it.
pub is_public_sequence-stream_graph :
    (thread_id : Text) (last : Option GraphResult) (events : List GraphEvent) (e : Option Error)
    → (stream_graph last events e).1 ≡ none
    → is_public_sequence
        (event_types (encode_agent_event_stream thread_id (stream_graph last events e).0 none))
      ≡ true
unfolding encode_agent_event_stream
is_public_sequence-stream_graph thread_id last events e h =
    let stream = (stream_graph last events e).0 in
    let ordered : IsStream stream none =
      subst (IsStream stream) h (stream_graph-IsStream last events e) in
    let types = event_types (encode_events thread_id stream none) in
    Tested-is_public types (Closed-Tested types (encode_events-Closed thread_id stream ordered))

Broken-last :
    (ts : List StreamEventType)
    → Broken ts
    → (count done_event ts ≡ 0) × (last_is error_event (metadata_event ∷ ts) ≡ true)
unfolding count last_is
Broken-last [] h = absurd h
Broken-last (token_event ∷ []) h = absurd h
Broken-last (token_event ∷ t ∷ ts) h = ground (arith, Broken-last (t ∷ ts) h)
Broken-last (error_event ∷ []) h = (refl, refl)
Broken-last _ h = ground arith

-- If the service's stream ends with an exception, then the events that are sent for it end with the
-- error, and none of them says that the answer is done.
pub last_is-stream_graph :
    (thread_id : Text) (last : Option GraphResult) (events : List GraphEvent) (e : Option Error)
    (x : Error)
    → (stream_graph last events e).1 ≡ some x
    → let types =
        event_types (encode_agent_event_stream thread_id (stream_graph last events e).0 (some x)) in
      (last_is error_event types ≡ true) × (count done_event types ≡ 0)
unfolding encode_agent_event_stream count
last_is-stream_graph thread_id last events e x h =
    let stream = (stream_graph last events e).0 in
    let ordered : IsStream stream (some x) =
      subst (IsStream stream) h (stream_graph-IsStream last events e) in
    let types = event_types (encode_events thread_id stream (some x)) in
    let (none_done, at_end) = Broken-last types (encode_events-Broken thread_id stream x ordered) in
    (at_end, none_done)
