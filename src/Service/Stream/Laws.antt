-- ===== src/Service/Stream/Laws.antt =====
-- What a client of `_stream_graph` can rely on.
use enterprise_support_agent.Base.{
  false, Option, none, some, List, [], ◌∷◌, ◌++◌, ◌≡◌, ◌≢◌, refl, arith, ok, is_empty, Result-cases,
  Bool-cases, inl, inr,
}
use enterprise_support_agent.Domain.{AgentResult, Error}
use enterprise_support_agent.Service.Reply.{GraphResult, map_graph_result}
use enterprise_support_agent.Service.Stream.{
  GraphEvent, messages, values, other_event, malformed, AgentStreamEvent, token, completed,
  extract_user_visible_token, stream_graph,
}

-- Tokens that are not empty, and then the result; or tokens and an exception.
abbrev pub IsStream : List AgentStreamEvent → Option Error → Type 0
IsStream [] e = e ≢ none
IsStream (token t ∷ events) e = (is_empty t ≡ false) × IsStream events e
IsStream (completed result ∷ events) e = (events ≡ []) × (e ≡ none)

-- Whatever the graph streams, the service yields tokens that are not empty, and then either one
-- result, as the last event, or an exception and no result.
pub stream_graph-IsStream :
    (last : Option GraphResult) (events : List GraphEvent) (e : Option Error)
    → IsStream (stream_graph last events e).0 (stream_graph last events e).1
unfolding stream_graph
stream_graph-IsStream last [] (some e) = λ p. cc
stream_graph-IsStream none [] none = λ p. cc
stream_graph-IsStream (some result) [] none = ground arith
stream_graph-IsStream last (messages n c ∷ events) e =
    ground (arith, stream_graph-IsStream last events e)
stream_graph-IsStream last (values state interrupts ∷ events) e =
    stream_graph-IsStream (some (record { state = state; interrupts = interrupts })) events e
stream_graph-IsStream last (other_event ∷ events) e = stream_graph-IsStream last events e
stream_graph-IsStream last (malformed ∷ events) e = λ p. cc

-- The state that the last "values" event carries.
abbrev pub final_state : Option GraphResult → List GraphEvent → Option GraphResult
final_state last [] = last
final_state last (values state interrupts ∷ events) =
    final_state (some (record { state = state; interrupts = interrupts })) events
final_state last (_ ∷ events) = final_state last events

-- The result that the service yields is the mapping of the last state that the graph streamed.
pub stream_graph-completed :
    (last : Option GraphResult) (events : List GraphEvent) (e : Option Error)
    → (stream_graph last events e).1 ≡ none
    → (before : List AgentStreamEvent) × (final : GraphResult) × (result : AgentResult)
      × (final_state last events ≡ some final)
      × (map_graph_result final ≡ ok result)
      × ((stream_graph last events e).0 ≡ before ++ completed result ∷ [])
unfolding stream_graph
stream_graph-completed last [] (some e) h = cc
stream_graph-completed none [] none h = cc
stream_graph-completed (some r) [] none h = elim (Result-cases (map_graph_result r)) [
  | inl (result, mapped) ↦ ([], r, result, refl, mapped, ground arith)
  | inr (x, failed) ↦ absurd (ground arith)
]
stream_graph-completed last (messages n c ∷ events) e h =
    let (before, final, result, f, m, eq) = stream_graph-completed last events e (ground arith) in
    let t = extract_user_visible_token n c in
    elim (Bool-cases (is_empty t)) [
      | inl silent ↦ (before, final, result, f, m, ground arith)
      | inr told ↦ (token t ∷ before, final, result, f, m, ground arith)
    ]
stream_graph-completed last (values state interrupts ∷ events) e h =
    stream_graph-completed (some (record { state = state; interrupts = interrupts })) events e h
stream_graph-completed last (other_event ∷ events) e h = stream_graph-completed last events e h
stream_graph-completed last (malformed ∷ events) e h = cc
