-- ===== src/Tests/Api.antt =====
-- A short stream, as events and as text.
use enterprise_support_agent.Base.{
  ℕ, true, none, some, List, [], ◌∷◌, ◌++◌, ◌≡◌, refl, arith, if◌then◌else◌, All,
}
use enterprise_support_agent.Base.Text.{Text, lit, strip, is_space}
use enterprise_support_agent.Domain.{model_error}
use enterprise_support_agent.Service.Reply.{map_graph_result, map_finished}
use enterprise_support_agent.Service.Stream.{GraphEvent, stream_graph, messages, text}
use enterprise_support_agent.Graph.Routing.{generate_answer}
use enterprise_support_agent.Api.Events.{
  token_event, metadata_event, error_event, done_event, event_types, encode_agent_event_stream,
  last_is, count,
}
use enterprise_support_agent.Api.Events.Order.{last_is-stream_graph}
use enterprise_support_agent.Api.Sse.{RawSseEvent, iter_sse, is_boundary, is_one_line, IsLines}
use enterprise_support_agent.Api.Sse.RoundTrip.{encode_all, IsOneLine, iter_sse-encode_all}
use enterprise_support_agent.Tests.Service.{events}

pub ends_well : (stream_graph none events none).1 ≡ none
unfolding stream_graph map_graph_result map_finished strip is_space
ends_well = refl

abbrev cut_off : List GraphEvent
cut_off = messages (some generate_answer) (text (lit "hi")) ∷ []

ends_badly : (stream_graph none cut_off (some model_error)).1 ≡ some model_error
unfolding stream_graph
ends_badly = refl

last_is-stream_graph_example :
    (last_is error_event (
        event_types (
          encode_agent_event_stream
            (lit "t1")
            (stream_graph none cut_off (some model_error)).0
            (some model_error)))
      ≡ true)
    × (count done_event (
          event_types (
            encode_agent_event_stream
              (lit "t1")
              (stream_graph none cut_off (some model_error)).0
              (some model_error)))
        ≡ 0)
last_is-stream_graph_example =
    last_is-stream_graph (lit "t1") none cut_off (some model_error) model_error ends_badly

prepend : ℕ → List Text → List Text
prepend c [] = (c ∷ []) ∷ []
prepend c (l ∷ ls) = (c ∷ l) ∷ ls

split_lines : Text → List Text
unfolding prepend
split_lines [] = []
split_lines (c ∷ s) =
    let rest = split_lines s in if is_boundary c then [] ∷ rest else prepend c rest

split_lines-append :
    (s rest : Text) → is_one_line s ≡ true → split_lines (s ++ 10 ∷ rest) ≡ s ∷ split_lines rest
unfolding split_lines is_boundary
split_lines-append [] rest h = refl
split_lines-append (c ∷ s) rest h = ground (arith, split_lines-append s rest)

splits : IsLines split_lines
unfolding split_lines
splits = record { lines-nil = refl; lines-cons = split_lines-append }

abbrev raw_events : List RawSseEvent
raw_events =
    record { event = metadata_event; data_text = lit "{\"thread_id\":\"t1\"}" }
    ∷ record { event = token_event; data_text = lit "{\"content\":\"hi: there\"}" }
    ∷ []

one_line : All IsOneLine raw_events
unfolding is_boundary
one_line = (refl, (refl, tt))

iter_sse-encode_all_example :
    iter_sse none [] (split_lines (encode_all raw_events)) ≡ (raw_events, none)
iter_sse-encode_all_example = iter_sse-encode_all split_lines splits raw_events one_line
