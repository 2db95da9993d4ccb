-- ===== src/Api/Sse.antt =====
-- Server-sent events as text: agent-service/src/agent_service/api/sse.py, and `_iter_sse` of
-- evaluation/live.py. What `aiter_lines` makes of a text is an argument.
pub mod RoundTrip
use enterprise_support_agent.Base.{
  ℕ, Bool, true, false, Option, none, some, List, [], ◌∷◌, ◌++◌, ◌≡◌, refl, arith, ◌&&◌, ◌||◌, ◌==◌,
  leb, not, all, if◌then◌else◌,
}
use enterprise_support_agent.Base.Text.{Text, lit, text_eq}
use enterprise_support_agent.Domain.{Error, value_error}
use enterprise_support_agent.Service.Stream.{Yielded, yield_first}
use enterprise_support_agent.Api.Events.{
  StreamEventType, metadata_event, token_event, result_event, approval_event, error_event,
  done_event,
}

-- `event.value`
abbrev pub value_of : StreamEventType → Text
value_of metadata_event = lit "metadata"
value_of token_event = lit "token"
value_of result_event = lit "result"
value_of approval_event = lit "approval_required"
value_of error_event = lit "error"
value_of done_event = lit "done"

-- `encode_sse`, with the text of the data.
unfoldable pub encode_sse : StreamEventType → Text → Text
encode_sse event payload =
    (lit "event: " ++ value_of event) ++ 10 ∷ ((lit "data: " ++ payload) ++ 10 ∷ 10 ∷ [])

-- `_RawSseEvent`
pub record RawSseEvent : Type 0 where
  pub event : StreamEventType
  pub data_text : Text

-- `StreamEventType(name)`, `none` for its `ValueError`.
abbrev parse_event_type : Text → Option StreamEventType
parse_event_type name =
    if text_eq name (lit "metadata")
    then some metadata_event
    else if text_eq name (lit "token")
    then some token_event
    else if text_eq name (lit "result")
    then some result_event
    else if text_eq name (lit "approval_required")
    then some approval_event
    else if text_eq name (lit "error")
    then some error_event
    else if text_eq name (lit "done")
    then some done_event
    else none

-- `"\n".join(data_lines)`
unfoldable pub join_lines : List Text → Text
join_lines [] = []
join_lines (s ∷ []) = s
join_lines (s ∷ t ∷ rest) = s ++ 10 ∷ join_lines (t ∷ rest)

abbrev before_more : ℕ → Text × Text → Text × Text
before_more c (field, value) = (c ∷ field, value)

-- The first and the last of `line.partition(":")`.
unfoldable pub partition : Text → Text × Text
partition [] = ([], [])
partition (c ∷ s) = let rest = partition s in if c == 58 then ([], s) else before_more c rest

-- One space behind the colon is left out.
abbrev without_space : Text → Text
without_space [] = []
without_space (c ∷ s) = if c == 32 then s else c ∷ s

abbrev is_comment : Text → Bool
is_comment [] = false
is_comment (c ∷ s) = c == 58

abbrev yield_event : Option StreamEventType → Text → Yielded RawSseEvent → Yielded RawSseEvent
yield_event none payload rest = ([], some value_error)
yield_event (some event) payload rest =
    yield_first (record { event = event; data_text = payload }) rest

-- `event_name` and `data_lines` behind a line that is no comment and not empty.
abbrev read_field : Text × Text → Option Text → List Text → Option Text × List Text
read_field (field, value) event_name data_lines =
    if text_eq field (lit "event")
    then (some (without_space value), data_lines)
    else if text_eq field (lit "data")
    then (event_name, data_lines ++ without_space value ∷ [])
    else (event_name, data_lines)

abbrev read_line : Text → Option Text → List Text → Option Text × List Text
read_line line event_name data_lines =
    if is_comment line
    then (event_name, data_lines)
    else read_field (partition line) event_name data_lines

-- `_iter_sse`, from its two variables and the lines that are left.
unfoldable pub iter_sse : Option Text → List Text → List Text → Yielded RawSseEvent
unfolding join_lines partition text_eq
iter_sse none data_lines [] = ([], none)
iter_sse (some name) data_lines [] =
    yield_event (parse_event_type name) (join_lines data_lines) ([], none)
iter_sse none data_lines ([] ∷ lines) = iter_sse none [] lines
iter_sse (some name) data_lines ([] ∷ lines) =
    yield_event (parse_event_type name) (join_lines data_lines) (iter_sse none [] lines)
iter_sse event_name data_lines ((c ∷ s) ∷ lines) =
    let (event_name', data_lines') = read_line (c ∷ s) event_name data_lines in
    iter_sse event_name' data_lines' lines

-- The characters at which `str.splitlines` splits.
unfoldable pub is_boundary : ℕ → Bool
is_boundary c =
    (leb 10 c && leb c 13) || (leb 28 c && leb c 30) || c == 133 || c == 8232 || c == 8233

abbrev pub is_one_line : Text → Bool
is_one_line s = all (λ c. not (is_boundary c)) s

-- What is documented of the splitting of a text into lines: no text has no line, and a line break
-- ends a line that has no boundary in it.
pub record IsLines (lines : Text → List Text) : Type 0 where
  pub lines-nil : lines [] ≡ []
  pub lines-cons : (s rest : Text) → is_one_line s ≡ true → lines (s ++ 10 ∷ rest) ≡ s ∷ lines rest
