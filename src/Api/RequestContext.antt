-- ===== src/Api/RequestContext.antt =====
-- agent-service/src/agent_service/core/request_context.py: request ids and the names of operations.
-- Headers are bytes; `str(UUID(text))` and `uuid4` are arguments. Times and logs are left out.
use enterprise_support_agent.Base.{
  ◌+◌, Bool, true, Option, none, some, List, [], ◌∷◌, ◌++◌, ◌≡◌, arith, if◌then◌else◌, ◌&&◌, leb,
  ltb, all, length, ◌-◌, drop,
}
use enterprise_support_agent.Base.Text.{Text, lit, text_eq}

abbrev pub Headers : Type 0
Headers = List (Text × Text)

-- `name.lower()` on bytes.
abbrev pub lower : Text → Text
lower [] = []
lower (c ∷ s) = (if leb b'A' c && leb c b'Z' then c + 32 else c) ∷ lower s

abbrev pub is_request_id_header : Text → Bool
is_request_id_header name = text_eq (lower name) (lit "x-request-id")

-- `value.decode("ascii")`
abbrev decode_ascii : Text → Option Text
decode_ascii value = if all (λ c. ltb c 128) value then some value else none

-- `_header_value`
unfoldable pub header_value : Headers → Option Text
header_value [] = none
header_value ((name, value) ∷ headers) =
    let rest = header_value headers in
    if is_request_id_header name then decode_ascii value else rest

-- `resolve_request_id`
unfoldable pub resolve_request_id : (Text → Option Text) → Text → Option Text → Text
resolve_request_id parse_uuid new_id none = new_id
resolve_request_id parse_uuid new_id (some provided_request_id) =
    elim (parse_uuid provided_request_id) [ none ↦ new_id | some request_id ↦ request_id ]

abbrev other_headers : Headers → Headers
other_headers [] = []
other_headers ((name, value) ∷ headers) =
    let rest = other_headers headers in
    if is_request_id_header name then rest else (name, value) ∷ rest

-- The headers that `send_with_request_id` sends.
unfoldable pub with_request_id : Text → Headers → Headers
with_request_id request_id headers = other_headers headers ++ (lit "x-request-id", request_id) ∷ []

abbrev ends_with : Text → Text → Bool
ends_with s suffix = text_eq (drop (length s - length suffix) s) suffix

-- `_operation_for`
unfoldable pub operation_for : Text → Text → Text
operation_for method path =
    if text_eq method (lit "POST") && text_eq path (lit "/api/v1/agent/threads")
    then lit "AGENT_THREAD_CREATE"
    else if text_eq method (lit "POST") && text_eq path (lit "/api/v1/agent/chat/stream")
    then lit "AGENT_CHAT_STREAM"
    else if text_eq method (lit "POST") && ends_with path (lit "/resume")
    then lit "AGENT_RESUME"
    else if text_eq method (lit "POST") && text_eq path (lit "/internal/v1/knowledge/reindex")
    then lit "KNOWLEDGE_REINDEX"
    else if text_eq method (lit "GET") && text_eq path (lit "/api/v1/health")
    then lit "HEALTH"
    else lit "OTHER"

-- Of the headers that are sent, the request id is the resolved one, whatever the application set.
pub header_value-with_request_id :
    (request_id : Text) (headers : Headers)
    → all (λ c. ltb c 128) request_id ≡ true
    → header_value (with_request_id request_id headers) ≡ some request_id
unfolding header_value with_request_id text_eq
header_value-with_request_id request_id [] h = ground arith
header_value-with_request_id request_id ((name, value) ∷ headers) h =
    ground (arith, header_value-with_request_id request_id headers h)
