-- ===== src/Api/Sse/RoundTrip.antt =====
-- What is sent is what is read.
use enterprise_support_agent.Base.{true, none, List, [], ◌∷◌, ◌++◌, ◌≡◌, refl, ap, ◌∙◌, All}
use enterprise_support_agent.Base.Text.{Text, lit}
use enterprise_support_agent.Service.Stream.{yield_first}
use enterprise_support_agent.Api.Events.{
  StreamEventType, metadata_event, token_event, result_event, approval_event, error_event,
  done_event,
}
use enterprise_support_agent.Api.Sse.{
  encode_sse, value_of, RawSseEvent, iter_sse, is_boundary, is_one_line, IsLines,
}

-- The text of a stream of events.
abbrev pub encode_all : List RawSseEvent → Text
encode_all [] = []
encode_all (e ∷ es) = encode_sse e.event e.data_text ++ encode_all es

abbrev pub IsOneLine : RawSseEvent → Type 0
IsOneLine e = is_one_line e.data_text ≡ true

module _ (lines : Text → List Text) (L : IsLines lines) where
  value-one_line : (event : StreamEventType) → is_one_line (lit "event: " ++ value_of event) ≡ true
  unfolding is_boundary
  value-one_line metadata_event = refl
  value-one_line token_event = refl
  value-one_line result_event = refl
  value-one_line approval_event = refl
  value-one_line error_event = refl
  value-one_line done_event = refl

  data-one_line :
      (payload : Text) → is_one_line payload ≡ true → is_one_line (lit "data: " ++ payload) ≡ true
  unfolding is_boundary
  data-one_line payload h = h

  append_assoc : (s t u : Text) → (s ++ t) ++ u ≡ s ++ (t ++ u)
  append_assoc [] t u = refl
  append_assoc (c ∷ s) t u = ap (◌∷◌ c) (append_assoc s t u)

  lines-encode_sse :
      (event : StreamEventType) (payload rest : Text)
      → is_one_line payload ≡ true
      → lines (encode_sse event payload ++ rest)
        ≡ (lit "event: " ++ value_of event) ∷ (lit "data: " ++ payload) ∷ [] ∷ lines rest
  unfolding encode_sse
  lines-encode_sse event payload rest h =
      let first = lit "event: " ++ value_of event in
      let second = lit "data: " ++ payload in
      ap lines (
        append_assoc first (10 ∷ (second ++ 10 ∷ 10 ∷ [])) rest
        ∙ ap (λ t. first ++ 10 ∷ t) (append_assoc second (10 ∷ 10 ∷ []) rest))
      ∙ (L.lines-cons first (second ++ 10 ∷ 10 ∷ rest) (value-one_line event)
          ∙ ap (◌∷◌ first) (
              L.lines-cons second (10 ∷ rest) (data-one_line payload h)
              ∙ ap (◌∷◌ second) (L.lines-cons [] rest refl)))

  iter-event :
      (event : StreamEventType) (payload : Text) (rest : List Text)
      → iter_sse none [] ((lit "event: " ++ value_of event) ∷ (lit "data: " ++ payload) ∷ [] ∷ rest)
        ≡ yield_first (record { event = event; data_text = payload }) (iter_sse none [] rest)
  unfolding iter_sse
  iter-event metadata_event payload rest = refl
  iter-event token_event payload rest = refl
  iter-event result_event payload rest = refl
  iter-event approval_event payload rest = refl
  iter-event error_event payload rest = refl
  iter-event done_event payload rest = refl

  empty_stream : iter_sse none [] [] ≡ ([], none)
  unfolding iter_sse
  empty_stream = refl

  -- A stream of events whose data have no line boundary is read back as the same events, without an
  -- exception.
  pub iter_sse-encode_all :
      (events : List RawSseEvent)
      → All IsOneLine events
      → iter_sse none [] (lines (encode_all events)) ≡ (events, none)
  iter_sse-encode_all [] h = rw L.lines-nil empty_stream
  iter_sse-encode_all (e ∷ es) h =
      ap (iter_sse none []) (lines-encode_sse e.event e.data_text (encode_all es) h.0)
      ∙ (iter-event e.event e.data_text (lines (encode_all es))
          ∙ ap (yield_first e) (iter_sse-encode_all es h.1))
