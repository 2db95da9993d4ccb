-- ===== src/Tests/Routes.antt =====
-- Calls of the endpoints.
use enterprise_support_agent.Base.{ℕ, true, none, some, List, [], ◌≡◌, ◌≢◌, refl, arith, ok, err}
use enterprise_support_agent.Base.Text.{Text, lit, text_eq, strip, is_space}
use enterprise_support_agent.Domain.{http_exception, upstream_service_error, value_error}
use enterprise_support_agent.Redis.Keys.{is_segment, validated_segment, chat_rate_limit}
use enterprise_support_agent.Redis.RateLimiter.{
  check, eval_script, fixed_window_script, parse_result, decide,
}
use enterprise_support_agent.Business.Client.{response, object, Reply, refund_of, read_error_code}
use enterprise_support_agent.Service.Threads.{
  resolve_checkpoint_key, find_owned, is_owned, create, insert, has_thread, has_key,
  create_thread as service_create_thread,
}
use enterprise_support_agent.Service.Agent.{checkpoint_key, chat as service_chat, resume_refund}
use enterprise_support_agent.Service.Reply.{validate_approval}
use enterprise_support_agent.Api.Errors.{ErrorResponse, handle}
use enterprise_support_agent.Api.Errors.Relay.{IsRelayed, refund_of-handle}
use enterprise_support_agent.Api.Requests.{
  verify_internal_service_token, idempotency_header, chat_request, Identity, identity_headers,
  clean_identity, max_length, validate_not_blank, matches_pattern, get_service,
}
use enterprise_support_agent.Api.Knowledge.{reindex_knowledge}
use enterprise_support_agent.Api.Routes.{
  App, AppState, Headers, check_rate_limit, admit, chat, stream_chat, resume_thread, create_thread,
}
use enterprise_support_agent.Api.Routes.Access.{
  HasToken, unauthorized, IsAdmittedTo, chat-IsAdmitted, IsResumed, resume_thread-IsResume,
}
use enterprise_support_agent.Api.Routes.Refusals.{IsAnswered, admit-IsAnswered}
use enterprise_support_agent.Api.Routes.NewThreads.{checkpoint_key-create_thread}
use enterprise_support_agent.Tests.Redis.{commands, limiter, fresh}
use enterprise_support_agent.Tests.Requests.{table, as_is, graph}

abbrev app : App commands (List Text)
app = record {
  internal_service_token = some (lit "secret");
  parse_uuid = as_is;
  rate_limiter = some limiter;
  graph = graph;
}

-- Ann's headers, with spaces around the user.
abbrev headers : Headers
headers = record {
  token = some (lit "secret");
  tenant_id = some (lit "acme");
  user_id = some (lit " ann ");
}

abbrev stranger : Headers
stranger = record headers { token = some (lit "guess") }

abbrev state : AppState commands (List Text)
state = record { redis = fresh; threads = some table; world = [] }

guesses : ¬ HasToken app.internal_service_token stranger.token
guesses (token, expected, provided) = ground arith

-- Also of a reindexing, whose service is not there.
unauthorized_example :
    (create_thread app stranger (lit "t3") (lit "k3") state ≡ (err (http_exception 401), state))
    × (chat app stranger (some (lit "t1")) (some (lit "hi")) state
        ≡ (err (http_exception 401), state))
    × (stream_chat app stranger (some (lit "t1")) (some (lit "hi")) state
        ≡ (err (http_exception 401), state))
    × (resume_thread app stranger (lit "t1") (some (lit "key-1")) (some true) state
        ≡ (err (http_exception 401), state))
    × (reindex_knowledge {W = ℕ} app.internal_service_token none stranger.token
          (some (lit "acme"))
          0
        ≡ (err (http_exception 401), 0))
unauthorized_example =
    unauthorized app stranger (lit "t3") (lit "k3") (lit "t1") (some (lit "t1")) (some (lit "hi"))
      (some (lit "key-1")) (some (lit "acme")) (some true) state none 0 guesses

chats : (chat app headers (some (lit "t1")) (some (lit "hi")) state).1.world ≢ []
unfolding chat admit verify_internal_service_token identity_headers clean_identity max_length
    chat_request validate_not_blank check_rate_limit check eval_script fixed_window_script
    parse_result decide chat_rate_limit validated_segment is_segment strip is_space text_eq
    service_chat checkpoint_key resolve_checkpoint_key find_owned is_owned
chats = λ p. ground arith

chat-IsAdmitted_example :
    IsAdmittedTo app headers app.graph.invoke
      (some (lit "t1"))
      (some (lit "hi"))
      state
      (chat app headers (some (lit "t1")) (some (lit "hi")) state).1.world
chat-IsAdmitted_example =
    chat-IsAdmitted app headers (some (lit "t1")) (some (lit "hi")) state chats

resumes : (resume_thread app headers (lit "t1") (some (lit "key-1")) (some true) state).1.world ≢ []
unfolding resume_thread verify_internal_service_token identity_headers clean_identity max_length
    idempotency_header matches_pattern strip is_space text_eq resume_refund checkpoint_key
    resolve_checkpoint_key find_owned is_owned validate_approval
resumes = λ p. ground arith

resume_thread-IsResume_example :
    IsResumed app headers
      (lit "t1")
      (some (lit "key-1"))
      (some true)
      state
      (resume_thread app headers (lit "t1") (some (lit "key-1")) (some true) state).1.world
resume_thread-IsResume_example =
    resume_thread-IsResume app headers (lit "t1") (some (lit "key-1")) (some true) state resumes

abbrev ann : Identity
ann = record { tenant_id = lit "acme"; user_id = lit "ann" }

names_ann : identity_headers headers.tenant_id headers.user_id ≡ ok ann
unfolding identity_headers clean_identity max_length strip is_space
names_ann = refl

acme_is_segment : is_segment (lit "acme") ≡ true
unfolding is_segment
acme_is_segment = refl

ann_is_segment : is_segment (lit "ann") ≡ true
unfolding is_segment
ann_is_segment = refl

-- A blank message.
refuses_blank :
    (admit app headers (some (lit "t1")) (some (lit " ")) state).0 ≡ err (http_exception 422)
unfolding admit verify_internal_service_token identity_headers clean_identity max_length
    chat_request validate_not_blank strip is_space text_eq
refuses_blank = refl

admit-IsAnswered_example : IsAnswered (http_exception 422)
admit-IsAnswered_example =
    admit-IsAnswered app headers (some (lit "t1")) (some (lit " ")) state ann (http_exception 422)
      names_ann acme_is_segment ann_is_segment refuses_blank

abbrev broken : Reply
broken = response 418 (object none none)

refuses_refund : refund_of (lit "O-1") broken ≡ err (upstream_service_error 418)
unfolding refund_of read_error_code text_eq
refuses_refund = refl

refund_of-handle_example :
    (r : ErrorResponse) × (handle (upstream_service_error 418) ≡ some r) × IsRelayed broken r
refund_of-handle_example =
    refund_of-handle (lit "O-1") broken (upstream_service_error 418) refuses_refund

creates : (create_thread app headers (lit "t3") (lit "k3") state).0 ≡ ok (lit "t3")
unfolding create_thread verify_internal_service_token get_service identity_headers clean_identity
    max_length strip is_space text_eq service_create_thread create insert has_thread has_key
creates = refl

checkpoint_key-create_thread_example :
    (identity : Identity) × (identity_headers headers.tenant_id headers.user_id ≡ ok identity)
    × (checkpoint_key app.graph app.parse_uuid
          (create_thread app headers (lit "t3") (lit "k3") state).1.threads
          (lit "t3")
          identity.tenant_id
          identity.user_id
        ≡ ok (lit "k3"))
checkpoint_key-create_thread_example =
    checkpoint_key-create_thread app headers (lit "t3") (lit "k3") (lit "t3") state refl creates

-- A user that is no segment of a Redis key passes the headers' checks, and the exception of the
-- rate limiter's key has no handler.
odd_user :
    (admit app
      (record headers { user_id = some (lit "ann@acme") })
      (some (lit "t1"))
      (some (lit "hi"))
      state).0
    ≡ err value_error
unfolding admit verify_internal_service_token identity_headers clean_identity max_length
    chat_request validate_not_blank check_rate_limit check chat_rate_limit validated_segment
    is_segment strip is_space text_eq
odd_user = refl

unhandled : handle value_error ≡ none
unfolding handle
unhandled = refl
