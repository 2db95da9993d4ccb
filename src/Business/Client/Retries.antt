-- ===== src/Business/Client/Retries.antt =====
-- Which reply a lookup takes, and after how many requests and sleeps.
use enterprise_support_agent.Base.{
  ℕ, zero, suc, ◌+◌, ◌≤◌, ◌<◌, Bool, true, List, ◌∷◌, ◌≡◌, refl, arith, if◌then◌else◌, Result, ok,
  err, leb, length, Bool-cases, inl, inr,
}
use enterprise_support_agent.Domain.{
  Error, business_service_timeout_error, business_service_unavailable_error,
}
use enterprise_support_agent.Business.Client.{
  Payload, Reply, response, timeout, request_error, Request, get_request, Network, Surroundings,
  delay, attempts, get_with_retry, Headers, judge, get_order, order_path, trusted_headers,
}
use enterprise_support_agent.Base.Text.{Text}
use enterprise_support_agent.Exec.{Exec}

-- A reply after which the same request may help.
abbrev pub is_retryable : Reply → Bool
is_retryable timeout = true
is_retryable request_error = true
is_retryable (response status_code payload) = leb 500 status_code

-- What is made of the last reply.
abbrev pub final : Reply → Result Error (ℕ × Payload)
final timeout = err business_service_timeout_error
final request_error = err business_service_unavailable_error
final (response status_code payload) = ok (status_code, payload)

-- `n` more of the same request.
abbrev pub repeated : ℕ → Request → List Request → List Request
repeated zero request requests = requests
repeated (suc n) request requests = repeated n request (request ∷ requests)

-- The delays before the attempts behind `attempt`.
abbrev pub delays : ℕ → ℕ → List ℕ → List ℕ
delays zero attempt slept = slept
delays (suc n) attempt slept = delays n (suc attempt) (delay attempt ∷ slept)

module _ (net : Surroundings) where
  -- How many of at most `n` requests get a retryable reply before the first that does not.
  pub failures : ℕ → Request → List Request → ℕ
  failures zero request requests = 0
  failures (suc n) request requests =
      let more = failures n request (request ∷ requests) in
      if is_retryable (net.reply requests request) then suc more else 0

  abbrev settled : ℕ → ℕ → Request → Network → Result Error (ℕ × Payload) × Network
  settled f attempt request w = (
    final (net.reply (repeated f request w.requests) request),
    record { requests = repeated (suc f) request w.requests; slept = delays f attempt w.slept },
  )

  judge_last :
      (max_retries : ℕ) (again : Exec Network (ℕ × Payload)) (reply : Reply) (w : Network)
      → judge net max_retries max_retries again reply w ≡ (final reply, w)
  judge_last max_retries again timeout w = ground arith
  judge_last max_retries again request_error w = ground arith
  judge_last max_retries again (response status_code payload) w = ground arith

  judge_more :
      (max_retries attempt : ℕ) (again : Exec Network (ℕ × Payload)) (reply : Reply) (w : Network)
      → attempt < max_retries
      → judge net max_retries attempt again reply w
        ≡ (if is_retryable reply then again w else (final reply, w))
  judge_more max_retries attempt again timeout w lt = ground arith
  judge_more max_retries attempt again request_error w lt = ground arith
  judge_more max_retries attempt again (response status_code payload) w lt = ground arith

  -- One round of the loop.
  attempts-judge :
      (max_retries left attempt : ℕ) (request : Request) (w : Network)
      → attempts net max_retries (suc left) attempt request w
        ≡ judge net max_retries attempt
            (λ s.
              attempts net max_retries left
                (suc attempt)
                request
                (record s { slept = delay attempt ∷ s.slept }))
            (net.reply w.requests request)
            (record w { requests = request ∷ w.requests })
  unfolding attempts
  attempts-judge max_retries left attempt request w = refl

  attempts_lem :
      (max_retries left attempt : ℕ) (request : Request) (w : Network)
      → attempt + left ≡ max_retries
      → attempts net max_retries (suc left) attempt request w
        ≡ settled (failures left request w.requests) attempt request w
  unfolding failures
  attempts_lem max_retries zero attempt request w h =
      let eq : attempt ≡ max_retries = omega arith in
      rw (attempts-judge max_retries zero attempt request w, eq)
        (judge_last max_retries _ (net.reply w.requests request) _)
  attempts_lem max_retries (suc left) attempt request w h =
      let s : Network = record {
        requests = request ∷ w.requests;
        slept = delay attempt ∷ w.slept;
      } in
      let lt : attempt < max_retries = omega arith in
      elim (Bool-cases (is_retryable (net.reply w.requests request))) [
        | inl again ↦
            rw
              (
                attempts-judge max_retries (suc left) attempt request w,
                judge_more max_retries attempt
                    (λ s.
                      attempts net max_retries (suc left) (suc attempt) request
                        (record s { slept = delay attempt ∷ s.slept }))
                    (net.reply w.requests request) (record w { requests = request ∷ w.requests })
                    lt,
                again,
              )
              (attempts_lem max_retries left (suc attempt) request s (omega arith))
        | inr enough ↦
            rw
              (
                attempts-judge max_retries (suc left) attempt request w,
                judge_more max_retries attempt
                    (λ s.
                      attempts net max_retries (suc left) (suc attempt) request
                        (record s { slept = delay attempt ∷ s.slept }))
                    (net.reply w.requests request) (record w { requests = request ∷ w.requests })
                    lt,
                enough,
              )
              refl
      ]

  pub failures_bound :
      (n : ℕ) (request : Request) (requests : List Request) → failures n request requests ≤ n
  unfolding failures
  failures_bound zero request requests = omega arith
  failures_bound (suc n) request requests =
      ground (arith, failures_bound n request (request ∷ requests))

  length-repeated :
      (n : ℕ) (request : Request) (requests : List Request)
      → length (repeated n request requests) ≡ n + length requests
  length-repeated zero request requests = omega arith
  length-repeated (suc n) request requests =
      omega (arith, length-repeated n request (request ∷ requests))

  -- A lookup repeats its request while the replies are retryable, at most `max_retries` times, with
  -- a sleep before each repetition, and takes the first reply that is not retryable, or else the
  -- last: a response of any status is returned, a timeout and a failed connection raise their
  -- exceptions. The loop never runs out of rounds.
  pub get_with_retry_lem :
      (max_retries : ℕ) (path : Text) (headers : Headers) (w : Network)
      → let request = get_request path headers in
        let f = failures max_retries request w.requests in
        (get_with_retry net max_retries path headers w ≡ (
          final (net.reply (repeated f request w.requests) request),
          record { requests = repeated (suc f) request w.requests; slept = delays f 0 w.slept },
        ))
        × (f ≤ max_retries)
  unfolding get_with_retry
  get_with_retry_lem max_retries path headers w =
      let request = get_request path headers in
      let rounds : max_retries + 1 ≡ suc max_retries = omega arith in
      (
        rw rounds (attempts_lem max_retries max_retries 0 request w (omega arith)),
        failures_bound max_retries request w.requests,
      )

  -- A lookup makes one request at least and `max_retries + 1` at most.
  pub get_order_requests :
      (max_retries : ℕ) (tenant_id user_id order_id : Text) (w : Network)
      → let r = get_order net max_retries tenant_id user_id order_id w in
        (length w.requests < length r.1.requests)
        × (length r.1.requests ≤ max_retries + 1 + length w.requests)
  unfolding get_order
  get_order_requests max_retries tenant_id user_id order_id w =
      let path = order_path net max_retries order_id in
      let headers = trusted_headers net.request_id tenant_id user_id in
      let request = get_request path headers in
      let f = failures max_retries request w.requests in
      let (eq, bound) = get_with_retry_lem max_retries path headers w in
      ground (arith, eq, bound, length-repeated (suc f) request w.requests)
