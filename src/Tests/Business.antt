-- ===== src/Tests/Business.antt =====
-- A lookup that is repeated, a refund, and a cache over a delegate that counts its calls.
use enterprise_support_agent.Base.{suc, ◌≤◌, none, some, List, [], ◌∷◌, ◌≡◌}
use enterprise_support_agent.Base.Text.{lit}
use enterprise_support_agent.Business.Client.{
  object, Reply, response, timeout, Request, get_request, post_request, Network, Surroundings,
  get_with_retry,
}
use enterprise_support_agent.Business.Client.Retries.{
  get_with_retry_lem, failures, final, repeated, delays,
}
use enterprise_support_agent.Tests.Sample.{paid_order, refunding_order}

-- The first lookup times out; refunds are accepted.
abbrev replies : List Request → Request → Reply
replies [] (get_request path headers) = timeout
replies (r ∷ rs) (get_request path headers) = response 200 (object none (some paid_order))
replies requests (post_request path headers) = response 202 (object none (some refunding_order))

abbrev net : Surroundings
net = record { reply = replies; quote = λ s. s; request_id = none }

abbrev quiet : Network
quiet = record { requests = []; slept = [] }

get_with_retry_lem_example :
    (get_with_retry net 2 (lit "/o") [] quiet ≡ (
      final (
          replies
            (repeated
              (failures net 2 (get_request (lit "/o") []) [])
              (get_request (lit "/o") [])
              [])
            (get_request (lit "/o") [])),
      record {
        requests =
            repeated
              (suc (failures net 2 (get_request (lit "/o") []) []))
              (get_request (lit "/o") [])
              [];
        slept = delays (failures net 2 (get_request (lit "/o") []) []) 0 [];
      },
    ))
    × (failures net 2 (get_request (lit "/o") []) [] ≤ 2)
get_with_retry_lem_example = get_with_retry_lem net 2 (lit "/o") [] quiet
