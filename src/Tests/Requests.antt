-- ===== src/Tests/Requests.antt =====
-- Requests of two users.
use enterprise_support_agent.Base.{
  Bool, true, false, Option, none, some, List, [], ◌∷◌, ◌≡◌, refl, arith, ok,
}
use enterprise_support_agent.Base.Text.{Text, lit, text_eq}
use enterprise_support_agent.Domain.{ApprovalRequest}
use enterprise_support_agent.Service.Threads.{
  Row, Table, create_thread, resolve_checkpoint_key, has_thread, has_key, find_owned, is_owned,
}
use enterprise_support_agent.Service.Threads.Ownership.{
  IsTable, create_thread-IsTable, resolve_isolated, resolve-create_thread_ne,
}
use enterprise_support_agent.Service.Agent.{CompiledGraph}
use enterprise_support_agent.Tests.Service.{answered_state, events}
use enterprise_support_agent.Tests.Sample.{payload}

-- Two conversations of two users, and one without.
abbrev pub row : Text → Text → Text → Row
row id user_id key = record {
  thread = record {
    thread_id = id;
    tenant_id = lit "acme";
    user_id = user_id;
    checkpoint_key = key;
  };
  is_active = true;
}

abbrev pub table : Table
table = row (lit "t1") (lit "ann") (lit "k1") ∷ row (lit "t2") (lit "bob") (lit "k2") ∷ []

is_table : IsTable table
unfolding has_thread has_key text_eq
is_table = (refl, refl, (refl, refl, tt))

create_thread-IsTable_example :
    IsTable (create_thread (lit "t3") (lit "k3") (lit "acme") (lit "ann") table).1
create_thread-IsTable_example =
    create_thread-IsTable (lit "t3") (lit "k3") (lit "acme") (lit "ann") table is_table

abbrev pub as_is : Text → Option Text
as_is s = some s

resolves_first :
    resolve_checkpoint_key as_is (lit "t1") (lit "acme") (lit "ann") table ≡ ok (lit "k1")
unfolding resolve_checkpoint_key find_owned is_owned text_eq
resolves_first = refl

resolve_isolated_example :
    (lit "acme" ≡ lit "acme") × (lit "ann" ≡ lit "ann") × (as_is (lit "t1") ≡ as_is (lit "t1"))
resolve_isolated_example =
    resolve_isolated as_is (lit "t1") (lit "t1") (lit "acme") (lit "acme") (lit "ann") (lit "ann")
      (lit "k1") table is_table resolves_first resolves_first

resolve-create_thread_ne_example :
    resolve_checkpoint_key as_is
      (lit "t1")
      (lit "acme")
      (lit "ann")
      (create_thread (lit "t3") (lit "k3") (lit "acme") (lit "ann") table).1
    ≡ resolve_checkpoint_key as_is (lit "t1") (lit "acme") (lit "ann") table
resolve-create_thread_ne_example =
    resolve-create_thread_ne as_is (lit "t3") (lit "k3") (lit "acme") (lit "ann") table (lit "t1")
      (lit "acme") (lit "ann") (λ p. ground arith)

abbrev pending_if : Bool → List ApprovalRequest
pending_if true = payload ∷ []
pending_if false = []

-- A graph that notes the keys of its runs; an approval is pending under the first key.
abbrev pub graph : CompiledGraph (List Text)
graph = record {
  invoke =
      λ key context message w. (ok (record { state = answered_state; interrupts = [] }), key ∷ w);
  resume =
      λ key context approved w. (ok (record { state = answered_state; interrupts = [] }), key ∷ w);
  stream = λ key context message w. ((events, none), key ∷ w);
  interrupts = λ key w. pending_if (text_eq key (lit "k1"));
}
