-- ===== src/Service/Threads.antt =====
-- agent-service/src/agent_service/integrations/conversation_threads.py (the table `agent_threads`)
-- and agent-service/src/agent_service/services/conversation_thread.py. The table is the list of its
-- rows, the last one first; `uuid4` and the parser `UUID` are arguments. A closed row is one whose
-- status another program has set: this code writes 'ACTIVE' only, the column's default.
pub mod Ownership
use enterprise_support_agent.Base.{
  ℕ, ◌≤◌, Bool, true, false, Option, none, some, List, [], ◌∷◌, ◌≡◌, refl, arith, if◌then◌else◌,
  Result, ok, err, ◌>>=◌, ◌&&◌, ◌||◌, leb, length,
}
use enterprise_support_agent.Base.Text.{Text, text_eq}
use enterprise_support_agent.Domain.{Error, store_error, conversation_thread_not_found_error}
use enterprise_support_agent.Exec.{Exec}

pub record ConversationThread : Type 0 where
  pub thread_id : Text
  pub tenant_id : Text
  pub user_id : Text
  pub checkpoint_key : Text

-- A row of `agent_threads`; the timestamps are left out.
pub record Row : Type 0 where
  pub thread : ConversationThread
  pub is_active : Bool

abbrev pub Table : Type 0
Table = List Row

unfoldable pub has_thread : Text → Table → Bool
has_thread thread_id [] = false
has_thread thread_id (row ∷ rows) =
    text_eq row.thread.thread_id thread_id || has_thread thread_id rows

unfoldable pub has_key : Text → Table → Bool
has_key key [] = false
has_key key (row ∷ rows) = text_eq row.thread.checkpoint_key key || has_key key rows

-- `INSERT INTO agent_threads`: the columns hold 64 characters, `thread_id` is the primary key and
-- `checkpoint_key` is unique.
unfoldable pub insert : ConversationThread → Exec Table (Unit {0})
insert thread rows =
    if leb (length thread.tenant_id) 64 && leb (length thread.user_id) 64
    then (if has_thread thread.thread_id rows || has_key thread.checkpoint_key rows
        then (err store_error, rows)
        else (ok tt, record { thread = thread; is_active = true } ∷ rows))
    else (err store_error, rows)

-- `ConversationThreadRepository.create`, with the two values of `uuid4`.
unfoldable pub create : Text → Text → Text → Text → Exec Table ConversationThread
create new_id new_key tenant_id user_id rows =
    let thread : ConversationThread = record {
      thread_id = new_id;
      tenant_id = tenant_id;
      user_id = user_id;
      checkpoint_key = new_key;
    } in
    let (result, rows') = insert thread rows in (result >>= λ _. ok thread, rows')

-- The condition of the `SELECT` in `find_owned`.
unfoldable pub is_owned : Text → Text → Text → Row → Bool
is_owned thread_id tenant_id user_id row =
    text_eq row.thread.thread_id thread_id
    && text_eq row.thread.tenant_id tenant_id
    && text_eq row.thread.user_id user_id
    && row.is_active

-- `ConversationThreadRepository.find_owned`
unfoldable pub find_owned : Text → Text → Text → Table → Option ConversationThread
find_owned thread_id tenant_id user_id [] = none
find_owned thread_id tenant_id user_id (row ∷ rows) =
    if is_owned thread_id tenant_id user_id row
    then some row.thread
    else find_owned thread_id tenant_id user_id rows

abbrev found_or_raise : Option ConversationThread → Result Error ConversationThread
found_or_raise none = err conversation_thread_not_found_error
found_or_raise (some thread) = ok thread

-- `ConversationThreadService.create_thread`
unfoldable pub create_thread : Text → Text → Text → Text → Exec Table Text
create_thread new_id new_key tenant_id user_id rows =
    let (result, rows') = create new_id new_key tenant_id user_id rows in
    (result >>= λ thread. ok thread.thread_id, rows')

-- `ConversationThreadService.resolve_checkpoint_key`, where `parse_uuid` is `str(UUID(text))`, or
-- `none` for its `ValueError`.
module _ (parse_uuid : Text → Option Text) where
  unfoldable pub resolve_checkpoint_key : Text → Text → Text → Table → Result Error Text
  resolve_checkpoint_key thread_id tenant_id user_id rows = elim (parse_uuid thread_id) [
    | none ↦ err conversation_thread_not_found_error
    | some normalized ↦ do
      thread ← found_or_raise (find_owned normalized tenant_id user_id rows)
      ok thread.checkpoint_key
  ]
