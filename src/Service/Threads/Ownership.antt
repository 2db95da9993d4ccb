-- ===== src/Service/Threads/Ownership.antt =====
-- Conversations belong to one tenant and one user.
use enterprise_support_agent.Base.{
  true, false, Option, some, [], ◌∷◌, ◌≡◌, ◌≢◌, refl, arith, ok, Option-cases, inl, inr,
}
use enterprise_support_agent.Base.Text.{Text, text_eq_iff, text_eq_refl}
use enterprise_support_agent.Service.Threads.{
  ConversationThread, Table, has_thread, has_key, insert, create, is_owned, find_owned,
  create_thread, resolve_checkpoint_key,
}

-- The constraints of the table.
abbrev pub IsTable : Table → Type 0
IsTable [] = Unit
IsTable (row ∷ rows) =
    (has_thread row.thread.thread_id rows ≡ false)
    × (has_key row.thread.checkpoint_key rows ≡ false)
    × IsTable rows

-- Creating a thread keeps thread ids and checkpoint keys unique, whatever `uuid4` gives.
pub create_thread-IsTable :
    (new_id new_key tenant_id user_id : Text) (rows : Table)
    → IsTable rows
    → IsTable (create_thread new_id new_key tenant_id user_id rows).1
unfolding create_thread create insert
create_thread-IsTable new_id new_key tenant_id user_id rows h = ground arith

find_owned-owner :
    (id tenant user : Text) (rows : Table) (thread : ConversationThread)
    → find_owned id tenant user rows ≡ some thread
    → (thread.thread_id ≡ id)
      × (thread.tenant_id ≡ tenant)
      × (thread.user_id ≡ user)
      × (has_key thread.checkpoint_key rows ≡ true)
unfolding find_owned is_owned has_key
find_owned-owner id tenant user [] thread h = cc
find_owned-owner id tenant user (row ∷ rows) thread h = ground (
  arith,
  text_eq_iff row.thread.thread_id id,
  text_eq_iff row.thread.tenant_id tenant,
  text_eq_iff row.thread.user_id user,
  text_eq_refl row.thread.checkpoint_key,
  find_owned-owner id tenant user rows thread,
)

same_key :
    (id id' tenant tenant' user user' : Text) (rows : Table) (thread thread' : ConversationThread)
    → IsTable rows
    → find_owned id tenant user rows ≡ some thread
    → find_owned id' tenant' user' rows ≡ some thread'
    → thread.checkpoint_key ≡ thread'.checkpoint_key
    → (id ≡ id') × (tenant ≡ tenant') × (user ≡ user')
unfolding find_owned
same_key id id' tenant tenant' user user' [] thread thread' u h h' e = cc
same_key id id' tenant tenant' user user' (row ∷ rows) thread thread' u h h' e = ground (
  arith,
  find_owned-owner id tenant user (row ∷ rows) thread,
  find_owned-owner id' tenant' user' (row ∷ rows) thread',
  find_owned-owner id tenant user rows thread,
  find_owned-owner id' tenant' user' rows thread',
  same_key id id' tenant tenant' user user' rows thread thread',
)

module _ (parse_uuid : Text → Option Text) where
  -- Two requests that resolve to one checkpoint come from the same user of the same tenant, and
  -- name the same thread.
  pub resolve_isolated :
      (id id' tenant tenant' user user' key : Text) (rows : Table)
      → IsTable rows
      → resolve_checkpoint_key parse_uuid id tenant user rows ≡ ok key
      → resolve_checkpoint_key parse_uuid id' tenant' user' rows ≡ ok key
      → (tenant ≡ tenant') × (user ≡ user') × (parse_uuid id ≡ parse_uuid id')
  unfolding resolve_checkpoint_key
  resolve_isolated id id' tenant tenant' user user' key rows u h h' = grind (arith, same_key)

  -- A thread that was created, under an id that `UUID` leaves as it is, resolves for its owner to
  -- the new checkpoint key.
  pub resolve-create_thread :
      (new_id new_key tenant user : Text) (rows : Table) (id : Text)
      → parse_uuid new_id ≡ some new_id
      → (create_thread new_id new_key tenant user rows).0 ≡ ok id
      → resolve_checkpoint_key parse_uuid id tenant user
          (create_thread new_id new_key tenant user rows).1
        ≡ ok new_key
  unfolding resolve_checkpoint_key create_thread create insert find_owned is_owned
  resolve-create_thread new_id new_key tenant user rows id parsed h =
      ground (arith, text_eq_refl new_id, text_eq_refl tenant, text_eq_refl user)

  -- Creating a thread, with or without success, leaves what every other thread id resolves to, for
  -- every tenant and user.
  pub resolve-create_thread_ne :
      (new_id new_key tenant user : Text) (rows : Table) (other tenant' user' : Text)
      → parse_uuid other ≢ some new_id
      → resolve_checkpoint_key parse_uuid other tenant' user'
          (create_thread new_id new_key tenant user rows).1
        ≡ resolve_checkpoint_key parse_uuid other tenant' user' rows
  unfolding resolve_checkpoint_key create_thread create insert find_owned is_owned
  resolve-create_thread_ne new_id new_key tenant user rows other tenant' user' ne =
      elim (Option-cases (parse_uuid other)) [
        | inl bad ↦ rw (bad, resolve_checkpoint_key) refl
        | inr (id, parsed) ↦ ground (arith, text_eq_iff new_id id)
      ]
