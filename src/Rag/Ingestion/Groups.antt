-- ===== src/Rag/Ingestion/Groups.antt =====
-- The chunks of a catalog by document.
use mathlib.Core.Path.{subst}
use enterprise_support_agent.Base.{
  Bool, true, false, List, [], ◌∷◌, ◌≡◌, refl, arith, if◌then◌else◌, ok, ◌>>=◌, ◌||◌, All,
  >>=-eq-ok, ok-injective, inl, inr, Bool-cases,
}
use enterprise_support_agent.Base.Text.{text_eq_iff, text_eq_refl}
use enterprise_support_agent.Rag.Context.{Document}
use enterprise_support_agent.Rag.Ingestion.{
  Key, key_of, key_is, Groups, group_without, group_at, chunks_by_document,
}

abbrev pub has_key : Key → Groups → Bool
has_key key [] = false
has_key key ((k, chunks) ∷ groups) = key_is k key || has_key key groups

-- The chunks all have the key.
abbrev pub HaveKey : Key → List Document → Type 0
HaveKey key = All (λ c. key_of c ≡ ok key)

-- No group is empty, the chunks of a group have its key, and no two groups have one key.
abbrev pub IsGroups : Groups → Type 0
IsGroups [] = Unit
IsGroups ((key, []) ∷ groups) = ⊥
IsGroups ((key, c ∷ cs) ∷ groups) =
    HaveKey key (c ∷ cs) × (has_key key groups ≡ false) × IsGroups groups

pub key_is_iff : (k key : Key) → key_is k key ≡ true → k ≡ key
key_is_iff (t, d) (t', d') h = ground (arith, text_eq_iff t t', text_eq_iff d d')

pub key_is_refl : (k : Key) → key_is k k ≡ true
key_is_refl (t, d) = ground (arith, text_eq_refl t, text_eq_refl d)

pub has_key-group_without :
    (key : Key) (groups : Groups) → has_key key (group_without key groups) ≡ false
unfolding group_without
has_key-group_without key [] = refl
has_key-group_without key ((k, chunks) ∷ groups) = ground (arith, has_key-group_without key groups)

has_key-without_other :
    (key other : Key) (groups : Groups)
    → has_key other groups ≡ false
    → has_key other (group_without key groups) ≡ false
unfolding group_without
has_key-without_other key other [] h = refl
has_key-without_other key other ((k, chunks) ∷ groups) h =
    ground (arith, has_key-without_other key other groups)

group_without-IsGroups :
    (key : Key) (groups : Groups) → IsGroups groups → IsGroups (group_without key groups)
unfolding group_without
group_without-IsGroups key [] h = tt
group_without-IsGroups key ((k, []) ∷ groups) h = absurd h
group_without-IsGroups key ((k, c ∷ cs) ∷ groups) h =
    elim (key_is k key)
      as (λ b.
        IsGroups (if b then group_without key groups else (k, c ∷ cs) ∷ group_without key groups)) [
          | true ↦ group_without-IsGroups key groups h.2
          | false ↦
              (h.0, has_key-without_other key k groups h.1, group_without-IsGroups key groups h.2)
        ]

group_at-HaveKey :
    (key : Key) (groups : Groups) → IsGroups groups → HaveKey key (group_at key groups)
unfolding group_at
group_at-HaveKey key [] h = tt
group_at-HaveKey key ((k, []) ∷ groups) h = absurd h
group_at-HaveKey key ((k, c ∷ cs) ∷ groups) h = elim (Bool-cases (key_is k key)) [
  | inl same ↦ rw same (subst (λ x. HaveKey x (c ∷ cs)) (key_is_iff k key same) h.0)
  | inr other ↦ rw other (group_at-HaveKey key groups h.2)
]

pub chunks_by_document-IsGroups :
    (chunks : List Document) (groups : Groups)
    → chunks_by_document chunks ≡ ok groups
    → IsGroups groups
unfolding chunks_by_document
chunks_by_document-IsGroups [] groups h = subst IsGroups (ok-injective [] groups h) tt
chunks_by_document-IsGroups (c ∷ cs) groups h =
    let (key, named, continued) =
      >>=-eq-ok (key_of c)
        (λ k. chunks_by_document cs >>= λ gs. ok ((k, c ∷ group_at k gs) ∷ group_without k gs)) h in
    let (rest, grouped, put) =
      >>=-eq-ok (chunks_by_document cs)
        (λ gs. ok ((key, c ∷ group_at key gs) ∷ group_without key gs)) continued in
    let is_rest = chunks_by_document-IsGroups cs rest grouped in
    subst IsGroups (ok-injective ((key, c ∷ group_at key rest) ∷ group_without key rest) groups put)
      (
        (named, group_at-HaveKey key rest is_rest),
        has_key-group_without key rest,
        group_without-IsGroups key rest is_rest,
      )
