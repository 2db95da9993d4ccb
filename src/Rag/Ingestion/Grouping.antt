-- ===== src/Rag/Ingestion/Grouping.antt =====
-- The groups of an ingestion hold its chunks, each chunk once.
use mathlib.Core.Path.{subst}
use enterprise_support_agent.Base.{
  Bool, false, List, [], ◌∷◌, ◌++◌, ◌≡◌, refl, sym, ap, ◌∙◌, arith, if◌then◌else◌, ok, err, ◌>>=◌,
  >>=-eq-ok, ok-injective, inl, inr, Bool-cases, append-nil,
}
use enterprise_support_agent.Rag.Context.{Document}
use enterprise_support_agent.Rag.Ingestion.{
  Key, key_of, key_is, Groups, group_without, group_at, chunks_by_document,
}
use enterprise_support_agent.Rag.Ingestion.Groups.{
  has_key, key_is_iff, has_key-group_without, IsGroups, chunks_by_document-IsGroups,
}

-- The chunk has the key.
abbrev has_document : Key → Document → Bool
has_document key c = elim (key_of c) [ ok k ↦ key_is k key | err e ↦ false ]

-- The chunks with the key, in their order.
abbrev pub chunks_at : Key → List Document → List Document
chunks_at key [] = []
chunks_at key (c ∷ cs) =
    let rest = chunks_at key cs in if has_document key c then c ∷ rest else rest

-- The chunks of all groups of the key.
abbrev pub chunks_under : Key → Groups → List Document
chunks_under key [] = []
chunks_under key ((k, chunks) ∷ groups) =
    let rest = chunks_under key groups in if key_is k key then chunks ++ rest else rest

chunks_under-absent :
    (key : Key) (groups : Groups) → has_key key groups ≡ false → chunks_under key groups ≡ []
chunks_under-absent key [] h = refl
chunks_under-absent key ((k, chunks) ∷ groups) h = ground (arith, chunks_under-absent key groups)

chunks_under-group_at :
    (key : Key) (groups : Groups) → IsGroups groups → group_at key groups ≡ chunks_under key groups
unfolding group_at
chunks_under-group_at key [] h = refl
chunks_under-group_at key ((k, []) ∷ groups) h = absurd h
chunks_under-group_at key ((k, c ∷ cs) ∷ groups) h = elim (Bool-cases (key_is k key)) [
  | inr other ↦ rw other (chunks_under-group_at key groups h.2)
  | inl same ↦
      let absent : has_key key groups ≡ false =
        subst (λ x. has_key x groups ≡ false) (key_is_iff k key same) h.1 in
      rw (same, chunks_under-absent key groups absent) (sym (append-nil (c ∷ cs)))
]

chunks_under-group_without :
    (k key : Key) (groups : Groups)
    → key_is k key ≡ false
    → chunks_under key (group_without k groups) ≡ chunks_under key groups
unfolding group_without
chunks_under-group_without k key [] h = refl
chunks_under-group_without k key ((k', chunks) ∷ groups) h = elim (Bool-cases (key_is k' k)) [
  | inr other ↦ ground (arith, chunks_under-group_without k key groups h)
  | inl same ↦
      let differs : key_is k' key ≡ false =
        subst (λ x. key_is x key ≡ false) (sym (key_is_iff k' k same)) h in
      ground (arith, chunks_under-group_without k key groups h)
]

chunks_under-put :
    (key k : Key) (c : Document) (cs : List Document) (groups : Groups)
    → key_of c ≡ ok k
    → IsGroups groups
    → chunks_under key groups ≡ chunks_at key cs
    → chunks_under key ((k, c ∷ group_at k groups) ∷ group_without k groups)
      ≡ chunks_at key (c ∷ cs)
chunks_under-put key k c cs groups named is_groups h = elim (Bool-cases (key_is k key)) [
  | inr other ↦ ground (arith, chunks_under-group_without k key groups other)
  | inl same ↦
      let eq = key_is_iff k key same in
      let absent = chunks_under-absent key (group_without k groups) (
        subst (λ x. has_key x (group_without k groups) ≡ false) eq
          (has_key-group_without k groups)) in
      let whole = append-nil (c ∷ group_at k groups) in
      let grouped = chunks_under-group_at k groups is_groups in
      let moved : chunks_under k groups ≡ chunks_under key groups =
        ap (λ x. chunks_under x groups) eq in
      ground (arith)
]

-- Each chunk is in a group of its key, at its place among the chunks of that key, and no group has
-- another chunk.
pub chunks_under-chunks_by_document :
    (key : Key) (chunks : List Document) (groups : Groups)
    → chunks_by_document chunks ≡ ok groups
    → chunks_under key groups ≡ chunks_at key chunks
unfolding chunks_by_document
chunks_under-chunks_by_document key [] groups h =
    ap (chunks_under key) (sym (ok-injective [] groups h))
chunks_under-chunks_by_document key (c ∷ cs) groups h =
    let (k, named, continued) =
      >>=-eq-ok (key_of c)
        (λ k. chunks_by_document cs >>= λ gs. ok ((k, c ∷ group_at k gs) ∷ group_without k gs)) h in
    let (rest, grouped, put) =
      >>=-eq-ok (chunks_by_document cs) (λ gs. ok ((k, c ∷ group_at k gs) ∷ group_without k gs))
        continued in
    ap (chunks_under key)
      (sym (ok-injective ((k, c ∷ group_at k rest) ∷ group_without k rest) groups put))
    ∙ chunks_under-put key k c cs rest named (chunks_by_document-IsGroups cs rest grouped)
        (chunks_under-chunks_by_document key cs rest grouped)
