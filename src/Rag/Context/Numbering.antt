-- ===== src/Rag/Context/Numbering.antt =====
-- The references of a formatted context are valid and numbered in the order of the chunks.
use enterprise_support_agent.Base.{
  ℕ, suc, false, Option, none, some, List, [], ◌∷◌, ◌≡◌, refl, arith, ok, >>=-eq-ok, ok-injective,
  length, is_empty, All, ap,
}
use enterprise_support_agent.Base.Text.{Text}
use enterprise_support_agent.Domain.{KnowledgeReference}
use enterprise_support_agent.Rag.Context.{
  Document, MetaValue, text, number, stripped_text, required_metadata, format_chunk, metadata_get,
  format_chunks, references_of, format_retrieved_context, FormattedKnowledgeContext,
}

-- `n`, `n + 1`, … in order.
abbrev pub Numbered : ℕ → List KnowledgeReference → Type 0
Numbered n [] = Unit
Numbered n (r ∷ rs) = (r.reference_number ≡ n) × Numbered (suc n) rs

-- What `KnowledgeSource` demands of a text: one character at least.
pub record HasTexts (r : KnowledgeReference) : Type 0 where
  pub has_document : is_empty r.document_id ≡ false
  pub has_title : is_empty r.title ≡ false
  pub has_version : is_empty r.version ≡ false

stripped-nonempty :
    (v : Option MetaValue) (s : Text) → stripped_text v ≡ some s → is_empty s ≡ false
unfolding stripped_text
stripped-nonempty none s h = cc
stripped-nonempty (some (number n)) s h = cc
stripped-nonempty (some (text t)) s h = ground arith

required-nonempty :
    (chunk : Document) (key s : Text) → required_metadata chunk key ≡ ok s → is_empty s ≡ false
unfolding required_metadata
required-nonempty chunk key s h =
    ground (arith, stripped-nonempty (metadata_get chunk.metadata key) s)

-- A chunk's reference has the number that it is given, and its texts are not empty.
format_chunk-valid :
    (n : ℕ) (chunk : Document) (r : KnowledgeReference) (content : Text)
    → format_chunk n chunk ≡ ok (r, content)
    → (r.reference_number ≡ n) × HasTexts r
unfolding format_chunk
format_chunk-valid n chunk r content h = grind (arith, required-nonempty)

format_chunks-valid :
    (n : ℕ) (chunks : List Document) (entries : List (KnowledgeReference × Text))
    → format_chunks n chunks ≡ ok entries
    → Numbered n (references_of entries)
      × All HasTexts (references_of entries)
      × (length (references_of entries) ≡ length chunks)
unfolding format_chunks
format_chunks-valid n [] entries h = rw (← ok-injective [] entries h) (tt, tt, refl)
format_chunks-valid n (chunk ∷ chunks) entries h =
    let (entry, first, rest) = >>=-eq-ok (format_chunk n chunk) _ h in
    let (others, more, last) = >>=-eq-ok (format_chunks (suc n) chunks) _ rest in
    let (numbered, texts) = format_chunk-valid n chunk entry.0 entry.1 first in
    let (numbers, all_texts, count) = format_chunks-valid (suc n) chunks others more in
    rw (← ok-injective (entry ∷ others) entries last)
      ((numbered, numbers), (texts, all_texts), ap suc count)

-- A context that is formatted without an exception has one reference for each chunk, numbered
-- 1, 2, … in the order of the chunks, and the document id, title and version of each reference
-- have a character at least.
pub format_retrieved_context-valid :
    (chunks : List Document) (context : FormattedKnowledgeContext)
    → format_retrieved_context chunks ≡ ok context
    → Numbered 1 context.references
      × All HasTexts context.references
      × (length context.references ≡ length chunks)
unfolding format_retrieved_context
format_retrieved_context-valid [] context h = rw (← ok-injective _ context h) (tt, tt, refl)
format_retrieved_context-valid (chunk ∷ chunks) context h =
    let (entries, formatted, last) = >>=-eq-ok (format_chunks 1 (chunk ∷ chunks)) _ h in
    rw (← ok-injective _ context last) (format_chunks-valid 1 (chunk ∷ chunks) entries formatted)
