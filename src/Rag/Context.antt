-- ===== src/Rag/Context.antt =====
-- agent-service/src/agent_service/rag/context.py: retrieved chunks as numbered references and as
-- the JSON text that the model reads. A chunk's scores are not read here, so a chunk stands as its
-- document.
pub mod Numbering
use enterprise_support_agent.Base.{
  ℕ, zero, suc, ◌+◌, ◌≤◌, Bool, true, false, Option, none, some, List, [], ◌∷◌, ◌≡◌, refl, arith,
  is_empty, if◌then◌else◌, Result, ok, err, ◌>>=◌, length,
}
use enterprise_support_agent.Base.Text.{Text, lit, strip, is_blank, text_eq}
use enterprise_support_agent.Base.Json.{
  Json, null, int, str, arr, obj, nil, cons, end, member, Items, dumps_indent,
}
use enterprise_support_agent.Domain.{Error, value_error, KnowledgeReference}

-- The values of a document's metadata.
pub data MetaValue : Type 0 where
  text : Text → MetaValue
  number : ℕ → MetaValue

abbrev pub Metadata : Type 0
Metadata = List (Text × MetaValue)

-- `metadata.get(key)`
unfoldable pub metadata_get : Metadata → Text → Option MetaValue
metadata_get [] key = none
metadata_get ((k, v) ∷ m) key = if text_eq k key then some v else metadata_get m key

pub record Document : Type 0 where
  pub page_content : Text
  pub metadata : Metadata

pub record FormattedKnowledgeContext : Type 0 where
  pub text : Text
  pub references : List KnowledgeReference

-- The text of a value that is a `str` with something but spaces in it, stripped.
unfoldable pub stripped_text : Option MetaValue → Option Text
stripped_text (some (text s)) = if is_blank s then none else some (strip s)
stripped_text _ = none

abbrev or_raise : Option Text → Result Error Text
or_raise none = err value_error
or_raise (some s) = ok s

unfoldable pub required_metadata : Document → Text → Result Error Text
required_metadata chunk key = or_raise (stripped_text (metadata_get chunk.metadata key))

-- `content` of a chunk, refused if blank.
unfoldable pub chunk_content : Document → Result Error Text
chunk_content chunk =
    if is_empty (strip chunk.page_content) then err value_error else ok (strip chunk.page_content)

-- The reference of the chunk at place `reference_number`, and the object that stands for it in the
-- text: one round of the loop.
unfoldable pub format_chunk : ℕ → Document → Result Error (KnowledgeReference × Text)
format_chunk reference_number chunk = do
  content ← chunk_content chunk
  document_id ← required_metadata chunk (lit "document_id")
  title ← required_metadata chunk (lit "title")
  version ← required_metadata chunk (lit "version")
  ok (
    record {
      reference_number = reference_number;
      document_id = document_id;
      title = title;
      section_title = stripped_text (metadata_get chunk.metadata (lit "section_title"));
      version = version;
    },
    content,
  )

unfoldable pub format_chunks : ℕ → List Document → Result Error (List (KnowledgeReference × Text))
format_chunks n [] = ok []
format_chunks n (chunk ∷ chunks) = do
  entry ← format_chunk n chunk
  rest ← format_chunks (suc n) chunks
  ok (entry ∷ rest)

abbrev optional_str : Option Text → Json
optional_str none = null
optional_str (some s) = str s

reference_object : KnowledgeReference × Text → Json
reference_object (r, content) = obj (
    member (lit "reference_number") (int r.reference_number) (
      member (lit "title") (str r.title) (
        member (lit "section") (optional_str r.section_title)
          (member (lit "version") (str r.version) (member (lit "content") (str content) end)))))

reference_documents : List (KnowledgeReference × Text) → Items
reference_documents [] = nil
reference_documents (e ∷ es) = cons (reference_object e) (reference_documents es)

abbrev pub references_of : List (KnowledgeReference × Text) → List KnowledgeReference
references_of [] = []
references_of ((r, _) ∷ es) = r ∷ references_of es

unfoldable pub format_retrieved_context : List Document → Result Error FormattedKnowledgeContext
unfolding reference_object reference_documents
format_retrieved_context [] = ok (record { text = []; references = [] })
format_retrieved_context (chunk ∷ chunks) = do
  entries ← format_chunks 1 (chunk ∷ chunks)
  ok (record {
    text =
        dumps_indent
          (obj (member (lit "reference_documents") (arr (reference_documents entries)) end)) 0;
    references = references_of entries;
  })
