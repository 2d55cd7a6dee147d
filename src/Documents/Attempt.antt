-- ===== src/Documents/Attempt.antt =====
-- workers/document_tasks.py: the work of `_process` between its transactions. An `Attempt` is what
-- the object store, the file inspection, the parser and the embedder answer.
use tenant_intelligence_plat.Base.{
  ℕ, ◌+◌, String, Bool, true, false, not, ◌&&◌, none, some, List, [], ◌∷◌, map, ◌==◌, str_eq,
  length, leb, any,
}
use tenant_intelligence_plat.Documents.Chunker.{
  FileError, content_limit_exceeded, parsing_failed, storage_integrity_failed, mime_mismatch,
  embedding_failed, other_file_error, Outcome, done, refused, ParsedElement, ParsedDocument,
  ChunkDraft, ChunkText, ChunkSettings, chunk_document,
}
use tenant_intelligence_plat.Documents.Models.{StoredFile, Vector}

abbrev pub error_text : FileError → String
error_text content_limit_exceeded = "CONTENT_LIMIT_EXCEEDED"
error_text parsing_failed = "PARSING_FAILED"
error_text storage_integrity_failed = "STORAGE_INTEGRITY_FAILED"
error_text mime_mismatch = "MIME_MISMATCH"
error_text embedding_failed = "EMBEDDING_FAILED"
error_text (other_file_error code) = code

-- what the body of `_process` raises
pub data Raised : Type 0 where
  validation : FileError → Raised
  retryable : String → Raised

pub data Prepared (A : Type 0) : Type 0 where
  prepared : A → Prepared A
  raised : Raised → Prepared A

pub record WorkerSettings : Type 0 where
  pub chunking : ChunkSettings
  pub document_max_extracted_characters : ℕ
  pub embedding_dimension : ℕ

-- What a call of the object store, the file inspection, a parser or the embedder does.
pub data Answer (A : Type 0) : Type 0 where
  answered : A → Answer A
  -- it raises `TimeoutError`, `OSError` or `OperationalError`
  unavailable : Answer A
  -- it raises any other exception but `FileValidationError`
  crashed : Answer A

pub record Attempt : Type 0 where
  pub downloaded_size : Answer ℕ
  pub downloaded_checksum : String
  -- `detect_type`, `inspect_container` and the parser, which may raise `FileValidationError`
  pub detected : Answer (Outcome String)
  pub inspected : Answer (Outcome Unit)
  pub parsed : Answer (Outcome ParsedDocument)
  -- `len(element.text)`
  pub text_length : String → ℕ
  pub embed : List String → Answer (List Vector)

pub record Ingestion : Type 0 where
  pub document : ParsedDocument
  pub extracted : ℕ
  pub drafts : List ChunkDraft
  pub vectors : List Vector

abbrev pub from_outcome : {A B : Type 0} → Outcome A → (A → Prepared B) → Prepared B
from_outcome (done a) k = k a
from_outcome (refused e) k = raised (validation e)

-- the handlers by which an exception reaches the end of `_process`
abbrev pub from_answer : {A B : Type 0} → String → Answer A → (A → Prepared B) → Prepared B
from_answer code (answered a) k = k a
from_answer code unavailable k = raised (retryable code)
from_answer code crashed k = raised (retryable "DOCUMENT_PROCESSING_FAILED")

abbrev pub inspect : {A B : Type 0} → Answer (Outcome A) → (A → Prepared B) → Prepared B
inspect answer k =
    from_answer "INFRASTRUCTURE_TEMPORARILY_UNAVAILABLE" answer (λ outcome. from_outcome outcome k)

abbrev pub require_that : {A : Type 0} → Bool → FileError → Prepared A → Prepared A
require_that true e k = k
require_that false e k = raised (validation e)

abbrev pub extracted_length : (String → ℕ) → List ParsedElement → ℕ
extracted_length len [] = 0
extracted_length len (e ∷ es) = len e.text + extracted_length len es

module _ (text : ChunkText) (settings : WorkerSettings) where
  abbrev pub vectors_valid : List ChunkDraft → List Vector → Bool
  vectors_valid drafts vectors =
      length vectors == length drafts
      && not (any (λ (v : Vector). not (length v == settings.embedding_dimension)) vectors)

  abbrev pub embed_drafts : Attempt → ParsedDocument → ℕ → List ChunkDraft → Prepared Ingestion
  embed_drafts attempt document extracted drafts =
      from_answer "EMBEDDING_TEMPORARILY_UNAVAILABLE"
        (attempt.embed (map (λ (d : ChunkDraft). d.content) drafts))
        λ vectors. require_that (vectors_valid drafts vectors) embedding_failed (
          prepared (record {
            document = document;
            extracted = extracted;
            drafts = drafts;
            vectors = vectors;
          }))

  -- The chunker ends on every document, so the exhaustion of its fuel raises in no run.
  abbrev pub chunk_parsed : Attempt → ParsedDocument → Prepared Ingestion
  chunk_parsed attempt document =
      let extracted = extracted_length attempt.text_length document.elements in
      require_that (leb extracted settings.document_max_extracted_characters) content_limit_exceeded
        (elim (chunk_document text settings.chunking document) [
          | none ↦ raised (retryable "DOCUMENT_PROCESSING_FAILED")
          | some outcome ↦ from_outcome outcome (embed_drafts attempt document extracted)
        ])

  -- `_process` between its two transactions
  unfoldable pub prepare : Attempt → StoredFile → Prepared Ingestion
  prepare attempt row =
      from_answer "STORAGE_TEMPORARILY_UNAVAILABLE" attempt.downloaded_size λ size.
        require_that (size == row.file_size_bytes) storage_integrity_failed (
          require_that (str_eq attempt.downloaded_checksum row.checksum) storage_integrity_failed (
            inspect attempt.detected λ detected.
              require_that (str_eq detected row.detected_mime_type) mime_mismatch
                (inspect attempt.inspected λ _. inspect attempt.parsed (chunk_parsed attempt))))
