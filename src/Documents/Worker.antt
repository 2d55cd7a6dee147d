-- ===== src/Documents/Worker.antt =====
-- workers/document_tasks.py: the actor that ingests one version of a file, as the transactions that
-- it commits. The session keeps the row of the first transaction (`expire_on_commit=False`),
-- and the later `with_for_update` query gives that row again where the database still has it.
pub mod Attempts
pub mod Exhaustion
pub mod Staleness
pub mod Preparation
pub mod Generations
pub mod Publication
pub mod Interleaving
use tenant_intelligence_plat.Base.{
  ℕ, suc, ◌+◌, String, Bool, true, false, not, ◌&&◌, ◌||◌, Option, none, some, List, [], ◌∷◌, ◌++◌,
  map, ◌==◌, str_eq, if◌then◌else◌, length, ltb, leb, any, scalar, update_where, delete_where,
}
use tenant_intelligence_plat.Identity.Models.{Uuid}
use tenant_intelligence_plat.Documents.Chunker.{
  FileError, content_limit_exceeded, parsing_failed, storage_integrity_failed, mime_mismatch,
  embedding_failed, other_file_error, Outcome, done, refused, ParsedElement, ParsedDocument,
  ChunkDraft, ChunkText, ChunkSettings, chunk_document,
}
use tenant_intelligence_plat.Documents.Models.{
  ProcessingStatus, pending, processing, ready, failed, StoredFile, Vector, DocumentChunk, Library,
  is_live, documents_hold,
}
use tenant_intelligence_plat.Documents.Files.{Job, set_file}
use tenant_intelligence_plat.Documents.Attempt.{Prepared, prepared, raised, retryable, Ingestion}

abbrev pub find_file : Uuid → Uuid → Library → Option StoredFile
find_file tenant_id file_id db = scalar (λ f. f.tenant_id == tenant_id && f.id == file_id) db.files

-- `deleted_at is None and ingestion_version == version`
abbrev pub is_current : ℕ → StoredFile → Bool
is_current version row = is_live row && row.ingestion_version == version

abbrev pub mark_processing : ℕ → StoredFile → StoredFile → StoredFile
mark_processing now held stored = record stored {
  processing_status = processing;
  processing_started_at = some now;
  processing_attempts = suc held.processing_attempts;
}

abbrev pub start : ℕ → Library → StoredFile → Library × StoredFile
start now db row = (set_file row.id (mark_processing now row) db, mark_processing now row row)

abbrev pub when_current : ℕ → ℕ → Library → Option StoredFile → Option (Library × StoredFile)
when_current version now db none = none
when_current version now db (some row) =
    if is_current version row then some (start now db row) else none

-- the first transaction: the row that the session keeps, or `none` where the job is void
unfoldable pub begin : Uuid → Uuid → ℕ → ℕ → Library → Option (Library × StoredFile)
begin tenant_id file_id version now db =
    when_current version now db (find_file tenant_id file_id db)

abbrev pub chunk_of : StoredFile → ℕ → ChunkDraft → Vector → DocumentChunk
chunk_of row version draft vector = record {
  tenant_id = row.tenant_id;
  knowledge_base_id = row.knowledge_base_id;
  file_id = row.id;
  ingestion_version = version;
  chunk_index = draft.index;
  content = draft.content;
  content_hash = draft.content_hash;
  page_number = draft.page_number;
  section_title = draft.section_title;
  sheet_name = draft.sheet_name;
  row_start = draft.row_start;
  row_end = draft.row_end;
  token_count = draft.token_count;
  chunk_metadata = draft.metadata;
  embedding = vector;
}

-- `zip(drafts, vectors, strict=True)`: the lengths agree where this is reached
abbrev pub chunks_of : StoredFile → ℕ → List ChunkDraft → List Vector → List DocumentChunk
chunks_of row version [] vectors = []
chunks_of row version (d ∷ ds) [] = []
chunks_of row version (d ∷ ds) (v ∷ vs) = chunk_of row version d v ∷ chunks_of row version ds vs

abbrev pub is_generation : Uuid → Uuid → ℕ → DocumentChunk → Bool
is_generation tenant_id file_id version c =
    c.tenant_id == tenant_id && (c.file_id == file_id && c.ingestion_version == version)

-- a flush writes the columns whose value differs from the one that the session holds
abbrev pub flushed : {A : Type 0} → (A → A → Bool) → A → A → A → A
flushed same held assigned stored = if same held assigned then stored else assigned

abbrev pub same_option : {A : Type 0} → (A → A → Bool) → Option A → Option A → Bool
same_option same none none = true
same_option same (some a) (some b) = same a b
same_option same none (some b) = false
same_option same (some a) none = false

-- The status that the session holds is "processing", so "ready" is always written.
abbrev pub mark_ready : StoredFile → ℕ → Ingestion → ℕ → StoredFile → StoredFile
mark_ready held version work now stored = record stored {
  processing_status = ready;
  active_ingestion_version =
      flushed (λ a b. a == b) held.active_ingestion_version version stored.active_ingestion_version;
  processing_error_code =
      flushed (same_option str_eq) held.processing_error_code none stored.processing_error_code;
  processing_error_message =
      flushed (same_option str_eq) held.processing_error_message none
        stored.processing_error_message;
  page_count =
      flushed (same_option (λ a b. a == b)) held.page_count work.document.page_count
        stored.page_count;
  extracted_text_length =
      flushed (same_option (λ a b. a == b)) held.extracted_text_length (some work.extracted)
        stored.extracted_text_length;
  chunk_count = flushed (λ a b. a == b) held.chunk_count (length work.drafts) stored.chunk_count;
  processed_at =
      flushed (same_option (λ a b. a == b)) held.processed_at (some now) stored.processed_at;
}

abbrev pub publication : StoredFile → ℕ → Ingestion → ℕ → Library → Library
publication held version work now db =
    record (set_file held.id (mark_ready held version work now) db) {
      chunks =
          delete_where (is_generation held.tenant_id held.id version) db.chunks
          ++ chunks_of held version work.drafts work.vectors;
    }

abbrev pub exists_file : StoredFile → Library → Bool
exists_file held db =
    any (λ (f : StoredFile). f.tenant_id == held.tenant_id && f.id == held.id) db.files

abbrev pub settle_publication : Bool → Library → Library → Prepared Library
settle_publication true changed db = prepared changed
settle_publication false changed db = raised (retryable "DOCUMENT_PROCESSING_FAILED")

-- The last transaction. Its test of the version and of `deleted_at` reads the row that the session
-- holds; a commit that a constraint refuses ends in the handler of `Exception`.
unfoldable pub publish : StoredFile → ℕ → Ingestion → ℕ → Library → Prepared Library
publish held version work now db =
    if exists_file held db && is_current version held
    then (let changed = publication held version work now db in
        settle_publication (documents_hold changed) changed db)
    else prepared db

abbrev pub fallback : ProcessingStatus → StoredFile → ProcessingStatus
fallback status row = if ltb 0 row.active_ingestion_version then ready else status

abbrev pub mark_if_current : Uuid → Uuid → ℕ → (StoredFile → StoredFile) → Library → Library
mark_if_current tenant_id file_id version f db = record db {
  files =
      update_where (λ x. (x.tenant_id == tenant_id && x.id == file_id) && is_current version x) f
        db.files;
}

abbrev pub failed_row : String → StoredFile → StoredFile
failed_row code row = record row {
  processing_status = fallback failed row;
  processing_error_code = some code;
  processing_error_message = some "Document processing failed safely";
}

abbrev pub retry_row : StoredFile → StoredFile
retry_row row = record row {
  processing_status = fallback pending row;
  processing_error_code = some "RETRY_PENDING";
  processing_error_message = none;
}

unfoldable pub mark_failed : Uuid → Uuid → ℕ → String → Library → Library
mark_failed tenant_id file_id version code db =
    mark_if_current tenant_id file_id version (failed_row code) db

unfoldable pub mark_retry_pending : Uuid → Uuid → ℕ → Library → Library
mark_retry_pending tenant_id file_id version db =
    mark_if_current tenant_id file_id version retry_row db
