-- ===== src/Examples/Ingestions.antt =====
-- A file of three words, its ingestion, and the attempts that fail.
use tenant_intelligence_plat.Base.{
  ℕ, ◌≡◌, ◌≤◌, refl, true, false, none, some, inl, inr, List, [], ◌∷◌, map, length, arith,
}
use tenant_intelligence_plat.Errors.{conflict}
use tenant_intelligence_plat.Exec.{ok, err}
use tenant_intelligence_plat.Permissions.Dsl.{obj, end}
use tenant_intelligence_plat.Documents.Chunker.{
  Outcome, done, ParsedElement, ParsedDocument, ChunkDraft, ChunkSettings, ChunkText,
  chunk_document, chunk_elements, chunk_tokens,
}
use tenant_intelligence_plat.Documents.Chunker.Bounds.{
  is_numbered, chunk_document-total, chunk_document-bounds,
}
use tenant_intelligence_plat.Documents.Chunker.Coverage.{HasContent, Covers, chunk_document-Covers}
use tenant_intelligence_plat.Documents.Models.{
  kb_active, KnowledgeBase, StoredFile, ready, deleted, is_settled, Library, documents_hold,
}
use tenant_intelligence_plat.Documents.Policy.{get_kb, find_duplicate, require}
use tenant_intelligence_plat.Documents.Access.{Granted, require-Granted}
use tenant_intelligence_plat.Documents.Files.{ValidatedUpload, Platform, new_file, upload, put_done}
use tenant_intelligence_plat.Documents.Uploads.{upload-undone}
use tenant_intelligence_plat.Documents.Bases.{delete_base}
use tenant_intelligence_plat.Documents.Bases.Closing.{IsClosed, delete_base-IsClosed}
use tenant_intelligence_plat.Documents.Attempt.{
  answered, unavailable, prepared, WorkerSettings, Attempt, Ingestion, prepare,
}
use tenant_intelligence_plat.Documents.Worker.{
  begin, find_file, mark_processing, publication, publish,
}
use tenant_intelligence_plat.Documents.Worker.Attempts.{process_document}
use tenant_intelligence_plat.Documents.Worker.Exhaustion.{process_document-settled}
use tenant_intelligence_plat.Documents.Worker.Staleness.{publish-ignores_deletion}
use tenant_intelligence_plat.Documents.Worker.Generations.{IsServed}
use tenant_intelligence_plat.Documents.Worker.Interleaving.{
  Moves, stays, moves, begins, publishes, Moves-IsServed,
}
use tenant_intelligence_plat.Examples.Identities.{context}

abbrev words : ChunkText
words = record {
  findall = λ s. "one" ∷ "two" ∷ "three" ∷ [];
  join_spaced = λ ws. "words";
  strip = λ s. s;
  sha256 = λ s. s;
}

-- windows of two tokens, each beginning with the last token of the one before
abbrev chunking : ChunkSettings
chunking = record {
  document_chunk_target_tokens = 2;
  document_chunk_overlap_tokens = 1;
  document_max_chunks_per_file = 5;
}

abbrev element : ParsedElement
element = record {
  text = "one two three";
  page_number = some 4;
  section_title = none;
  sheet_name = none;
  row_start = none;
  row_end = none;
  metadata = obj end;
}

abbrev document : ParsedDocument
document = record { elements = element ∷ []; page_count = some 1 }

abbrev word_draft : ℕ → ChunkDraft
word_draft index = record {
  index = index;
  content = "words";
  content_hash = "words";
  token_count = 2;
  page_number = some 4;
  section_title = none;
  sheet_name = none;
  row_start = none;
  row_end = none;
  metadata = obj end;
}

abbrev drafts : List ChunkDraft
drafts = word_draft 0 ∷ word_draft 1 ∷ []

chunking-runs : chunk_document words chunking document ≡ some (done drafts)
unfolding chunk_document chunk_elements chunk_tokens
chunking-runs = refl

words-HasContent : HasContent words chunking (words.findall "one two three")
words-HasContent start within = refl

chunk_document-total_example :
    (r : Outcome (List ChunkDraft)) × (chunk_document words chunking document ≡ some r)
chunk_document-total_example = chunk_document-total words chunking document (omega arith)

chunk_document-bounds_example :
    (is_numbered 2 0 drafts ≡ true) × (1 ≤ length drafts) × (length drafts ≤ 5)
chunk_document-bounds_example =
    chunk_document-bounds words chunking document drafts (omega arith) chunking-runs

chunk_document-Covers_example : Covers words chunking drafts element 2
chunk_document-Covers_example =
    chunk_document-Covers words chunking document drafts element 2 (inl refl) words-HasContent
      (omega arith) chunking-runs

abbrev knowledge_base : KnowledgeBase
knowledge_base = record {
  id = 50;
  tenant_id = 1;
  created_by = 10;
  name = "handbook";
  description = none;
  status = kb_active;
}

abbrev upload_details : ValidatedUpload
upload_details = record {
  extension = "txt";
  detected_mime_type = "text/plain";
  size = 13;
  checksum = "sum";
}

abbrev file : StoredFile
file = new_file context 50 60 "key" upload_details

abbrev library : Library
library = record { knowledge_bases = knowledge_base ∷ []; files = file ∷ []; chunks = [] }

abbrev platform : Platform
platform = record { library = library; objects = []; queue = [] }

require-Granted_example :
    ((kb : KnowledgeBase)
      → (require context 50 true true library).0 ≡ ok kb
      → Granted context 50 true library kb)
    × ((require context 50 true true library).1 ≡ library)
require-Granted_example = require-Granted context 50 true true library

duplicate_upload :
    (upload context 50 61
      (λ tenant_id file_id. "new")
      upload_details
      put_done
      true
      true
      true
      platform).0
    ≡ err conflict
unfolding upload require get_kb find_duplicate
duplicate_upload = refl

upload-undone_example :
    (upload context 50 61
      (λ tenant_id file_id. "new")
      upload_details
      put_done
      true
      true
      true
      platform).1
    ≡ platform
upload-undone_example =
    upload-undone context 50 61 (λ tenant_id file_id. "new") upload_details put_done platform
      conflict refl refl duplicate_upload

abbrev worker_settings : WorkerSettings
worker_settings = record {
  chunking = chunking;
  document_max_extracted_characters = 100;
  embedding_dimension = 1;
}

abbrev attempt : Attempt
attempt = record {
  downloaded_size = answered 13;
  downloaded_checksum = "sum";
  detected = answered (done "text/plain");
  inspected = answered (done tt);
  parsed = answered (done document);
  text_length = λ s. 13;
  embed = λ contents. answered (map (λ s. 1 ∷ []) contents);
}

abbrev lost_attempt : Attempt
lost_attempt = record attempt { downloaded_size = unavailable }

process_document-settled_example :
    ((process_document words worker_settings 1 60 1 lost_attempt 500 2 library).0 ≡ false)
    × ((f : StoredFile) × (find_file 1 60
            (process_document words worker_settings 1 60 1 lost_attempt 500 2 library).1
          ≡ some f)
        × (is_settled f.processing_status ≡ true))
process_document-settled_example =
    process_document-settled 1 60 1 words worker_settings lost_attempt 500 2 library file refl refl
      (omega arith)

abbrev pub held : StoredFile
held = mark_processing 500 file file

abbrev pub begun : Library
begun = record library { files = held ∷ [] }

abbrev pub work : Ingestion
work = record {
  document = document;
  extracted = 13;
  drafts = drafts;
  vectors = (1 ∷ []) ∷ (1 ∷ []) ∷ [];
}

abbrev deleted_file : StoredFile
deleted_file = record held { processing_status = deleted; deleted_at = some 510 }

abbrev deleted_library : Library
deleted_library = record library { files = deleted_file ∷ [] }

publication-holds : documents_hold (publication held 1 work 520 deleted_library) ≡ true
unfolding documents_hold
publication-holds = refl

publish-ignores_deletion_example :
    (after : Library) × (f : StoredFile) × (publish held 1 work 520 deleted_library
      ≡ prepared after)
    × (find_file 1 60 after ≡ some f)
    × (f.processing_status ≡ ready)
    × (f.deleted_at ≡ some 510)
publish-ignores_deletion_example =
    publish-ignores_deletion held deleted_file 1 520 work deleted_library refl refl
      publication-holds

beginning : begin 1 60 1 500 library ≡ some (begun, held)
unfolding begin
beginning = refl

preparation : prepare words worker_settings attempt held ≡ prepared work
unfolding prepare chunk_document chunk_elements chunk_tokens
preparation = refl

publishing : publish held 1 work 520 begun ≡ prepared (publication held 1 work 520 begun)
unfolding publish documents_hold
publishing = refl

library-IsServed : IsServed library
library-IsServed f (inl e) live = absurd (ground (arith, rw e at live))
library-IsServed f (inr never) live = elim never [ ]

commits : Moves words worker_settings library (publication held 1 work 520 begun)
commits =
    moves library begun (publication held 1 work 520 begun)
      (begins 1 60 1 500 library begun held beginning)
      (moves begun (publication held 1 work 520 begun) (publication held 1 work 520 begun)
        (publishes attempt held 1 520 work begun (publication held 1 work 520 begun) preparation
          publishing)
        (stays (publication held 1 work 520 begun)))

Moves-IsServed_example : IsServed (publication held 1 work 520 begun)
Moves-IsServed_example =
    Moves-IsServed words worker_settings library (publication held 1 work 520 begun) (omega arith)
      commits library-IsServed

deletion : (delete_base context 50 (λ key. true) 600 platform).0 ≡ ok tt
unfolding delete_base require get_kb
deletion = refl

delete_base-IsClosed_example :
    IsClosed 1 50 (delete_base context 50 (λ key. true) 600 platform).1.library
delete_base-IsClosed_example = delete_base-IsClosed context 50 (λ key. true) 600 platform deletion
