-- ===== src/Documents/Models.antt =====
-- models/document.py: the rows of knowledge bases, files and chunks, less the texts and metadata of
-- a file that no operation reads, and the constraints that a new file or new chunks can break.
use tenant_intelligence_plat.Base.{
  ℕ, String, Bool, true, false, ◌&&◌, Option, none, some, List, ◌==◌, str_eq, leb, any, all,
  unique_by,
}
use tenant_intelligence_plat.Identity.Models.{Uuid}
use tenant_intelligence_plat.Permissions.Dsl.{Json}

pub data KbStatus : Type 0 where
  kb_active kb_inactive kb_deleted : KbStatus

abbrev pub is_kb_active : KbStatus → Bool
is_kb_active kb_active = true
is_kb_active _ = false

abbrev pub is_kb_deleted : KbStatus → Bool
is_kb_deleted kb_deleted = true
is_kb_deleted _ = false

pub record KnowledgeBase : Type 0 where
  pub id : Uuid
  pub tenant_id : Uuid
  pub created_by : Uuid
  pub name : String
  pub description : Option String
  pub status : KbStatus

-- `file_processing_status_valid`
pub data ProcessingStatus : Type 0 where
  pending processing ready failed deleting deleted : ProcessingStatus

abbrev pub is_deleted : ProcessingStatus → Bool
is_deleted deleted = true
is_deleted _ = false

abbrev pub is_under_way : ProcessingStatus → Bool
is_under_way pending = true
is_under_way processing = true
is_under_way _ = false

abbrev pub is_settled : ProcessingStatus → Bool
is_settled ready = true
is_settled failed = true
is_settled _ = false

pub record StoredFile : Type 0 where
  pub id : Uuid
  pub tenant_id : Uuid
  pub knowledge_base_id : Uuid
  pub uploaded_by : Uuid
  pub object_key : String
  pub detected_mime_type : String
  pub extension : String
  pub file_size_bytes : ℕ
  pub checksum : String
  pub processing_status : ProcessingStatus
  pub processing_error_code : Option String
  pub processing_error_message : Option String
  pub processing_attempts : ℕ
  pub page_count : Option ℕ
  pub extracted_text_length : Option ℕ
  pub chunk_count : ℕ
  pub ingestion_version : ℕ
  pub active_ingestion_version : ℕ
  pub processing_started_at : Option ℕ
  pub processed_at : Option ℕ
  pub deleted_at : Option ℕ

-- An embedding is a list of the bits of its numbers.
abbrev pub Vector : Type 0
Vector = List ℕ

pub record DocumentChunk : Type 0 where
  pub tenant_id : Uuid
  pub knowledge_base_id : Uuid
  pub file_id : Uuid
  pub ingestion_version : ℕ
  pub chunk_index : ℕ
  pub content : String
  pub content_hash : String
  pub page_number : Option ℕ
  pub section_title : Option String
  pub sheet_name : Option String
  pub row_start : Option ℕ
  pub row_end : Option ℕ
  pub token_count : ℕ
  pub chunk_metadata : Json
  pub embedding : Vector

-- The document tables.
pub record Library : Type 0 where
  pub knowledge_bases : List KnowledgeBase
  pub files : List StoredFile
  pub chunks : List DocumentChunk

abbrev pub is_live : StoredFile → Bool
is_live f = elim f.deleted_at [ none ↦ true | some t ↦ false ]

abbrev pub same_file_id : StoredFile → StoredFile → Bool
same_file_id a b = a.id == b.id

-- `uq_files_active_checksum`
abbrev pub same_active_checksum : StoredFile → StoredFile → Bool
same_active_checksum a b =
    (is_live a && is_live b)
    && (a.tenant_id == b.tenant_id
        && (a.knowledge_base_id == b.knowledge_base_id && str_eq a.checksum b.checksum))

-- `uq_file_generation_chunk`
abbrev pub same_generation_chunk : DocumentChunk → DocumentChunk → Bool
same_generation_chunk a b =
    a.file_id == b.file_id
    && (a.ingestion_version == b.ingestion_version && a.chunk_index == b.chunk_index)

-- `file_active_ingestion_version_valid` and `file_ingestion_version_positive`
abbrev pub versions_valid : StoredFile → Bool
versions_valid f = leb 1 f.ingestion_version && leb f.active_ingestion_version f.ingestion_version

-- `fk_chunks_file_kb_tenant`
abbrev pub chunk_refers : Library → DocumentChunk → Bool
chunk_refers db c =
    any
      (λ f.
        f.id == c.file_id
        && (f.tenant_id == c.tenant_id && f.knowledge_base_id == c.knowledge_base_id))
      db.files

unfoldable pub documents_hold : Library → Bool
documents_hold db =
    unique_by same_file_id db.files
    && (unique_by same_active_checksum db.files
        && (all versions_valid db.files
            && (unique_by same_generation_chunk db.chunks && all (chunk_refers db) db.chunks)))
