-- ===== src/Documents/Worker/Attempts.antt =====
-- workers/document_tasks.py: `_process` and `process_document`, whose transactions follow one
-- another with no other in between.
use tenant_intelligence_plat.Base.{
  ℕ, String, Bool, true, false, Option, none, some, leb, if◌then◌else◌,
}
use tenant_intelligence_plat.Identity.Models.{Uuid}
use tenant_intelligence_plat.Documents.Chunker.{ChunkText}
use tenant_intelligence_plat.Documents.Models.{StoredFile, Library}
use tenant_intelligence_plat.Documents.Attempt.{
  Raised, validation, retryable, Prepared, prepared, raised, WorkerSettings, Attempt, Ingestion,
  error_text, prepare,
}
use tenant_intelligence_plat.Documents.Worker.{begin, publish, mark_failed, mark_retry_pending}

abbrev pub max_retries : ℕ
max_retries = 2

module _ (tenant_id file_id : Uuid) (version : ℕ) where
  -- the handlers of `_process`: the code that it raises with, if it does, and the store
  abbrev pub handle : Raised → Library → Option String × Library
  handle (validation e) db = (none, mark_failed tenant_id file_id version (error_text e) db)
  handle (retryable code) db = (some code, mark_retry_pending tenant_id file_id version db)

  abbrev pub published : Prepared Library → Library → Option String × Library
  published (prepared changed) db = (none, changed)
  published (raised r) db = handle r db

  abbrev pub ingested : StoredFile → ℕ → Prepared Ingestion → Library → Option String × Library
  ingested row now (prepared work) db = published (publish row version work now db) db
  ingested row now (raised r) db = handle r db

  -- `process_document`: an attempt that is the last one fails the file instead of raising
  abbrev pub retried : ℕ → Option String × Library → Bool × Library
  retried retries (none, db) = (false, db)
  retried retries (some code, db) =
      if leb max_retries retries
      then (false, mark_failed tenant_id file_id version code db)
      else (true, db)

module _ (text : ChunkText) (settings : WorkerSettings) where
  abbrev pub process_begun :
      Uuid
      → Uuid
      → ℕ
      → Attempt
      → ℕ
      → Option (Library × StoredFile)
      → Library
      → Option String × Library
  process_begun tenant_id file_id version attempt now none db = (none, db)
  process_begun tenant_id file_id version attempt now (some (begun, row)) db =
      ingested tenant_id file_id version row now (prepare text settings attempt row) begun

  unfoldable pub process : Uuid → Uuid → ℕ → Attempt → ℕ → Library → Option String × Library
  process tenant_id file_id version attempt now db =
      process_begun tenant_id file_id version attempt now (begin tenant_id file_id version now db)
        db

  -- whether the actor raises, for the broker to retry, and the store
  unfoldable pub process_document : Uuid → Uuid → ℕ → Attempt → ℕ → ℕ → Library → Bool × Library
  unfolding process
  process_document tenant_id file_id version attempt now retries db =
      retried tenant_id file_id version retries (process tenant_id file_id version attempt now db)
