-- ===== src/Documents.antt =====
-- Document ingestion: services/documents, workers/document_tasks.py and models/document.py.
pub mod Chunker
pub mod Models
pub mod Policy
pub mod Access
pub mod Files
pub mod Uploads
pub mod Bases
pub mod Attempt
pub mod Worker
pub mod Retrieval
