-- ===== src/Queries.antt =====
-- The safe query pipeline: services/database/column_lineage.py, query_validator.py,
-- query_rewriter.py and query_executor.py, over an interface to SQLGlot.
pub mod SqlGlot
pub mod Lineage
pub mod Validator
pub mod Rewriter
pub mod Executor
