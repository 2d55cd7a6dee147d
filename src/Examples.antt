-- ===== src/Examples.antt =====
-- Concrete stores, tokens and documents, at which the theorems are applied.
mod Tokens
mod Identities
mod Catalogs
mod Ingestions
mod Rows
mod Statements
mod Filters
mod Calls
mod Searches
