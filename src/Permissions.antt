-- ===== src/Permissions.antt =====
-- Table and column permissions: models/permission.py, models/database_schema.py,
-- repositories/permissions.py, services/permission_service.py, services/database/row_filter.py and
-- services/database/permission_resolver.py.
pub mod Dsl
pub mod Models
pub mod RowFilter
pub mod Compiler
pub mod Repository
pub mod Constraints
pub mod Resolver
pub mod Service
pub mod Requests
pub mod Masking
pub mod AllowedSchema
