-- ===== src/Errors.antt =====
-- app/exceptions.py: the errors that the services raise, and the response that each becomes.
use tenant_intelligence_plat.Base.{ℕ, String, Option, none, some}

-- The subclasses of `ApplicationError`, and the exceptions that the handlers do not name.
pub data Error : Type 0 where
  authentication authorization administrator_required resource_not_found conflict : Error
  final_administrator invalid_permission invalid_row_filter query_rejected : Error
  -- `IntegrityError` of SQLAlchemy, where a service does not catch it
  integrity : Error
  -- any other exception
  unexpected : Error

-- `status_code` of each class, 500 for what only the last handler catches
unfoldable pub status_code : Error → ℕ
status_code authentication = 401
status_code authorization = 403
status_code administrator_required = 403
status_code resource_not_found = 404
status_code conflict = 409
status_code final_administrator = 409
status_code invalid_permission = 400
status_code invalid_row_filter = 400
status_code query_rejected = 400
status_code integrity = 500
status_code unexpected = 500

unfoldable pub detail : Error → String
detail authentication = "Invalid credentials"
detail authorization = "Insufficient permissions"
detail administrator_required = "Administrator access required"
detail resource_not_found = "Resource not found"
detail conflict = "Resource already exists"
detail final_administrator = "At least one active Administrator must remain"
detail invalid_permission = "Invalid permission"
detail invalid_row_filter = "Invalid row filter"
detail query_rejected = "Query rejected"
detail integrity = "Internal server error"
detail unexpected = "Internal server error"

unfoldable pub error_code : Error → Option String
error_code administrator_required = some "ADMINISTRATOR_REQUIRED"
error_code final_administrator = some "FINAL_ACTIVE_ADMINISTRATOR_REQUIRED"
error_code _ = none
