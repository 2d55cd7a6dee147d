-- ===== src/Identity.antt =====
-- Tenants, users, roles and refresh sessions: models/tenant.py, models/user.py, models/role.py,
-- models/refresh_token.py and repositories/identity.py.
pub mod Models
pub mod Repository
pub mod Constraints
