-- ===== src/Auth.antt =====
-- Login, refresh-token rotation and the tenant context: core/security.py, services/auth_service.py
-- and core/tenant_context.py.
pub mod Security
pub mod Service
pub mod Context
pub mod RoundTrip
pub mod Verified
pub mod Families
pub mod Rotation
