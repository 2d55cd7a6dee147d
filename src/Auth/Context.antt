-- ===== src/Auth/Context.antt =====
-- core/tenant_context.py: who a request acts for, from its access token and the database alone.
use tenant_intelligence_plat.Base.{
  ℕ, String, Bool, ◌&&◌, Option, none, some, List, ◌==◌, str_eq, if◌then◌else◌, any,
}
use tenant_intelligence_plat.Errors.{authentication, administrator_required}
use tenant_intelligence_plat.Exec.{Result, ok, err}
use tenant_intelligence_plat.Identity.Models.{
  is_active, Tenant, User, Role, Store, administrator_role_name,
}
use tenant_intelligence_plat.Identity.Repository.{get_identity, get_roles_for_user}
use tenant_intelligence_plat.Auth.Security.{Crypto, access, TokenClaims, decode_token}

pub record TenantContext : Type 0 where
  pub user : User
  pub tenant : Tenant
  pub roles : List Role

abbrev pub is_tenant_admin : TenantContext → Bool
is_tenant_admin context =
    context.user.is_tenant_admin && any (λ r. str_eq r.name administrator_role_name) context.roles

abbrev pub admitted : Store → Option (User × Tenant) → Result TenantContext
admitted db none = err authentication
admitted db (some (user, tenant)) =
    if is_active user.status && (is_active tenant.status && user.tenant_id == tenant.id)
    then ok
        (record { user = user; tenant = tenant; roles = get_roles_for_user user.id tenant.id db })
    else err authentication

abbrev pub context_of : Store → Result TokenClaims → Result TenantContext
context_of db (err e) = err authentication
context_of db (ok claims) = admitted db (get_identity claims.user_id claims.tenant_id db)

-- the token of the `Authorization` header, if there is one
unfoldable pub get_tenant_context : Crypto → ℕ → Option String → Store → Result TenantContext
get_tenant_context c now none db = err authentication
get_tenant_context c now (some token) db = context_of db (decode_token c access now token)

unfoldable pub require_tenant_admin : TenantContext → Result TenantContext
require_tenant_admin context =
    if is_tenant_admin context then ok context else err administrator_required
