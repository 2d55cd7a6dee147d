-- ===== src/Identity/Constraints.antt =====
-- The constraints of the identity tables, which a flush or a commit enforces.
use tenant_intelligence_plat.Base.{Bool, ◌&&◌, none, some, true, ◌==◌, str_eq, any, all, unique_by}
use tenant_intelligence_plat.Identity.Models.{
  TextOps, Tenant, User, Role, UserRole, RefreshToken, Store, is_normalized,
}

-- primary keys and unique constraints
abbrev pub same_tenant_id : Tenant → Tenant → Bool
same_tenant_id a b = a.id == b.id

abbrev pub same_tenant_code : Tenant → Tenant → Bool
same_tenant_code a b = str_eq a.code b.code

abbrev pub same_user_id : User → User → Bool
same_user_id a b = a.id == b.id

abbrev pub same_tenant_email : User → User → Bool
same_tenant_email a b = a.tenant_id == b.tenant_id && str_eq a.email b.email

abbrev pub same_role_id : Role → Role → Bool
same_role_id a b = a.id == b.id

abbrev pub same_tenant_name : Role → Role → Bool
same_tenant_name a b = a.tenant_id == b.tenant_id && str_eq a.name b.name

abbrev pub same_assignment : UserRole → UserRole → Bool
same_assignment a b = a.user_id == b.user_id && a.role_id == b.role_id

abbrev pub same_jti : RefreshToken → RefreshToken → Bool
same_jti a b = a.jti == b.jti

abbrev pub same_token_hash : RefreshToken → RefreshToken → Bool
same_token_hash a b = str_eq a.token_hash b.token_hash

-- foreign keys
abbrev pub assignment_refers : Store → UserRole → Bool
assignment_refers db a =
    any (λ u. u.id == a.user_id && u.tenant_id == a.tenant_id) db.users
    && any (λ r. r.id == a.role_id && r.tenant_id == a.tenant_id) db.roles

abbrev pub token_refers : Store → RefreshToken → Bool
token_refers db t = any (λ u. u.id == t.user_id && u.tenant_id == t.tenant_id) db.users

abbrev pub replacement_refers : Store → RefreshToken → Bool
replacement_refers db t = elim t.replaced_by_jti [
  | none ↦ true
  | some j ↦ any (λ s. s.jti == j) db.refresh_tokens
]

unfoldable pub users_hold : TextOps → Store → Bool
users_hold text db =
    unique_by same_user_id db.users
    && (unique_by same_tenant_email db.users
        && (all (λ u. any (λ t. t.id == u.tenant_id) db.tenants) db.users
            && all (λ u. is_normalized text u.email) db.users))

unfoldable pub roles_hold : TextOps → Store → Bool
roles_hold text db =
    unique_by same_role_id db.roles
    && (unique_by same_tenant_name db.roles
        && (all (λ r. any (λ t. t.id == r.tenant_id) db.tenants) db.roles
            && all (λ r. is_normalized text r.name) db.roles))

unfoldable pub assignments_hold : Store → Bool
assignments_hold db =
    unique_by same_assignment db.user_roles && all (assignment_refers db) db.user_roles

unfoldable pub tokens_hold : Store → Bool
tokens_hold db =
    unique_by same_jti db.refresh_tokens
    && (unique_by same_token_hash db.refresh_tokens
        && (all (token_refers db) db.refresh_tokens
            && all (replacement_refers db) db.refresh_tokens))

unfoldable pub tenants_hold : TextOps → Store → Bool
tenants_hold text db =
    unique_by same_tenant_id db.tenants
    && (unique_by same_tenant_code db.tenants && all (λ t. is_normalized text t.code) db.tenants)

-- every constraint of the identity tables
unfoldable pub constraints_hold : TextOps → Store → Bool
constraints_hold text db =
    tenants_hold text db
    && (users_hold text db && (roles_hold text db && (assignments_hold db && tokens_hold db)))
