-- ===== src/Identity/Repository.antt =====
-- repositories/identity.py: each method is the statement that it issues, on the tables as lists.
use tenant_intelligence_plat.Base.{
  ℕ, String, Bool, true, false, ◌&&◌, Option, none, some, List, [], ◌∷◌, ◌++◌, map, ◌==◌, str_eq,
  leb, if◌then◌else◌, any, take, drop, length, select, scalar, update_where, delete_where, join,
  str_leb, sort_by,
}
use tenant_intelligence_plat.Identity.Models.{
  Uuid, is_active, Tenant, User, Role, UserRole, RefreshToken, Store, administrator_role_name,
}

unfoldable pub get_tenant_by_code : String → Store → Option Tenant
get_tenant_by_code code db = scalar (λ t. str_eq t.code code) db.tenants

unfoldable pub get_user_by_email : Uuid → String → Store → Option User
get_user_by_email tenant_id email db =
    scalar (λ u. u.tenant_id == tenant_id && str_eq u.email email) db.users

unfoldable pub get_user : Uuid → Uuid → Store → Option User
get_user tenant_id user_id db = scalar (λ u. u.tenant_id == tenant_id && u.id == user_id) db.users

-- one row of the join of users and tenants
unfoldable pub get_identity : Uuid → Uuid → Store → Option (User × Tenant)
get_identity user_id tenant_id db =
    scalar (λ row. row.0.id == user_id && row.0.tenant_id == tenant_id)
      (join db.users (λ u. map (λ t. (u, t)) (select (λ t. t.id == u.tenant_id) db.tenants)))

abbrev pub name_leb : Role → Role → Bool
name_leb a b = str_leb a.name b.name

-- the roles that one assignment joins to
abbrev pub assigned_roles : UserRole → Store → List Role
assigned_roles a db = select (λ r. a.role_id == r.id && a.tenant_id == r.tenant_id) db.roles

unfoldable pub get_roles_for_user : Uuid → Uuid → Store → List Role
get_roles_for_user user_id tenant_id db = sort_by name_leb (
    join (select (λ a. a.user_id == user_id && a.tenant_id == tenant_id) db.user_roles)
      (λ a. assigned_roles a db))

unfoldable pub get_role : Uuid → Uuid → Store → Option Role
get_role tenant_id role_id db = scalar (λ r. r.tenant_id == tenant_id && r.id == role_id) db.roles

unfoldable pub get_role_by_name : Uuid → String → Store → Option Role
get_role_by_name tenant_id name db =
    scalar (λ r. r.tenant_id == tenant_id && str_eq r.name name) db.roles

-- `column.in_(ids)`
abbrev pub is_in : List Uuid → Uuid → Bool
is_in ids id = any (λ i. i == id) ids

-- The early return on no identifiers gives what the query gives.
unfoldable pub get_roles_by_ids : Uuid → List Uuid → Store → List Role
get_roles_by_ids tenant_id [] db = []
get_roles_by_ids tenant_id (i ∷ ids) db =
    select (λ r. r.tenant_id == tenant_id && is_in (i ∷ ids) r.id) db.roles

role_order : Role → Role → Bool
role_order a b = if str_eq a.name b.name then leb a.id b.id else str_leb a.name b.name

-- a page of the roles by name, and the number of all of them
unfoldable pub list_roles : Uuid → ℕ → ℕ → Store → List Role × ℕ
unfolding role_order
list_roles tenant_id offset limit db =
    let rows = select (λ (r : Role). r.tenant_id == tenant_id) db.roles in
    (take limit (drop offset (sort_by role_order rows)), length rows)

unfoldable pub replace_user_roles : Uuid → Uuid → List Uuid → Store → Store
replace_user_roles user_id tenant_id role_ids db = record db {
  user_roles =
      delete_where (λ a. a.user_id == user_id && a.tenant_id == tenant_id) db.user_roles
      ++ map (λ i. record { user_id = user_id; role_id = i; tenant_id = tenant_id }) role_ids;
}

-- the rows of the two joins of one user: the administrator roles that the user is assigned
abbrev pub administrator_rows : Store → User → List Uuid
administrator_rows db u =
    join (select (λ a. a.user_id == u.id && a.tenant_id == u.tenant_id) db.user_roles) (λ a.
      map (λ _. u.id)
        (select
          (λ r.
            (r.id == a.role_id && r.tenant_id == a.tenant_id)
            && str_eq r.name administrator_role_name)
          db.roles))

abbrev pub is_candidate : Uuid → User → Bool
is_candidate tenant_id u = u.tenant_id == tenant_id && (is_active u.status && u.is_tenant_admin)

unfoldable pub active_administrator_ids : Uuid → Store → List Uuid
active_administrator_ids tenant_id db =
    sort_by leb (join (select (is_candidate tenant_id) db.users) (administrator_rows db))

unfoldable pub get_refresh_token : Uuid → Store → Option RefreshToken
get_refresh_token jti db = scalar (λ t. t.jti == jti) db.refresh_tokens

abbrev pub is_live : RefreshToken → Bool
is_live t = elim t.revoked_at [ none ↦ true | some _ ↦ false ]

unfoldable pub revoke_refresh_family : Uuid → ℕ → Store → Store
revoke_refresh_family family_id revoked_at db = record db {
  refresh_tokens =
      update_where (λ t. t.family_id == family_id && is_live t)
        (λ t. record t { revoked_at = some revoked_at }) db.refresh_tokens;
}
