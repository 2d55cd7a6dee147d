-- ===== src/TenantAdmin.antt =====
-- services/tenant_admin_service.py: the workflows of a tenant administrator, each a call on the
-- identity store. `commit` enforces the constraints; the new identifier, the clock and the
-- password's hash are arguments.
pub mod Administrators
pub mod Survivors
pub mod Final
pub mod Requests
pub mod Survival
use tenant_intelligence_plat.Base.{
  ℕ, ◌-◌, ◌*◌, String, Bool, not, ◌&&◌, Option, none, some, List, [], ◌∷◌, ◌++◌, map, ◌==◌, str_eq,
  if◌then◌else◌, any, length, update_where, sort_by,
}
use tenant_intelligence_plat.Errors.{resource_not_found, conflict, final_administrator, integrity}
use tenant_intelligence_plat.Exec.{Exec, pure, gets, or_raise, raise_if, commit, ◌>>=◌, ◌>>◌}
use tenant_intelligence_plat.Identity.Models.{
  Uuid, TextOps, EntityStatus, is_active, User, Role, Store, administrator_role_name,
  normalize_email, normalize_role_name,
}
use tenant_intelligence_plat.Identity.Repository.{
  name_leb, is_in, get_user, get_roles_for_user, get_roles_by_ids, list_roles, replace_user_roles,
  active_administrator_ids,
}
use tenant_intelligence_plat.Identity.Constraints.{constraints_hold}

pub record RoleSummary : Type 0 where
  pub id : Uuid
  pub name : String
  pub description : Option String

pub record RoleResponse : Type 0 where
  pub id : Uuid
  pub name : String
  pub description : Option String
  pub created_at : ℕ

pub record UserResponse : Type 0 where
  pub id : Uuid
  pub email : String
  pub full_name : Option String
  pub status : EntityStatus
  pub is_tenant_admin : Bool
  pub roles : List RoleSummary
  pub created_at : ℕ

abbrev pub role_summary : Role → RoleSummary
role_summary role = record { id = role.id; name = role.name; description = role.description }

abbrev pub role_response : Role → RoleResponse
role_response role = record {
  id = role.id;
  name = role.name;
  description = role.description;
  created_at = role.created_at;
}

abbrev pub user_response : User → List Role → UserResponse
user_response user roles = record {
  id = user.id;
  email = user.email;
  full_name = user.full_name;
  status = user.status;
  is_tenant_admin = user.is_tenant_admin;
  roles = map role_summary roles;
  created_at = user.created_at;
}

abbrev pub has_administrator_role : List Role → Bool
has_administrator_role roles = any (λ r. str_eq r.name administrator_role_name) roles

-- `value.strip() if value else None`
pub strip_optional : TextOps → Option String → Option String
strip_optional text none = none
strip_optional text (some value) = if str_eq value "" then none else some (text.strip value)

abbrev pub set_user : Uuid → (User → User) → Store → Store
set_user id f db = record db { users = update_where (λ u. u.id == id) f db.users }

module _ (text : TextOps) (tenant_id : Uuid) where
  -- `roles` of a request: each identifier names a role of the tenant, and none is given twice
  abbrev pub requested_roles : List Uuid → Exec Store (List Role)
  requested_roles role_ids = do
    roles ← gets (get_roles_by_ids tenant_id role_ids)
    raise_if (not (length roles == length role_ids)) resource_not_found
    pure roles

  -- The model's validator normalises the email a second time.
  abbrev pub new_user : Uuid → ℕ → String → String → Option String → EntityStatus → List Role → User
  new_user new_id now password_hash email full_name status roles = record {
    id = new_id;
    tenant_id = tenant_id;
    email = normalize_email text (normalize_email text email);
    full_name = strip_optional text full_name;
    password_hash = password_hash;
    status = status;
    is_tenant_admin = has_administrator_role roles;
    created_at = now;
  }

  abbrev pub new_role : Uuid → ℕ → String → Option String → Role
  new_role new_id now name description = record {
    id = new_id;
    tenant_id = tenant_id;
    name = normalize_role_name text (normalize_role_name text name);
    description = strip_optional text description;
    created_at = now;
  }

  abbrev pub insert_user : User → List Uuid → Store → Store
  insert_user user role_ids db =
      replace_user_roles user.id tenant_id role_ids (record db { users = db.users ++ user ∷ [] })

  abbrev pub insert_role : Role → Store → Store
  insert_role role db = record db { roles = db.roles ++ role ∷ [] }

  pub create_user :
      Uuid
      → ℕ
      → String
      → String
      → Option String
      → EntityStatus
      → List Uuid
      → Exec Store UserResponse
  create_user new_id now password_hash email full_name status role_ids = do
    roles ← requested_roles role_ids
    let user = new_user new_id now password_hash email full_name status roles
    commit (constraints_hold text) conflict (insert_user user role_ids)
        (user_response user (sort_by name_leb roles))

  pub create_role : Uuid → ℕ → String → Option String → Exec Store RoleResponse
  create_role new_id now name description = do
    let role = new_role new_id now name description
    commit (constraints_hold text) conflict (insert_role role) (role_response role)

  pub list_roles_page : ℕ → ℕ → Exec Store (List RoleResponse × ℕ)
  list_roles_page page page_size = do
    listed ← gets (list_roles tenant_id ((page - 1) * page_size) page_size)
    pure (map role_response listed.0, listed.1)

  -- The guard of both updates: the call would leave the tenant without an active administrator.
  abbrev pub removes_final : Uuid → Bool → Store → Bool
  removes_final user_id stays db =
      let ids = active_administrator_ids tenant_id db in
      is_in ids user_id && (not stays && length ids == 1)

  pub assign_roles : Uuid → List Uuid → Exec Store UserResponse
  assign_roles user_id role_ids = do
    found ← gets (get_user tenant_id user_id)
    user ← or_raise found resource_not_found
    roles ← requested_roles role_ids
    let remains_administrator = has_administrator_role roles
    final ← gets (removes_final user.id remains_administrator)
    raise_if final final_administrator
    let changed : User = record user { is_tenant_admin = remains_administrator }
    commit (constraints_hold text) resource_not_found
        (λ db. replace_user_roles user.id tenant_id role_ids (set_user user.id (λ _. changed) db))
        (user_response changed (sort_by name_leb roles))

  -- the roles that `update_user` decides by: those requested, or else the present ones
  abbrev pub updated_roles : User → Option (List Uuid) → Exec Store (List Role)
  updated_roles user none = gets (get_roles_for_user user.id tenant_id)
  updated_roles user (some role_ids) = requested_roles role_ids

  abbrev pub replace_if_given : Uuid → Option (List Uuid) → Store → Store
  replace_if_given user_id none db = db
  replace_if_given user_id (some role_ids) db = replace_user_roles user_id tenant_id role_ids db

  -- `update_user` from the guard on
  abbrev pub apply_update :
      User → Option String → EntityStatus → Option (List Uuid) → List Role → Exec Store UserResponse
  apply_update user full_name status role_ids roles = do
    final ← gets (removes_final user.id (is_active status && has_administrator_role roles))
    raise_if final final_administrator
    let changed : User = record user {
      full_name = full_name;
      status = status;
      is_tenant_admin = has_administrator_role roles;
    }
    commit (constraints_hold text) integrity
        (λ db. replace_if_given user.id role_ids (set_user user.id (λ _. changed) db))
        (user_response changed roles)

  pub update_user :
      Uuid → Option String → EntityStatus → Option (List Uuid) → Exec Store UserResponse
  update_user user_id full_name status role_ids = do
    found ← gets (get_user tenant_id user_id)
    user ← or_raise found resource_not_found
    roles ← updated_roles user role_ids
    apply_update user full_name status role_ids roles
