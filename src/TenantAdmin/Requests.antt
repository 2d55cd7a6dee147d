-- ===== src/TenantAdmin/Requests.antt =====
-- api/routes/users.py and api/routes/roles.py: the requests of tenant administrators that change
-- the store, of any tenants and in any order.
use tenant_intelligence_plat.Base.{
  ℕ, String, true, ◌&&◌, ◌≡◌, Option, none, some, List, [], ◌∷◌, ◌==◌, length, sort_by, inl, inr,
  Bool-cases, ℕ,
}
use tenant_intelligence_plat.Errors.{resource_not_found, conflict, final_administrator, integrity}
use tenant_intelligence_plat.Exec.{Exec, commit, ◌>>=◌}
use tenant_intelligence_plat.Exec.Leaves.{leaves-raise_if, leaves-or_raise, leaves-commit}
use tenant_intelligence_plat.Identity.Models.{
  Uuid, TextOps, EntityStatus, is_active, User, Role, Store,
}
use tenant_intelligence_plat.Identity.Repository.{
  name_leb, get_user, get_roles_by_ids, get_roles_for_user, replace_user_roles,
}
use tenant_intelligence_plat.Identity.Constraints.{constraints_hold}
use tenant_intelligence_plat.TenantAdmin.{
  UserResponse, user_response, role_response, new_user, new_role, insert_user, insert_role,
  apply_update, set_user, create_user, create_role, requested_roles, removes_final, assign_roles,
  update_user, has_administrator_role, replace_if_given,
}

pub data Request : Type 0 where
  create_user_request :
      Uuid → Uuid → ℕ → String → String → Option String → EntityStatus → List Uuid → Request
  create_role_request : Uuid → Uuid → ℕ → String → Option String → Request
  assign_roles_request : Uuid → Uuid → List Uuid → Request
  update_user_request : Uuid → Uuid → Option String → EntityStatus → Option (List Uuid) → Request

-- The store after a request; the first identifier is the tenant of the verified context.
unfoldable pub serve : TextOps → Request → Store → Store
serve text (create_user_request tenant id now hash email name status roles) db =
    (create_user text tenant id now hash email name status roles db).1
serve text (create_role_request tenant id now name description) db =
    (create_role text tenant id now name description db).1
serve text (assign_roles_request tenant user_id roles) db =
    (assign_roles text tenant user_id roles db).1
serve text (update_user_request tenant user_id name status roles) db =
    (update_user text tenant user_id name status roles db).1

unfoldable pub serve_all : TextOps → List Request → Store → Store
serve_all text [] db = db
serve_all text (r ∷ rs) db = serve_all text rs (serve text r db)

module _ (P : Store → Type 0) (text : TextOps) (tenant_id : Uuid) (db : Store) (here : P db) where
  leaves-requested :
      (ids : List Uuid) (k : List Role → Exec Store UserResponse)
      → P (k (get_roles_by_ids tenant_id ids db) db).1
      → P ((requested_roles text tenant_id ids >>= k) db).1
  leaves-requested ids k h =
      elim (Bool-cases (length (get_roles_by_ids tenant_id ids db) == length ids)) [
        | inl all ↦ rw all h
        | inr missing ↦ rw missing here
      ]

  -- What holds of the store before a call, and of each change that its commit accepts, holds after.
  pub leaves-assign_roles :
      (user_id : Uuid) (ids : List Uuid)
      → ((user : User) (f : User → User)
          → get_user tenant_id user_id db ≡ some user
          → constraints_hold text
              (replace_if_given text tenant_id user.id (some ids) (set_user user.id f db))
            ≡ true
          → P (replace_if_given text tenant_id user.id (some ids) (set_user user.id f db)))
      → P (assign_roles text tenant_id user_id ids db).1
  unfolding assign_roles
  leaves-assign_roles user_id ids h =
      leaves-or_raise P db here (get_user tenant_id user_id db) resource_not_found _ λ user found.
        let roles = get_roles_by_ids tenant_id ids db in
        let changed : User = record user { is_tenant_admin = has_administrator_role roles } in
        leaves-requested ids _ (
          leaves-raise_if P db here
            (removes_final text tenant_id user.id (has_administrator_role roles) db)
            final_administrator
            (commit (constraints_hold text) resource_not_found
              (λ s. replace_user_roles user.id tenant_id ids (set_user user.id (λ _. changed) s))
              (user_response changed (sort_by name_leb roles)))
            λ _.
              leaves-commit P db here (constraints_hold text) resource_not_found
                (λ s. replace_user_roles user.id tenant_id ids (set_user user.id (λ _. changed) s))
                (user_response changed (sort_by name_leb roles)) (h user (λ _. changed) found))

  leaves-apply_update :
      (user : User) (full_name : Option String) (status : EntityStatus) (ids : Option (List Uuid))
      (roles : List Role)
      → ((f : User → User)
          → constraints_hold text
              (replace_if_given text tenant_id user.id ids (set_user user.id f db))
            ≡ true
          → P (replace_if_given text tenant_id user.id ids (set_user user.id f db)))
      → P (apply_update text tenant_id user full_name status ids roles db).1
  leaves-apply_update user full_name status ids roles h =
      let changed : User = record user {
        full_name = full_name;
        status = status;
        is_tenant_admin = has_administrator_role roles;
      } in
      leaves-raise_if P db here
        (removes_final text tenant_id user.id (is_active status && has_administrator_role roles) db)
        final_administrator
        (commit (constraints_hold text) integrity
          (λ s. replace_if_given text tenant_id user.id ids (set_user user.id (λ _. changed) s))
          (user_response changed roles))
        λ _.
          leaves-commit P db here (constraints_hold text) integrity
            (λ s. replace_if_given text tenant_id user.id ids (set_user user.id (λ _. changed) s))
            (user_response changed roles) (h (λ _. changed))

  pub leaves-update_user :
      (user_id : Uuid) (full_name : Option String) (status : EntityStatus)
      (ids : Option (List Uuid))
      → ((user : User) (f : User → User)
          → get_user tenant_id user_id db ≡ some user
          → constraints_hold text
              (replace_if_given text tenant_id user.id ids (set_user user.id f db))
            ≡ true
          → P (replace_if_given text tenant_id user.id ids (set_user user.id f db)))
      → P (update_user text tenant_id user_id full_name status ids db).1
  unfolding update_user
  leaves-update_user user_id full_name status none h =
      leaves-or_raise P db here (get_user tenant_id user_id db) resource_not_found _ λ user found.
        leaves-apply_update user full_name status none (get_roles_for_user user.id tenant_id db)
          λ f. h user f found
  leaves-update_user user_id full_name status (some ids) h =
      leaves-or_raise P db here (get_user tenant_id user_id db) resource_not_found _ λ user found.
        leaves-requested ids _ (
          leaves-apply_update user full_name status (some ids) (get_roles_by_ids tenant_id ids db)
            λ f. h user f found)

  pub leaves-create_user :
      (id now : Uuid) (hash email : String) (name : Option String) (status : EntityStatus)
      (ids : List Uuid)
      → ((user : User)
          → constraints_hold text (insert_user text tenant_id user ids db) ≡ true
          → P (insert_user text tenant_id user ids db))
      → P (create_user text tenant_id id now hash email name status ids db).1
  unfolding create_user
  leaves-create_user id now hash email name status ids h =
      let roles = get_roles_by_ids tenant_id ids db in
      let user = new_user text tenant_id id now hash email name status roles in
      leaves-requested ids _ (
        leaves-commit P db here (constraints_hold text) conflict
          (insert_user text tenant_id user ids) (user_response user (sort_by name_leb roles))
          (h user))

  pub leaves-create_role :
      (id now : Uuid) (name : String) (description : Option String)
      → ((role : Role)
          → constraints_hold text (insert_role text tenant_id role db) ≡ true
          → P (insert_role text tenant_id role db))
      → P (create_role text tenant_id id now name description db).1
  unfolding create_role
  leaves-create_role id now name description h =
      let role = new_role text tenant_id id now name description in
      leaves-commit P db here (constraints_hold text) conflict (insert_role text tenant_id role)
        (role_response role) (h role)
