-- ===== src/TenantAdmin/Final.antt =====
-- services/tenant_admin_service.py: a tenant keeps an active administrator.
use tenant_intelligence_plat.Base.{
  Bool, true, ◌&&◌, ◌≡◌, ◌≢◌, refl, inl, inr, Option, none, some, List, arith, String, ◌==◌, length,
  Has, sort_by, scalar-Has, scalar-holds, Bool-cases, unique_by-eq,
}
use tenant_intelligence_plat.Errors.{Error, resource_not_found, final_administrator, integrity}
use tenant_intelligence_plat.Exec.{Exec, raise_if, commit, ◌>>=◌, ◌>>◌}
use tenant_intelligence_plat.Exec.Leaves.{leaves-raise_if, leaves-or_raise, leaves-commit}
use tenant_intelligence_plat.Identity.Models.{
  Uuid, TextOps, EntityStatus, is_active, User, Role, Store,
}
use tenant_intelligence_plat.Identity.Repository.{
  get_user, get_roles_for_user, get_roles_by_ids, replace_user_roles, active_administrator_ids,
  name_leb,
}
use tenant_intelligence_plat.Identity.Constraints.{same_user_id, users_hold, constraints_hold}
use tenant_intelligence_plat.TenantAdmin.{
  set_user, has_administrator_role, UserResponse, user_response, replace_if_given, requested_roles,
  removes_final, assign_roles, update_user,
}
use tenant_intelligence_plat.TenantAdmin.Administrators.{
  Administers, Has-Administers, Administers-Has, Administers-replace_ne, Administers-set_ne,
}
use tenant_intelligence_plat.TenantAdmin.Survivors.{
  HasAdministrator, survivor, replaced-HasAdministrator, kept-HasAdministrator,
}

module _ (text : TextOps) (tenant_id : Uuid) (db : Store) (holds : constraints_hold text db ≡ true)
    (i : Uuid) (before : Has i (active_administrator_ids tenant_id db)) where
  abbrev Kept : Store → Type 0
  Kept = HasAdministrator tenant_id

  leaves-requested_roles :
      (ids : List Uuid) (k : List Role → Exec Store UserResponse)
      → Kept (k (get_roles_by_ids tenant_id ids db) db).1
      → Kept ((requested_roles text tenant_id ids >>= k) db).1
  leaves-requested_roles ids k h =
      elim (Bool-cases (length (get_roles_by_ids tenant_id ids db) == length ids)) [
        | inl all ↦ rw all h
        | inr missing ↦ rw missing (i, before)
      ]

  -- the guard and the commit that both updates end in
  leaves-guarded :
      (uid : Uuid) (stays : Bool) (e : Error) (change : Store → Store) (a : UserResponse)
      → (stays ≡ true → Has uid (active_administrator_ids tenant_id db) → Kept (change db))
      → ((j : Uuid) → Administers tenant_id db j → j ≢ uid → Kept (change db))
      → Kept
          ((raise_if (removes_final text tenant_id uid stays db) final_administrator
              >> commit (constraints_hold text) e change a)
            db).1
  leaves-guarded uid stays e change a stay other =
      leaves-raise_if Kept db (i, before) (removes_final text tenant_id uid stays db)
        final_administrator (commit (constraints_hold text) e change a)
        λ guard.
          leaves-commit Kept db (i, before) (constraints_hold text) e change a
            λ _. survivor text tenant_id db holds uid stays i guard before stay other

  -- the row that `get_user` finds
  found_user :
      (user_id : Uuid) (user : User)
      → get_user tenant_id user_id db ≡ some user
      → Has user db.users × ((user.tenant_id == tenant_id && user.id == user_id) ≡ true)
  unfolding get_user
  found_user user_id user found =
      (scalar-Has _ user db.users found, scalar-holds _ db.users user found)

  other_than :
      (uid : Uuid) (f : User → User) (role_ids : Option (List Uuid)) (j : Uuid)
      → Administers tenant_id db j
      → j ≢ uid
      → Kept (replace_if_given text tenant_id uid role_ids (set_user uid f db))
  other_than uid f none j h ne =
      (j, Administers-Has tenant_id _ j (Administers-set_ne tenant_id db uid f j h ne))
  other_than uid f (some ids) j h ne = (
    j,
    Administers-Has tenant_id _ j (Administers-replace_ne tenant_id db uid tenant_id f ids j h ne),
  )

  still_active :
      (user : User)
      → Has user db.users
      → Has user.id (active_administrator_ids tenant_id db)
      → is_active user.status ≡ true
  still_active user listed h =
      let a = Has-Administers tenant_id db user.id h in
      let e =
        unique_by-eq same_user_id (λ x y k. ground arith) user a.user db.users
          (unfold constraints_hold users_hold in ground arith) listed a.listed
          (ground (arith, a.is_id)) in
      rw e (ground (arith, a.candidate))

  -- A role assignment leaves the tenant an active administrator.
  pub assign_roles-HasAdministrator :
      (user_id : Uuid) (role_ids : List Uuid)
      → HasAdministrator tenant_id (assign_roles text tenant_id user_id role_ids db).1
  unfolding assign_roles
  assign_roles-HasAdministrator user_id role_ids =
      leaves-or_raise Kept db (i, before) (get_user tenant_id user_id db) resource_not_found _
        λ user found.
          let roles = get_roles_by_ids tenant_id role_ids db in
          let changed : User = record user { is_tenant_admin = has_administrator_role roles } in
          let (listed, of) = found_user user_id user found in
          leaves-requested_roles role_ids _ (
            leaves-guarded user.id (has_administrator_role roles) resource_not_found
              (λ s.
                replace_user_roles user.id tenant_id role_ids (set_user user.id (λ _. changed) s))
              (user_response changed (sort_by name_leb roles))
              (λ stays h.
                replaced-HasAdministrator tenant_id db user changed listed refl
                  (ground (arith, of, stays, still_active user listed h)) role_ids stays)
              (other_than user.id (λ _. changed) (some role_ids)))

  -- So does an update of the user's name, status and roles.
  pub update_user-HasAdministrator :
      (user_id : Uuid) (full_name : Option String) (status : EntityStatus)
      (role_ids : Option (List Uuid))
      → HasAdministrator tenant_id
          (update_user text tenant_id user_id full_name status role_ids db).1
  unfolding update_user
  update_user-HasAdministrator user_id full_name status none =
      leaves-or_raise Kept db (i, before) (get_user tenant_id user_id db) resource_not_found _
        λ user found.
          let roles = get_roles_for_user user.id tenant_id db in
          let changed : User = record user {
            full_name = full_name;
            status = status;
            is_tenant_admin = has_administrator_role roles;
          } in
          let (listed, of) = found_user user_id user found in
          leaves-guarded user.id (is_active status && has_administrator_role roles) integrity
            (λ s. set_user user.id (λ _. changed) s) (user_response changed roles)
            (λ stays h.
              kept-HasAdministrator tenant_id db user changed listed refl (ground (arith, of))
                (ground arith))
            (other_than user.id (λ _. changed) none)
  update_user-HasAdministrator user_id full_name status (some role_ids) =
      leaves-or_raise Kept db (i, before) (get_user tenant_id user_id db) resource_not_found _
        λ user found.
          let roles = get_roles_by_ids tenant_id role_ids db in
          let changed : User = record user {
            full_name = full_name;
            status = status;
            is_tenant_admin = has_administrator_role roles;
          } in
          let (listed, of) = found_user user_id user found in
          leaves-requested_roles role_ids _ (
            leaves-guarded user.id (is_active status && has_administrator_role roles) integrity
              (λ s.
                replace_user_roles user.id tenant_id role_ids (set_user user.id (λ _. changed) s))
              (user_response changed roles)
              (λ stays h.
                replaced-HasAdministrator tenant_id db user changed listed refl (ground (arith, of))
                  role_ids (ground arith))
              (other_than user.id (λ _. changed) (some role_ids)))
