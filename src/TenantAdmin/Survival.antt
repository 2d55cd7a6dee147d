-- ===== src/TenantAdmin/Survival.antt =====
-- services/tenant_admin_service.py: whatever administrators of any tenants request, in any order,
-- every tenant keeps an active administrator.
use native.Mathlib.Decide.{ℕ_discrete}
use tenant_intelligence_plat.Base.{
  ap, unique_by-append, true, false, ◌≡◌, ◌≢◌, Option, none, some, List, [], ◌∷◌, arith,
  unique_by-eq, Has-append_left, delete_where-Has, scalar-Has, scalar-holds,
}
use tenant_intelligence_plat.Identity.Models.{Uuid, TextOps, User, Role, Store}
use tenant_intelligence_plat.Identity.Repository.{get_user, replace_user_roles}
use tenant_intelligence_plat.Identity.Constraints.{same_user_id, users_hold, constraints_hold}
use tenant_intelligence_plat.TenantAdmin.{insert_user, insert_role, set_user, replace_if_given}
use tenant_intelligence_plat.TenantAdmin.Administrators.{
  Administers, Has-Administers, Administers-Has, Administers-replace_ne, Administers-set_ne,
}
use tenant_intelligence_plat.TenantAdmin.Survivors.{HasAdministrator}
use tenant_intelligence_plat.TenantAdmin.Final.{
  assign_roles-HasAdministrator, update_user-HasAdministrator,
}
use tenant_intelligence_plat.TenantAdmin.Requests.{
  Request, create_user_request, create_role_request, assign_roles_request, update_user_request,
  serve, serve_all, leaves-assign_roles, leaves-update_user, leaves-create_user, leaves-create_role,
}

-- Every request leaves a store that meets the constraints.
serve-constraints_hold :
    (text : TextOps) (r : Request) (db : Store)
    → constraints_hold text db ≡ true
    → constraints_hold text (serve text r db) ≡ true
unfolding serve
serve-constraints_hold text (create_user_request t id now hash email name status ids) db h =
    leaves-create_user (λ s. constraints_hold text s ≡ true) text t db h id now hash email name
      status ids (λ user accepted. accepted)
serve-constraints_hold text (create_role_request t id now name description) db h =
    leaves-create_role (λ s. constraints_hold text s ≡ true) text t db h id now name description
      (λ role accepted. accepted)
serve-constraints_hold text (assign_roles_request t user_id ids) db h =
    leaves-assign_roles (λ s. constraints_hold text s ≡ true) text t db h user_id ids
      (λ user f found accepted. accepted)
serve-constraints_hold text (update_user_request t user_id name status ids) db h =
    leaves-update_user (λ s. constraints_hold text s ≡ true) text t db h user_id name status ids
      (λ user f found accepted. accepted)

module _ (text : TextOps) (db : Store) (holds : constraints_hold text db ≡ true) (t : Uuid)
    (i : Uuid) (a : Administers t db i) where
  -- A new user and its assignments take nothing from an administrator.
  insert_user-Administers :
      (owner : Uuid) (user : User) (ids : List Uuid)
      → constraints_hold text (insert_user text owner user ids db) ≡ true
      → Administers t (insert_user text owner user ids db) i
  unfolding replace_user_roles
  insert_user-Administers owner user ids accepted = record {
    user = a.user;
    listed = Has-append_left a.user db.users _ a.listed;
    candidate = a.candidate;
    assignment = a.assignment;
    assigned = Has-append_left a.assignment _ _ (
        delete_where-Has _ a.assignment db.user_roles a.assigned
          (ground (arith, a.of_user, fresh)));
    of_user = a.of_user;
    role = a.role;
    known = a.known;
    granted = a.granted;
    is_id = a.is_id;
  }
    where
      fresh : same_user_id a.user user ≡ false
      fresh =
          unique_by-append same_user_id a.user user db.users
            (unfold constraints_hold users_hold in ground arith) a.listed

  insert_role-Administers :
      (owner : Uuid) (role : Role) → Administers t (insert_role text owner role db) i
  insert_role-Administers owner role = record {
    user = a.user;
    listed = a.listed;
    candidate = a.candidate;
    assignment = a.assignment;
    assigned = a.assigned;
    of_user = a.of_user;
    role = a.role;
    known = Has-append_left a.role db.roles _ a.known;
    granted = a.granted;
    is_id = a.is_id;
  }

  -- An update in another tenant is not of this administrator.
  other_tenant :
      (owner user_id : Uuid) (user : User)
      → t ≢ owner
      → get_user owner user_id db ≡ some user
      → i ≢ user.id
  unfolding get_user
  other_tenant owner user_id user ne found e =
      let at_owner = scalar-holds _ db.users user found in
      let same =
        unique_by-eq same_user_id (λ x y k. ground arith) a.user user db.users
          (unfold constraints_hold users_hold in ground arith) a.listed
          (scalar-Has _ user db.users found) (ground (arith, a.is_id)) in
      ne (ground (arith, a.candidate, at_owner, ap (λ (u : User). u.tenant_id) same))

  other_request :
      (owner user_id : Uuid) (user : User) (f : User → User) (ids : Option (List Uuid))
      → t ≢ owner
      → get_user owner user_id db ≡ some user
      → HasAdministrator t (replace_if_given text owner user.id ids (set_user user.id f db))
  other_request owner user_id user f none ne found = (
    i,
    Administers-Has t _ i
        (Administers-set_ne t db user.id f i a (other_tenant owner user_id user ne found)),
  )
  other_request owner user_id user f (some ids) ne found = (
    i,
    Administers-Has t _ i (
        Administers-replace_ne t db user.id owner f ids i a
          (other_tenant owner user_id user ne found)),
  )

module _ (text : TextOps) (t : Uuid) (db : Store) (holds : constraints_hold text db ≡ true)
    (before : HasAdministrator t db) where
  administers : Administers t db before.0
  administers = Has-Administers t db before.0 before.1

  serve-HasAdministrator : (r : Request) → HasAdministrator t (serve text r db)
  unfolding serve
  serve-HasAdministrator (create_user_request owner id now hash email name status ids) =
      leaves-create_user (HasAdministrator t) text owner db before id now hash email name status ids
        λ user accepted. (
          before.0,
          Administers-Has t _ before.0 (
              insert_user-Administers text db holds t before.0 administers owner user ids accepted),
        )
  serve-HasAdministrator (create_role_request owner id now name description) =
      leaves-create_role (HasAdministrator t) text owner db before id now name description
        λ role accepted. (
          before.0,
          Administers-Has t _ before.0
              (insert_role-Administers text db holds t before.0 administers owner role),
        )
  serve-HasAdministrator (assign_roles_request owner user_id ids) = elim (ℕ_discrete t owner) [
    | yes same ↦
        rw (← same) (assign_roles-HasAdministrator text t db holds before.0 before.1 user_id ids)
    | no other ↦
        leaves-assign_roles (HasAdministrator t) text owner db before user_id ids
          λ user f found accepted.
            other_request text db holds t before.0 administers owner user_id user f (some ids) other
              found
  ]
  serve-HasAdministrator (update_user_request owner user_id name status ids) =
      elim (ℕ_discrete t owner) [
        | yes same ↦
            rw (← same) (
              update_user-HasAdministrator text t db holds before.0 before.1 user_id name status
                ids)
        | no other ↦
            leaves-update_user (HasAdministrator t) text owner db before user_id name status ids
              λ user f found accepted.
                other_request text db holds t before.0 administers owner user_id user f ids other
                  found
      ]

-- After any sequence of requests, by the administrators of any tenants, on a store that meets the
-- constraints: the store still meets them, and a tenant that had an active administrator has one.
pub serve_all-HasAdministrator :
    (text : TextOps) (t : Uuid) (requests : List Request) (db : Store)
    → constraints_hold text db ≡ true
    → HasAdministrator t db
    → (constraints_hold text (serve_all text requests db) ≡ true)
      × HasAdministrator t (serve_all text requests db)
unfolding serve_all
serve_all-HasAdministrator text t [] db holds before = (holds, before)
serve_all-HasAdministrator text t (r ∷ rs) db holds before =
    serve_all-HasAdministrator text t rs (serve text r db) (serve-constraints_hold text r db holds)
      (serve-HasAdministrator text t db holds before r)
