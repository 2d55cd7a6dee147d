-- ===== src/TenantAdmin/Administrators.antt =====
-- What `active_administrator_ids` of repositories/identity.py returns, and when an identifier
-- survives an update of another user.
use tenant_intelligence_plat.Base.{
  ◌≤◌, Bool, true, false, ◌&&◌, ◌≡◌, ◌≢◌, ap, List, map, arith, str_eq, eq_iff, ◌==◌, leb, length,
  length-map, Has, select, update_where, Has-select, select-Has, Has-join, join-Has, Has-map,
  map-Has, Has-sort_by, sort_by-Has, length-sort_by, update_where-Has, Has-append_left,
  delete_where-Has, unique_by-eq, unique_by-select, length-select_unique, length-join_unique,
}
use tenant_intelligence_plat.Identity.Models.{
  Uuid, TextOps, User, Role, UserRole, Store, administrator_role_name,
}
use tenant_intelligence_plat.Identity.Repository.{
  replace_user_roles, administrator_rows, is_candidate, active_administrator_ids,
}
use tenant_intelligence_plat.Identity.Constraints.{
  same_user_id, same_role_id, same_tenant_name, same_assignment, users_hold, roles_hold,
  assignments_hold, constraints_hold,
}
use tenant_intelligence_plat.TenantAdmin.{set_user}

abbrev grants : UserRole → Role → Bool
grants a r =
    (r.id == a.role_id && r.tenant_id == a.tenant_id) && str_eq r.name administrator_role_name

-- The rows behind one identifier of the list: a user, an assignment and an administrator role.
pub record Administers (tenant_id : Uuid) (db : Store) (id : Uuid) : Type 0 where
  pub user : User
  pub listed : Has user db.users
  pub candidate : is_candidate tenant_id user ≡ true
  pub assignment : UserRole
  pub assigned : Has assignment db.user_roles
  pub of_user : (assignment.user_id == user.id && assignment.tenant_id == user.tenant_id) ≡ true
  pub role : Role
  pub known : Has role db.roles
  pub granted : grants assignment role ≡ true
  pub is_id : id ≡ user.id

Has-administrator_rows :
    (db : Store) (u : User) (i : Uuid)
    → Has i (administrator_rows db u)
    → (a : UserRole) × (r : Role) × Has a db.user_roles
      × ((a.user_id == u.id && a.tenant_id == u.tenant_id) ≡ true)
      × Has r db.roles
      × (grants a r ≡ true)
      × (i ≡ u.id)
Has-administrator_rows db u i h =
    let p : UserRole → Bool = λ a. a.user_id == u.id && a.tenant_id == u.tenant_id in
    let (a, m, k) =
      Has-join (λ a. map (λ _. u.id) (select (grants a) db.roles)) i (select p db.user_roles) h in
    let (r, n, e) = Has-map (λ _. u.id) i (select (grants a) db.roles) k in
    let s = Has-select p a db.user_roles m in
    let t = Has-select (grants a) r db.roles n in (a, r, s.0, s.1, t.0, t.1, e)

module _ (tenant_id : Uuid) (db : Store) (id : Uuid) where
  pub Has-Administers : Has id (active_administrator_ids tenant_id db) → Administers tenant_id db id
  unfolding active_administrator_ids
  Has-Administers h =
      let (u, m, k) =
        Has-join (administrator_rows db) id (select (is_candidate tenant_id) db.users)
          (Has-sort_by leb id _ h) in
      let (l, c) = Has-select (is_candidate tenant_id) u db.users m in
      let (a, r, ha, of, hr, g, e) = Has-administrator_rows db u id k in
      record {
        user = u;
        listed = l;
        candidate = c;
        assignment = a;
        assigned = ha;
        of_user = of;
        role = r;
        known = hr;
        granted = g;
        is_id = e;
      }

  pub Administers-Has : Administers tenant_id db id → Has id (active_administrator_ids tenant_id db)
  unfolding active_administrator_ids
  Administers-Has h =
      let u = h.user in
      sort_by-Has leb id _ (
        join-Has (administrator_rows db) u id (select (is_candidate tenant_id) db.users)
          (select-Has (is_candidate tenant_id) u db.users h.listed h.candidate)
          (rw h.is_id (
            join-Has (λ a. map (λ _. u.id) (select (grants a) db.roles)) h.assignment u.id _
              (select-Has _ h.assignment db.user_roles h.assigned h.of_user)
              (map-Has (λ _. u.id) h.role _
                (select-Has (grants h.assignment) h.role db.roles h.known h.granted)))))

module _ (tenant_id : Uuid) (db : Store) (uid : Uuid) where
  -- An administrator other than the updated user stays one.
  pub Administers-replace_ne :
      (owner : Uuid) (f : User → User) (role_ids : List Uuid) (id : Uuid)
      → Administers tenant_id db id
      → id ≢ uid
      → Administers tenant_id (replace_user_roles uid owner role_ids (set_user uid f db)) id
  unfolding replace_user_roles
  Administers-replace_ne owner f role_ids id h ne = record {
    user = h.user;
    listed = kept;
    candidate = h.candidate;
    assignment = h.assignment;
    assigned = Has-append_left h.assignment _ _ (
        delete_where-Has _ h.assignment db.user_roles h.assigned
          (ground (arith, h.of_user, h.is_id)));
    of_user = h.of_user;
    role = h.role;
    known = h.known;
    granted = h.granted;
    is_id = h.is_id;
  }
    where
      other : (h.user.id == uid) ≡ false
      other = ground (arith, h.is_id)

      kept : Has h.user (update_where (λ (u : User). u.id == uid) f db.users)
      kept = rw other at (update_where-Has (λ (u : User). u.id == uid) f h.user db.users h.listed)

  -- The same where the assignments stay.
  pub Administers-set_ne :
      (f : User → User) (id : Uuid)
      → Administers tenant_id db id
      → id ≢ uid
      → Administers tenant_id (set_user uid f db) id
  Administers-set_ne f id h ne = record {
    user = h.user;
    listed = kept;
    candidate = h.candidate;
    assignment = h.assignment;
    assigned = h.assigned;
    of_user = h.of_user;
    role = h.role;
    known = h.known;
    granted = h.granted;
    is_id = h.is_id;
  }
    where
      other : (h.user.id == uid) ≡ false
      other = ground (arith, h.is_id)

      kept : Has h.user (update_where (λ (u : User). u.id == uid) f db.users)
      kept = rw other at (update_where-Has (λ (u : User). u.id == uid) f h.user db.users h.listed)

module _ (text : TextOps) (tenant_id : Uuid) (db : Store)
    (holds : constraints_hold text db ≡ true) where
  length-granted : (a : UserRole) → length (select (grants a) db.roles) ≤ 1
  length-granted a =
      length-select_unique same_role_id (grants a) (λ r s p q. ground (arith, p, q)) db.roles
        (unfold constraints_hold roles_hold in ground arith)

  same_name :
      (r s : Role) (a b : UserRole)
      → Has r db.roles
      → Has s db.roles
      → grants a r ≡ true
      → grants b s ≡ true
      → a.tenant_id ≡ b.tenant_id
      → r ≡ s
  same_name r s a b hr hs p q e =
      unique_by-eq same_tenant_name
        (λ x y k. ground (arith, k, eq_iff x.name y.name, eq_iff y.name x.name)) r s db.roles
        (unfold constraints_hold roles_hold in ground arith) hr hs
        (ground (
          arith,
          p,
          q,
          eq_iff r.name administrator_role_name,
          eq_iff s.name administrator_role_name,
          eq_iff r.name s.name,
        ))

  -- A user is listed once at most.
  length-administrator_rows : (u : User) → length (administrator_rows db u) ≤ 1
  length-administrator_rows u =
      length-join_unique same_assignment _ (select p db.user_roles)
        (unique_by-select same_assignment p db.user_roles
          (unfold constraints_hold assignments_hold in ground arith))
        (λ a m. rw length-map (length-granted a)) agree
    where
      p : UserRole → Bool
      p a = a.user_id == u.id && a.tenant_id == u.tenant_id

      agree :
          (a b : UserRole) (i j : Uuid)
          → Has a (select p db.user_roles)
          → Has b (select p db.user_roles)
          → Has i (map (λ _. u.id) (select (grants a) db.roles))
          → Has j (map (λ _. u.id) (select (grants b) db.roles))
          → same_assignment a b ≡ true
      agree a b i j ha hb hi hj =
          let (r, m, _) = Has-map (λ _. u.id) i (select (grants a) db.roles) hi in
          let (s, n, _) = Has-map (λ _. u.id) j (select (grants b) db.roles) hj in
          let x = Has-select (grants a) r db.roles m in
          let y = Has-select (grants b) s db.roles n in
          let pa = (Has-select p a db.user_roles ha).1 in
          let pb = (Has-select p b db.user_roles hb).1 in
          let e = same_name r s a b x.0 y.0 x.1 y.1 (ground (arith, pa, pb)) in
          ground (arith, pa, pb, x.1, y.1, ap (λ (z : Role). z.id) e)

  -- If one identifier is all that the list holds, the list has one entry at most.
  pub length-only :
      (uid : Uuid)
      → ((i : Uuid) → Has i (active_administrator_ids tenant_id db) → i ≡ uid)
      → length (active_administrator_ids tenant_id db) ≤ 1
  unfolding active_administrator_ids
  length-only uid only = rw length-sort_by (
      length-join_unique same_user_id (administrator_rows db) users
        (unique_by-select same_user_id (is_candidate tenant_id) db.users
          (unfold constraints_hold users_hold in ground arith))
        (λ u m. length-administrator_rows u)
        λ u v i j hu hv hi hj. ground (arith, belongs u i hu hi, belongs v j hv hj))
    where
      users : List User
      users = select (is_candidate tenant_id) db.users

      belongs : (u : User) (i : Uuid) → Has u users → Has i (administrator_rows db u) → u.id ≡ uid
      belongs u i hu hi =
          let (a, r, _, _, _, _, e) = Has-administrator_rows db u i hi in
          let k = only i (sort_by-Has leb i _ (join-Has (administrator_rows db) u i users hu hi)) in
          ground arith
