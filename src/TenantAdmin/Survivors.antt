-- ===== src/TenantAdmin/Survivors.antt =====
-- services/tenant_admin_service.py: which administrators are left after a change of another user, and
-- when a changed user still is one.
use tenant_intelligence_plat.Base.{
  ◌≤◌, Bool, true, false, not, ◌&&◌, ◌≡◌, ◌≢◌, sym, inl, inr, List, [], ◌∷◌, arith, ◌==◌, any,
  length, Has, select, Has-select, Has-join, map-Has, Has-sort_by, update_where-Has,
  Has-append_right, any-Has, any-witness, Bool-cases, ==_refl,
}
use tenant_intelligence_plat.Identity.Models.{Uuid, TextOps, User, Role, UserRole, Store}
use tenant_intelligence_plat.Identity.Repository.{
  is_in, get_roles_for_user, get_roles_by_ids, replace_user_roles, is_candidate,
  active_administrator_ids, assigned_roles, name_leb,
}
use tenant_intelligence_plat.Identity.Constraints.{constraints_hold}
use tenant_intelligence_plat.TenantAdmin.{set_user, has_administrator_role, removes_final}
use tenant_intelligence_plat.TenantAdmin.Administrators.{
  Administers, Has-Administers, Administers-Has, length-only,
}

abbrev pub HasAdministrator : Uuid → Store → Type 0
HasAdministrator tenant_id db = (i : Uuid) × Has i (active_administrator_ids tenant_id db)

pub length-Has {ℓ} : {A : Type ℓ} (a : A) (xs : List A) → Has a xs → 1 ≤ length xs
length-Has a [] h = elim h [ ]
length-Has a (x ∷ xs) h = omega arith

module _ (text : TextOps) (tenant_id : Uuid) (db : Store)
    (holds : constraints_hold text db ≡ true) where
  pub another :
      (uid : Uuid)
      → length (active_administrator_ids tenant_id db) ≢ 1
      → Has uid (active_administrator_ids tenant_id db)
      → (j : Uuid) × Has j (active_administrator_ids tenant_id db) × (j ≢ uid)
  another uid several h = elim (Bool-cases (any (λ j. not (j == uid)) ids)) [
    | inl e ↦ let (j, m, q) = any-witness (λ j. not (j == uid)) ids e in (j, m, ground arith)
    | inr e ↦
        let le = length-only text tenant_id db holds uid λ i m. elim (Bool-cases (i == uid)) [
          | inl same ↦ ground arith
          | inr ne ↦ absurd (ground (arith, any-Has (λ j. not (j == uid)) i ids m (ground arith)))
        ] in
        absurd (omega (arith, length-Has uid ids h))
  ]
    where
      ids : List Uuid
      ids = active_administrator_ids tenant_id db

  -- Past the guard, the updated user stays an administrator or another one is left.
  pub survivor :
      {Q : Type 0} (uid : Uuid) (stays : Bool) (i : Uuid)
      → removes_final text tenant_id uid stays db ≡ false
      → Has i (active_administrator_ids tenant_id db)
      → (stays ≡ true → Has uid (active_administrator_ids tenant_id db) → Q)
      → ((j : Uuid) → Administers tenant_id db j → j ≢ uid → Q)
      → Q
  survivor uid stays i guard h stay other = elim (Bool-cases (is_in ids uid)) [
    | inl listed ↦
        let (k, m, e) = any-witness (λ i. i == uid) ids listed in
        let same : k ≡ uid = ground arith in
        let h' = rw same at m in
        elim (Bool-cases stays) [
          | inl t ↦ stay t h'
          | inr f ↦
              let (j, n, ne) = another uid (ground arith) h' in
              other j (Has-Administers tenant_id db j n) ne
        ]
    | inr absent ↦
        other i (Has-Administers tenant_id db i h)
          λ e. absurd (ground (arith, any-Has (λ i. i == uid) i ids h))
  ]
    where
      ids : List Uuid
      ids = active_administrator_ids tenant_id db

-- The updated row is in the table.
pub set_user-Has :
    (db : Store) (user changed : User)
    → Has user db.users
    → Has changed (set_user user.id (λ _. changed) db).users
set_user-Has db user changed h =
    rw (==_refl user.id) at
      (update_where-Has (λ (u : User). u.id == user.id) (λ _. changed) user db.users h)

pub Has-get_roles_by_ids :
    (tenant_id : Uuid) (ids : List Uuid) (db : Store) (r : Role)
    → Has r (get_roles_by_ids tenant_id ids db)
    → Has r db.roles × ((r.tenant_id == tenant_id && is_in ids r.id) ≡ true)
unfolding get_roles_by_ids
Has-get_roles_by_ids tenant_id [] db r h = elim h [ ]
Has-get_roles_by_ids tenant_id (i ∷ ids) db r h =
    Has-select (λ r. r.tenant_id == tenant_id && is_in (i ∷ ids) r.id) r db.roles h

pub Has-get_roles_for_user :
    (user_id tenant_id : Uuid) (db : Store) (r : Role)
    → Has r (get_roles_for_user user_id tenant_id db)
    → (a : UserRole) × Has a db.user_roles
      × ((a.user_id == user_id && a.tenant_id == tenant_id) ≡ true)
      × Has r db.roles
      × ((a.role_id == r.id && a.tenant_id == r.tenant_id) ≡ true)
unfolding get_roles_for_user
Has-get_roles_for_user user_id tenant_id db r h =
    let p : UserRole → Bool = λ a. a.user_id == user_id && a.tenant_id == tenant_id in
    let (a, m, k) =
      Has-join (λ a. assigned_roles a db) r (select p db.user_roles) (Has-sort_by name_leb r _ h) in
    let s = Has-select p a db.user_roles m in
    let t = Has-select (λ x. a.role_id == x.id && a.tenant_id == x.tenant_id) r db.roles k in
    (a, s.0, s.1, t.0, t.1)

module _ (tenant_id : Uuid) (db : Store) (user changed : User) (listed : Has user db.users)
    (same : changed.id ≡ user.id) (candidate : is_candidate tenant_id changed ≡ true) where
  -- The roles that were requested name an administrator role, and are assigned.
  pub replaced-HasAdministrator :
      (role_ids : List Uuid)
      → has_administrator_role (get_roles_by_ids tenant_id role_ids db) ≡ true
      → HasAdministrator tenant_id
          (replace_user_roles user.id tenant_id role_ids (set_user user.id (λ _. changed) db))
  unfolding replace_user_roles
  replaced-HasAdministrator role_ids h =
      let (r, m, named) = any-witness _ (get_roles_by_ids tenant_id role_ids db) h in
      let (known, found) = Has-get_roles_by_ids tenant_id role_ids db r m in
      let (i, given, e) = any-witness (λ i. i == r.id) role_ids (ground (arith, found)) in
      let assignment : UserRole = record {
        user_id = user.id;
        role_id = i;
        tenant_id = tenant_id;
      } in
      (
        user.id,
        Administers-Has tenant_id _ user.id (record {
          user = changed;
          listed = set_user-Has db user changed listed;
          candidate = candidate;
          assignment = assignment;
          assigned = Has-append_right assignment _ _ (map-Has _ i role_ids given);
          of_user = ground arith;
          role = r;
          known = known;
          granted = ground (arith, found, e, named);
          is_id = sym same;
        }),
      )

  -- The present roles name one, and stay assigned.
  pub kept-HasAdministrator :
      has_administrator_role (get_roles_for_user user.id tenant_id db) ≡ true
      → HasAdministrator tenant_id (set_user user.id (λ _. changed) db)
  kept-HasAdministrator h =
      let (r, m, named) = any-witness _ (get_roles_for_user user.id tenant_id db) h in
      let (a, assigned, of, known, joined) = Has-get_roles_for_user user.id tenant_id db r m in
      (
        user.id,
        Administers-Has tenant_id _ user.id (record {
          user = changed;
          listed = set_user-Has db user changed listed;
          candidate = candidate;
          assignment = a;
          assigned = assigned;
          of_user = ground arith;
          role = r;
          known = known;
          granted = ground (arith, joined, named);
          is_id = sym same;
        }),
      )
