-- ===== src/Auth/Verified.antt =====
-- core/tenant_context.py: what the context of a request is made of.
use tenant_intelligence_plat.Base.{
  ℕ, ◌≡◌, refl, ap, String, Bool, true, ◌&&◌, Option, none, some, inl, inr, List, arith, ◌==◌,
  str_eq, Bool-cases, Has, Has-join, Has-map, Has-select, scalar-Has, scalar-holds, select,
  Has-sort_by, map, join,
}
use tenant_intelligence_plat.Exec.{Result, ok, err}
use tenant_intelligence_plat.Identity.Models.{Uuid, is_active, Tenant, User, Role, UserRole, Store}
use tenant_intelligence_plat.Identity.Repository.{
  get_identity, get_roles_for_user, assigned_roles, name_leb,
}
use tenant_intelligence_plat.Auth.Security.{
  Crypto, TokenType, access, TokenClaims, decode_token, token_type_text, claims_of, Payload,
  decoded,
}
use tenant_intelligence_plat.Auth.Context.{TenantContext, context_of, admitted, get_tenant_context}

ok-injective : {A : Type 0} {a b : A} → ok a ≡ ok b → a ≡ b
ok-injective h = cc

type_of_claims :
    (c : Crypto) (kind : TokenType) (p : Payload) (u t j : Option Uuid) (claims : TokenClaims)
    → claims_of c kind p u t j ≡ ok claims
    → claims.token_type ≡ kind
type_of_claims c kind p (some u) (some t) (some j) claims h = ground arith
type_of_claims c kind p (some u) (some t) none claims h = absurd (cc)
type_of_claims c kind p (some u) none _ claims h = absurd (cc)
type_of_claims c kind p none _ _ claims h = absurd (cc)

-- The claims that decoding returns are of the expected type.
type_of_decoded :
    (c : Crypto) (expected : TokenType) (now : ℕ) (token : String) (claims : TokenClaims)
    → decode_token c expected now token ≡ ok claims
    → claims.token_type ≡ expected
unfolding decode_token
type_of_decoded c expected now token claims h = go (c.decode now token) h
  where
    go : (o : Option Payload) → decoded c expected o ≡ ok claims → claims.token_type ≡ expected
    go none k = absurd (cc)
    go (some p) k = elim (Bool-cases (str_eq p.token_type (token_type_text expected))) [
      | inl same ↦ type_of_claims c expected p _ _ _ claims (rw same at k)
      | inr other ↦ absurd (cc (rw other at k))
    ]

Has-get_identity :
    (user_id tenant_id : Uuid) (db : Store) (user : User) (tenant : Tenant)
    → get_identity user_id tenant_id db ≡ some (user, tenant)
    → Has user db.users
      × Has tenant db.tenants
      × ((user.id == user_id && user.tenant_id == tenant_id) ≡ true)
      × ((tenant.id == user.tenant_id) ≡ true)
unfolding get_identity
Has-get_identity user_id tenant_id db user tenant h =
    let rows : User → List (User × Tenant) =
      λ u. map (λ t. (u, t)) (select (λ (t : Tenant). t.id == u.tenant_id) db.tenants) in
    let holds = scalar-holds _ (join db.users rows) (user, tenant) h in
    let (u, hu, k) =
      Has-join rows (user, tenant) db.users (scalar-Has _ (user, tenant) (join db.users rows) h) in
    let (t, ht, e) =
      Has-map (λ t. (u, t)) (user, tenant) (select (λ (t : Tenant). t.id == u.tenant_id) db.tenants)
        k in
    let (m, q) = Has-select (λ (t : Tenant). t.id == u.tenant_id) t db.tenants ht in
    let eu : user ≡ u = ap (λ (x : User × Tenant). x.0) e in
    let et : tenant ≡ t = ap (λ (x : User × Tenant). x.1) e in
    (rw eu hu, rw et m, holds, rw (eu, et) q)

-- What a context tells: its parts are rows of the database, active and of one tenant.
pub record IsVerified (db : Store) (context : TenantContext) (claims : TokenClaims) : Type 0 where
  pub user_listed : Has context.user db.users
  pub tenant_listed : Has context.tenant db.tenants
  pub user_named : context.user.id ≡ claims.user_id
  pub tenant_named : context.tenant.id ≡ claims.tenant_id
  pub user_active : is_active context.user.status ≡ true
  pub tenant_active : is_active context.tenant.status ≡ true
  pub one_tenant : context.user.tenant_id ≡ context.tenant.id
  pub roles_of_tenant :
      (r : Role) → Has r context.roles → Has r db.roles × (r.tenant_id ≡ context.tenant.id)

role_of_tenant :
    (user_id tenant_id : Uuid) (db : Store) (r : Role)
    → Has r (get_roles_for_user user_id tenant_id db)
    → Has r db.roles × (r.tenant_id ≡ tenant_id)
unfolding get_roles_for_user
role_of_tenant user_id tenant_id db r h =
    let p : UserRole → Bool = λ a. a.user_id == user_id && a.tenant_id == tenant_id in
    let (a, m, k) =
      Has-join (λ a. assigned_roles a db) r (select p db.user_roles) (Has-sort_by name_leb r _ h) in
    let s = Has-select p a db.user_roles m in
    let t = Has-select (λ x. a.role_id == x.id && a.tenant_id == x.tenant_id) r db.roles k in
    (t.0, ground (arith, s.1, t.1))

admitted-IsVerified :
    (db : Store) (claims : TokenClaims) (context : TenantContext) (user : User) (tenant : Tenant)
    → get_identity claims.user_id claims.tenant_id db ≡ some (user, tenant)
    → admitted db (some (user, tenant)) ≡ ok context
    → IsVerified db context claims
admitted-IsVerified db claims context user tenant found h =
    let (hu, ht, named, joined) =
      Has-get_identity claims.user_id claims.tenant_id db user tenant found in
    elim (Bool-cases
      (is_active user.status && (is_active tenant.status && user.tenant_id == tenant.id))) [
        | inl passed ↦
            let built : TenantContext = record {
              user = user;
              tenant = tenant;
              roles = get_roles_for_user user.id tenant.id db;
            } in
            let same : built ≡ context = ok-injective (rw passed at h) in
            rw (← same) (record {
              user_listed = hu;
              tenant_listed = ht;
              user_named = ground (arith, named);
              tenant_named = ground (arith, named, joined);
              user_active = ground (arith, passed);
              tenant_active = ground (arith, passed);
              one_tenant = ground (arith, passed);
              roles_of_tenant = λ r m. role_of_tenant user.id tenant.id db r m;
            })
        | inr failed ↦ absurd (cc (rw failed at h))
      ]

-- A context is given only for a token that decodes to an access token's claims. It holds the user
-- and the tenant that the claims name, both rows of the database and active, the user of that
-- tenant; and its roles are rows of that tenant.
pub get_tenant_context-IsVerified :
    (c : Crypto) (now : ℕ) (token : String) (db : Store) (context : TenantContext)
    → get_tenant_context c now (some token) db ≡ ok context
    → (claims : TokenClaims) × (decode_token c access now token ≡ ok claims)
      × (claims.token_type ≡ access)
      × IsVerified db context claims
unfolding get_tenant_context
get_tenant_context-IsVerified c now token db context h = go (decode_token c access now token) refl h
  where
    admit :
        (claims : TokenClaims) (row : Option (User × Tenant))
        → get_identity claims.user_id claims.tenant_id db ≡ row
        → admitted db row ≡ ok context
        → IsVerified db context claims
    admit claims none e k = absurd (cc)
    admit claims (some (user, tenant)) e k = admitted-IsVerified db claims context user tenant e k

    go :
        (r : Result TokenClaims)
        → decode_token c access now token ≡ r
        → context_of db r ≡ ok context
        → (claims : TokenClaims) × (decode_token c access now token ≡ ok claims)
          × (claims.token_type ≡ access)
          × IsVerified db context claims
    go (err e) d k = absurd (cc)
    go (ok claims) d k = (
      claims,
      d,
      type_of_decoded c access now token claims d,
      admit claims (get_identity claims.user_id claims.tenant_id db) refl k,
    )
