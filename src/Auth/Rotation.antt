-- ===== src/Auth/Rotation.antt =====
-- services/auth_service.py: what a rotation does on every branch.
pub mod Single
pub mod Replay
pub mod Exchange
use tenant_intelligence_plat.Base.{
  ℕ, ◌+◌, ◌≤◌, ◌<◌, ◌≡◌, ◌≢◌, refl, ap, String, Bool, true, false, not, ◌&&◌, Option, none, some,
  inl, inr, List, [], ◌∷◌, ◌++◌, arith, ◌==◌, leb, if◌then◌else◌, Bool-cases, Option-cases, Has,
  Has-append_left, scalar, scalar-Has, scalar-holds,
}
use tenant_intelligence_plat.Errors.{authentication, integrity}
use tenant_intelligence_plat.Exec.{Result, ok, err, settle, commit}
use tenant_intelligence_plat.Identity.Models.{
  Uuid, TextOps, is_active, Tenant, User, RefreshToken, Store,
}
use tenant_intelligence_plat.Identity.Repository.{
  get_identity, get_refresh_token, is_live, revoke_refresh_family,
}
use tenant_intelligence_plat.Identity.Constraints.{constraints_hold}
use tenant_intelligence_plat.Auth.Security.{
  Crypto, Settings, access, refresh, TokenClaims, issue_token, decode_token, refresh_token_matches,
}
use tenant_intelligence_plat.Auth.Service.{
  TokenPair, replaced, issued_pair, set_token, add_token, expire, supersede, refresh_row, pair_of,
  login, login_user, login_allowed, issue_pair, replace_token, rotate_identity, rotate_record,
  rotate_found, rotate_claims, rotate_refresh_token,
}
use tenant_intelligence_plat.Auth.Families.{
  live_in, live_count, live_count-revoke_refresh_family, live_count-add_token, live_count-set_token,
  live_count-set_token_lt,
}

module _ (text : TextOps) (c : Crypto) (settings : Settings) where
  -- Everything that a successful rotation has checked, and what it has written.
  pub record Rotated (raw : String) (decode_now now : ℕ) (access_jti refresh_jti : Uuid)
      (db db' : Store) (pair : TokenPair) : Type 0 where
    pub claims : TokenClaims
    pub found : RefreshToken
    pub user : User
    pub tenant : Tenant
    pub decoded : decode_token c refresh decode_now raw ≡ ok claims
    pub stored : get_refresh_token claims.jti db ≡ some found
    pub matches : refresh_token_matches c raw found.token_hash ≡ true
    pub live : is_live found ≡ true
    pub unexpired : now < found.expires_at
    pub same_owner : (found.user_id == claims.user_id && found.tenant_id == claims.tenant_id) ≡ true
    pub identity : get_identity claims.user_id claims.tenant_id db ≡ some (user, tenant)
    pub active : (is_active user.status && is_active tenant.status) ≡ true
    pub accepted : constraints_hold text db' ≡ true
    pub written : db' ≡ replaced text c settings found user tenant now refresh_jti db
    pub issued : pair ≡ issued_pair text c settings user.id tenant.id now now access_jti refresh_jti

  settled :
      {A : Type 0} (b : Bool) (changed db db' : Store) (a r : A)
      → settle b integrity changed a db ≡ (ok r, db')
      → (b ≡ true) × (db' ≡ changed) × (r ≡ a)
  settled true changed db db' a r h = (refl, cc, cc)
  settled false changed db db' a r h = absurd (cc)

  abbrev Good : TokenClaims → RefreshToken → ℕ → Type 0
  Good claims found now =
      (is_live found ≡ true)
      × (leb found.expires_at now ≡ false)
      × ((found.user_id == claims.user_id && found.tenant_id == claims.tenant_id) ≡ true)

  passed_record :
      (claims : TokenClaims) (found : RefreshToken) (now : ℕ) (access_jti refresh_jti : Uuid)
      (db db' : Store) (pair : TokenPair)
      → rotate_record text c settings claims found now access_jti refresh_jti db ≡ (ok pair, db')
      → Good claims found now
        × (rotate_identity text c settings found
              (get_identity claims.user_id claims.tenant_id db)
              now
              access_jti
              refresh_jti
              db
            ≡ (ok pair, db'))
  passed_record claims found now access_jti refresh_jti db db' pair h =
      elim (Bool-cases (is_live found)) [
        | inr dead ↦ absurd (cc (rw dead at h))
        | inl live ↦ elim (Bool-cases (leb found.expires_at now)) [
          | inl old ↦ absurd (cc (rw (live, old) at h))
          | inr fresh ↦
              elim (Bool-cases
                (found.user_id == claims.user_id && found.tenant_id == claims.tenant_id)) [
                  | inr other ↦ absurd (cc (rw (live, fresh, other) at h))
                  | inl same ↦ ((live, fresh, same), rw (live, fresh, same) at h)
                ]
        ]
      ]

  passed_found :
      (raw : String) (claims : TokenClaims) (o : Option RefreshToken) (now : ℕ)
      (access_jti refresh_jti : Uuid) (db db' : Store) (pair : TokenPair)
      → rotate_found text c settings raw claims o now access_jti refresh_jti db ≡ (ok pair, db')
      → (found : RefreshToken) × (o ≡ some found)
        × (refresh_token_matches c raw found.token_hash ≡ true)
        × (rotate_record text c settings claims found now access_jti refresh_jti db
            ≡ (ok pair, db'))
  passed_found raw claims none now access_jti refresh_jti db db' pair h = absurd (cc)
  passed_found raw claims (some found) now access_jti refresh_jti db db' pair h =
      elim (Bool-cases (refresh_token_matches c raw found.token_hash)) [
        | inr differs ↦ absurd (cc (rw differs at h))
        | inl same ↦ (found, refl, same, rw same at h)
      ]

  passed_claims :
      (raw : String) (r : Result TokenClaims) (now : ℕ) (access_jti refresh_jti : Uuid)
      (db db' : Store) (pair : TokenPair)
      → rotate_claims text c settings raw r now access_jti refresh_jti db ≡ (ok pair, db')
      → (claims : TokenClaims) × (found : RefreshToken) × (r ≡ ok claims)
        × (get_refresh_token claims.jti db ≡ some found)
        × (refresh_token_matches c raw found.token_hash ≡ true)
        × (rotate_record text c settings claims found now access_jti refresh_jti db
            ≡ (ok pair, db'))
  passed_claims raw (err e) now access_jti refresh_jti db db' pair h = absurd (cc)
  passed_claims raw (ok claims) now access_jti refresh_jti db db' pair h =
      let (found, e, same, k) =
        passed_found raw claims (get_refresh_token claims.jti db) now access_jti refresh_jti db db'
          pair h in
      (claims, found, refl, e, same, k)

  passed_identity :
      (found : RefreshToken) (row : Option (User × Tenant)) (now : ℕ)
      (access_jti refresh_jti : Uuid) (db db' : Store) (pair : TokenPair)
      → rotate_identity text c settings found row now access_jti refresh_jti db ≡ (ok pair, db')
      → (user : User) × (tenant : Tenant) × (row ≡ some (user, tenant))
        × ((is_active user.status && is_active tenant.status) ≡ true)
        × (replace_token text c settings found user tenant now access_jti refresh_jti db
            ≡ (ok pair, db'))
  passed_identity found none now access_jti refresh_jti db db' pair h = absurd (cc)
  passed_identity found (some (user, tenant)) now access_jti refresh_jti db db' pair h =
      elim (Bool-cases (is_active user.status && is_active tenant.status)) [
        | inl active ↦ (user, tenant, refl, active, rw active at h)
        | inr inactive ↦ absurd (cc (rw inactive at h))
      ]

  -- A rotation that returns a pair has passed every test and made exactly these writes: the old
  -- token revoked and pointing to the new one, the new token in the same family.
  pub rotate_refresh_token-Rotated :
      (raw : String) (decode_now now : ℕ) (access_jti refresh_jti : Uuid) (db db' : Store)
      (pair : TokenPair)
      → rotate_refresh_token text c settings raw decode_now now access_jti refresh_jti db
        ≡ (ok pair, db')
      → Rotated raw decode_now now access_jti refresh_jti db db' pair
  unfolding rotate_refresh_token replace_token
  rotate_refresh_token-Rotated raw decode_now now access_jti refresh_jti db db' pair h =
      let (claims, found, decoded, stored, matches, r) =
        passed_claims raw (decode_token c refresh decode_now raw) now access_jti refresh_jti db db'
          pair h in
      let (good, k) = passed_record claims found now access_jti refresh_jti db db' pair r in
      let (user, tenant, identity, active, q) =
        passed_identity found (get_identity claims.user_id claims.tenant_id db) now access_jti
          refresh_jti db db' pair k in
      let (accepted, written, issued) = settled _ _ db db' _ pair q in
      record {
        claims = claims;
        found = found;
        user = user;
        tenant = tenant;
        decoded = decoded;
        stored = stored;
        matches = matches;
        live = good.0;
        unexpired = ground (arith, good.1);
        same_owner = good.2;
        identity = identity;
        active = active;
        accepted = rw written accepted;
        written = written;
        issued = issued;
      }
