-- ===== src/Auth/Service.antt =====
-- services/auth_service.py: login and refresh-token rotation. Clock readings and fresh identifiers
-- are arguments. Each rejection raises `AuthenticationError`; what was committed before it stays.
use tenant_intelligence_plat.Base.{
  ℕ, ◌*◌, String, Bool, false, not, ◌&&◌, Option, none, some, [], ◌∷◌, ◌++◌, leb, ◌==◌,
  if◌then◌else◌, update_where,
}
use tenant_intelligence_plat.Errors.{authentication, integrity}
use tenant_intelligence_plat.Exec.{
  Result, ok, err, Exec, raise, gets, or_raise, raise_if, commit, ◌>>=◌, ◌>>◌,
}
use tenant_intelligence_plat.Identity.Models.{
  Uuid, TextOps, is_active, Tenant, User, RefreshToken, Store, normalize_tenant_code,
  normalize_email,
}
use tenant_intelligence_plat.Identity.Repository.{
  get_tenant_by_code, get_user_by_email, get_identity, get_refresh_token, is_live,
  revoke_refresh_family,
}
use tenant_intelligence_plat.Identity.Constraints.{constraints_hold}
use tenant_intelligence_plat.Auth.Security.{
  Crypto, Settings, access, refresh, TokenClaims, IssuedToken, issue_token, decode_token,
  verify_password, hash_refresh_token, refresh_token_matches,
}

pub record TokenPair : Type 0 where
  pub access_token : String
  pub refresh_token : String
  pub access_token_expires_in : ℕ

-- The state after the commit of a revocation, then `_reject`.
abbrev pub reject_after : {A : Type 0} → (Store → Store) → Exec Store A
reject_after change db = (err authentication, change db)

-- `record.revoked_at = now`, by the unique identifier of the row
abbrev pub set_token : Uuid → (RefreshToken → RefreshToken) → Store → Store
set_token jti f db = record db {
  refresh_tokens = update_where (λ t. t.jti == jti) f db.refresh_tokens;
}

abbrev pub add_token : RefreshToken → Store → Store
add_token t db = record db { refresh_tokens = db.refresh_tokens ++ t ∷ [] }

abbrev pub expire : ℕ → RefreshToken → RefreshToken
expire now t = record t { revoked_at = some now }

abbrev pub supersede : ℕ → Uuid → RefreshToken → RefreshToken
supersede now jti t = record t { revoked_at = some now; replaced_by_jti = some jti }

module _ (text : TextOps) (c : Crypto) (settings : Settings) where
  abbrev pub refresh_row : Uuid → Uuid → Uuid → IssuedToken → RefreshToken
  refresh_row user_id tenant_id family_id issued = record {
    user_id = user_id;
    tenant_id = tenant_id;
    jti = issued.jti;
    family_id = family_id;
    token_hash = hash_refresh_token c issued.value;
    expires_at = issued.expires_at;
    revoked_at = none;
    replaced_by_jti = none;
  }

  abbrev pub pair_of : IssuedToken → IssuedToken → TokenPair
  pair_of access_token refresh_token = record {
    access_token = access_token.value;
    refresh_token = refresh_token.value;
    access_token_expires_in = settings.jwt_access_token_minutes * 60;
  }

  -- `_issue_pair` reads the clock twice, since it calls `issue_token` with no instant.
  abbrev pub issued_pair : Uuid → Uuid → ℕ → ℕ → Uuid → Uuid → TokenPair
  issued_pair user_id tenant_id access_now refresh_now access_jti refresh_jti =
      pair_of (issue_token c settings user_id tenant_id access access_now none access_jti)
        (issue_token c settings user_id tenant_id refresh refresh_now none refresh_jti)

  abbrev pub issued_row : Uuid → Uuid → Uuid → ℕ → Uuid → RefreshToken
  issued_row user_id tenant_id family_id now jti =
      refresh_row user_id tenant_id family_id
        (issue_token c settings user_id tenant_id refresh now none jti)

  unfoldable pub issue_pair : User → Uuid → ℕ → ℕ → Uuid → Uuid → Exec Store TokenPair
  issue_pair user family_id access_now refresh_now access_jti refresh_jti =
      commit (constraints_hold text) integrity
        (add_token (issued_row user.id user.tenant_id family_id refresh_now refresh_jti))
        (issued_pair user.id user.tenant_id access_now refresh_now access_jti refresh_jti)

  abbrev pub login_user : String → Option Tenant → Store → Option User
  login_user email none db = none
  login_user email (some tenant) db = get_user_by_email tenant.id (normalize_email text email) db

  abbrev pub login_allowed : String → Option Tenant → User → Bool
  login_allowed password none user = false
  login_allowed password (some tenant) user =
      verify_password c password user.password_hash
      && (is_active tenant.status && (is_active user.status && user.tenant_id == tenant.id))

  unfoldable pub login :
      String → String → String → Uuid → ℕ → ℕ → Uuid → Uuid → Exec Store TokenPair
  login tenant_code email password family_id access_now refresh_now access_jti refresh_jti = do
    tenant ← gets (get_tenant_by_code (normalize_tenant_code text tenant_code))
    found ← gets (login_user email tenant)
    user ← or_raise found authentication
    raise_if (not (login_allowed password tenant user)) authentication
    issue_pair user family_id access_now refresh_now access_jti refresh_jti

  abbrev pub replaced : RefreshToken → User → Tenant → ℕ → Uuid → Store → Store
  replaced found user tenant now refresh_jti db =
      set_token found.jti (supersede now refresh_jti)
        (add_token (issued_row user.id tenant.id found.family_id now refresh_jti) db)

  -- The rotation once the record and its owner are known to be good.
  unfoldable pub replace_token :
      RefreshToken → User → Tenant → ℕ → Uuid → Uuid → Exec Store TokenPair
  replace_token found user tenant now access_jti refresh_jti =
      commit (constraints_hold text) integrity (replaced found user tenant now refresh_jti)
        (issued_pair user.id tenant.id now now access_jti refresh_jti)

  abbrev pub rotate_identity :
      RefreshToken → Option (User × Tenant) → ℕ → Uuid → Uuid → Exec Store TokenPair
  rotate_identity found none now access_jti refresh_jti = raise authentication
  rotate_identity found (some (user, tenant)) now access_jti refresh_jti =
      if not (is_active user.status && is_active tenant.status)
      then reject_after (revoke_refresh_family found.family_id now)
      else replace_token found user tenant now access_jti refresh_jti

  -- the tests on the stored record, in their order
  abbrev pub rotate_record : TokenClaims → RefreshToken → ℕ → Uuid → Uuid → Exec Store TokenPair
  rotate_record claims found now access_jti refresh_jti db =
      if not (is_live found)
      then reject_after (revoke_refresh_family found.family_id now) db
      else if leb found.expires_at now
      then reject_after (set_token found.jti (expire now)) db
      else if not (found.user_id == claims.user_id && found.tenant_id == claims.tenant_id)
      then reject_after (revoke_refresh_family found.family_id now) db
      else rotate_identity found (get_identity claims.user_id claims.tenant_id db) now access_jti
          refresh_jti db

  abbrev pub rotate_found :
      String → TokenClaims → Option RefreshToken → ℕ → Uuid → Uuid → Exec Store TokenPair
  rotate_found raw claims none now access_jti refresh_jti = raise authentication
  rotate_found raw claims (some found) now access_jti refresh_jti =
      if not (refresh_token_matches c raw found.token_hash)
      then raise authentication
      else rotate_record claims found now access_jti refresh_jti

  abbrev pub rotate_claims : String → Result TokenClaims → ℕ → Uuid → Uuid → Exec Store TokenPair
  rotate_claims raw (err e) now access_jti refresh_jti db = (err authentication, db)
  rotate_claims raw (ok claims) now access_jti refresh_jti db =
      rotate_found raw claims (get_refresh_token claims.jti db) now access_jti refresh_jti db

  -- `now` is the second clock reading; the first one is inside `decode_token`.
  unfoldable pub rotate_refresh_token : String → ℕ → ℕ → Uuid → Uuid → Exec Store TokenPair
  rotate_refresh_token raw decode_now now access_jti refresh_jti =
      rotate_claims raw (decode_token c refresh decode_now raw) now access_jti refresh_jti
