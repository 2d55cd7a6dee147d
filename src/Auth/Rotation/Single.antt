-- ===== src/Auth/Rotation/Single.antt =====
-- services/auth_service.py: a refresh family never has two live tokens.
use tenant_intelligence_plat.Base.{
  ℕ, ◌≡◌, refl, String, true, not, ◌&&◌, Option, none, some, inl, inr, arith, ◌==◌, leb, Bool-cases,
  Has, Has-append_left, scalar-Has,
}
use tenant_intelligence_plat.Errors.{authentication, integrity}
use tenant_intelligence_plat.Exec.{Result, ok, err}
use tenant_intelligence_plat.Exec.Leaves.{leaves-raise_if, leaves-or_raise, leaves-commit}
use tenant_intelligence_plat.Identity.Models.{
  Uuid, TextOps, is_active, Tenant, User, RefreshToken, Store, normalize_tenant_code,
}
use tenant_intelligence_plat.Identity.Repository.{
  get_tenant_by_code, get_identity, get_refresh_token, is_live, revoke_refresh_family,
}
use tenant_intelligence_plat.Identity.Constraints.{constraints_hold}
use tenant_intelligence_plat.Auth.Security.{
  Crypto, Settings, refresh, TokenClaims, decode_token, refresh_token_matches,
}
use tenant_intelligence_plat.Auth.Service.{
  replaced, issued_pair, issued_row, set_token, add_token, expire, supersede, login, login_user,
  login_allowed, issue_pair, replace_token, rotate_identity, rotate_record, rotate_found,
  rotate_claims, rotate_refresh_token,
}
use tenant_intelligence_plat.Auth.Families.{
  live_count, OneLive, live_count-revoke_refresh_family, live_count-add_token, live_count-set_token,
  live_count-set_token_lt,
}

revoke-OneLive :
    (family : Uuid) (now : ℕ) (db : Store)
    → OneLive db
    → OneLive (revoke_refresh_family family now db)
revoke-OneLive family now db one g =
    rw (live_count-revoke_refresh_family family g now db) (ground (arith, one g))

expire-OneLive :
    (jti : Uuid) (now : ℕ) (db : Store) → OneLive db → OneLive (set_token jti (expire now) db)
expire-OneLive jti now db one g =
    omega (arith, one g, live_count-set_token jti (expire now) (λ t. refl) g db)

-- The new token takes the place of the old one.
supersede-OneLive :
    (found new : RefreshToken) (now : ℕ) (jti : Uuid) (db : Store)
    → Has found db.refresh_tokens
    → is_live found ≡ true
    → new.family_id ≡ found.family_id
    → OneLive db
    → OneLive (set_token found.jti (supersede now jti) (add_token new db))
supersede-OneLive found new now jti db listed live same one g =
    elim (Bool-cases (found.family_id == g)) [
      | inl mine ↦ ground (
        arith,
        one g,
        live_count-add_token g new db,
        live_count-set_token_lt found.jti (supersede now jti) (λ t. refl) g found (add_token new db)
            (Has-append_left found db.refresh_tokens _ listed) refl,
      )
      | inr other ↦ ground (
        arith,
        one g,
        live_count-add_token g new db,
        live_count-set_token found.jti (supersede now jti) (λ t. refl) g (add_token new db),
      )
    ]

module _ (text : TextOps) (c : Crypto) (settings : Settings) (db : Store) (one : OneLive db) where
  identity-OneLive :
      (found : RefreshToken) (row : Option (User × Tenant)) (now : ℕ)
      (access_jti refresh_jti : Uuid)
      → Has found db.refresh_tokens
      → is_live found ≡ true
      → OneLive (rotate_identity text c settings found row now access_jti refresh_jti db).1
  unfolding replace_token
  identity-OneLive found none now access_jti refresh_jti listed live = one
  identity-OneLive found (some (user, tenant)) now access_jti refresh_jti listed live =
      elim (Bool-cases (is_active user.status && is_active tenant.status)) [
        | inl active ↦ rw active (
            leaves-commit OneLive db one (constraints_hold text) integrity
              (replaced text c settings found user tenant now refresh_jti)
              (issued_pair text c settings user.id tenant.id now now access_jti refresh_jti)
              λ _.
                supersede-OneLive found
                  (issued_row text c settings user.id tenant.id found.family_id now refresh_jti) now
                  refresh_jti db listed live refl one)
        | inr inactive ↦ rw inactive (revoke-OneLive found.family_id now db one)
      ]

  record-OneLive :
      (claims : TokenClaims) (found : RefreshToken) (now : ℕ) (access_jti refresh_jti : Uuid)
      → Has found db.refresh_tokens
      → OneLive (rotate_record text c settings claims found now access_jti refresh_jti db).1
  record-OneLive claims found now access_jti refresh_jti listed =
      elim (Bool-cases (is_live found)) [
        | inr dead ↦ rw dead (revoke-OneLive found.family_id now db one)
        | inl live ↦ elim (Bool-cases (leb found.expires_at now)) [
          | inl old ↦ rw (live, old) (expire-OneLive found.jti now db one)
          | inr fresh ↦
              elim (Bool-cases
                (found.user_id == claims.user_id && found.tenant_id == claims.tenant_id)) [
                  | inr other ↦ rw (live, fresh, other) (revoke-OneLive found.family_id now db one)
                  | inl same ↦
                      rw (live, fresh, same)
                        (identity-OneLive found (get_identity claims.user_id claims.tenant_id db)
                          now access_jti refresh_jti listed live)
                ]
        ]
      ]

  found-OneLive :
      (raw : String) (claims : TokenClaims) (o : Option RefreshToken) (now : ℕ)
      (access_jti refresh_jti : Uuid)
      → ((t : RefreshToken) → o ≡ some t → Has t db.refresh_tokens)
      → OneLive (rotate_found text c settings raw claims o now access_jti refresh_jti db).1
  found-OneLive raw claims none now access_jti refresh_jti listed = one
  found-OneLive raw claims (some found) now access_jti refresh_jti listed =
      elim (Bool-cases (refresh_token_matches c raw found.token_hash)) [
        | inr differs ↦ rw differs one
        | inl same ↦
            rw same (record-OneLive claims found now access_jti refresh_jti (listed found refl))
      ]

  pub rotate_refresh_token-OneLive :
      (raw : String) (decode_now now : ℕ) (access_jti refresh_jti : Uuid)
      → OneLive
          (rotate_refresh_token text c settings raw decode_now now access_jti refresh_jti db).1
  unfolding rotate_refresh_token
  rotate_refresh_token-OneLive raw decode_now now access_jti refresh_jti =
      go (decode_token c refresh decode_now raw)
    where
      go :
          (r : Result TokenClaims)
          → OneLive (rotate_claims text c settings raw r now access_jti refresh_jti db).1
      go (err e) = one
      go (ok claims) =
          found-OneLive raw claims (get_refresh_token claims.jti db) now access_jti refresh_jti
            (λ t e. unfold get_refresh_token in scalar-Has _ t db.refresh_tokens e)

  -- A login opens a family; its identifier is new.
  pub login-OneLive :
      (code email password : String) (family : Uuid) (access_now refresh_now : ℕ)
      (access_jti refresh_jti : Uuid)
      → live_count family db ≡ 0
      → OneLive
          (login text c settings code email password family access_now refresh_now access_jti
            refresh_jti db).1
  unfolding login issue_pair
  login-OneLive code email password family access_now refresh_now access_jti refresh_jti fresh =
      let tenant = get_tenant_by_code (normalize_tenant_code text code) db in
      leaves-or_raise OneLive db one (login_user text c settings email tenant db) authentication _
        λ user found.
          leaves-raise_if OneLive db one (not (login_allowed text c settings password tenant user))
            authentication
            (issue_pair text c settings user family access_now refresh_now access_jti refresh_jti)
            λ _.
              let row =
                issued_row text c settings user.id user.tenant_id family refresh_now refresh_jti in
              leaves-commit OneLive db one (constraints_hold text) integrity (add_token row)
                (issued_pair text c settings user.id user.tenant_id access_now refresh_now
                  access_jti refresh_jti)
                λ _ g. ground (arith, one g, live_count-add_token g row db)

-- The calls that change the refresh tokens, in any order: rotations with any token at any instant,
-- and logins with a family identifier that no live token has.
pub data Step (text : TextOps) (c : Crypto) (settings : Settings) : Store → Store → Type 0 where
  rotates :
      (raw : String) (decode_now now : ℕ) (access_jti refresh_jti : Uuid) (db : Store)
      → Step text c settings db
          (rotate_refresh_token text c settings raw decode_now now access_jti refresh_jti db).1
  logs_in :
      (code email password : String) (family : Uuid) (access_now refresh_now : ℕ)
      (access_jti refresh_jti : Uuid) (db : Store)
      → live_count family db ≡ 0
      → Step text c settings db
          (login text c settings code email password family access_now refresh_now access_jti
            refresh_jti db).1

pub data Reach (text : TextOps) (c : Crypto) (settings : Settings) (db : Store)
    : Store → Type 0 where
  here : Reach text c settings db db
  next :
      {s t : Store}
      → Reach text c settings db s
      → Step text c settings s t
      → Reach text c settings db t

module _ (text : TextOps) (c : Crypto) (settings : Settings) where
  Step-OneLive : {s t : Store} → Step text c settings s t → OneLive s → OneLive t
  Step-OneLive (rotates raw decode_now now access_jti refresh_jti db) one =
      rotate_refresh_token-OneLive text c settings db one raw decode_now now access_jti refresh_jti
  Step-OneLive
        (logs_in code email password family access_now refresh_now access_jti refresh_jti db fresh)
        one =
      login-OneLive text c settings db one code email password family access_now refresh_now
        access_jti refresh_jti fresh

  -- Through any sequence of logins, each with a family identifier that no live token has, and of
  -- rotations, successful or not, no refresh family has two live tokens, if none had before.
  pub Reach-OneLive : (db s : Store) → OneLive db → Reach text c settings db s → OneLive s
  Reach-OneLive db s one here = one
  Reach-OneLive db s one (next r st) = Step-OneLive st (Reach-OneLive db _ one r)
