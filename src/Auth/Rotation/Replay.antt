-- ===== src/Auth/Rotation/Replay.antt =====
-- services/auth_service.py: presenting a refresh token again after it was rotated.
use tenant_intelligence_plat.Base.{
  ℕ, ◌≡◌, refl, String, true, Option, none, some, List, [], ◌∷◌, ◌++◌, arith, ◌==◌, scalar,
  scalar-holds, update_where,
}
use tenant_intelligence_plat.Errors.{authentication}
use tenant_intelligence_plat.Exec.{ok, err}
use tenant_intelligence_plat.Identity.Models.{Uuid, TextOps, RefreshToken, Store}
use tenant_intelligence_plat.Identity.Repository.{get_refresh_token}
use tenant_intelligence_plat.Auth.Security.{TokenType}
use tenant_intelligence_plat.Auth.Security.{
  Crypto, IsCrypto, Settings, refresh, TokenClaims, Payload, decode_token, decoded,
  refresh_token_matches,
}
use tenant_intelligence_plat.Auth.Service.{TokenPair, supersede, rotate_refresh_token}
use tenant_intelligence_plat.Auth.Families.{live_count, live_count-revoke_refresh_family}
use tenant_intelligence_plat.Auth.Rotation.{rotate_refresh_token-Rotated}

-- the row of a token after its rotation
get_refresh_token-replaced :
    (jti : Uuid) (now : ℕ) (new : Uuid) (row found : RefreshToken) (ts : List RefreshToken)
    → scalar (λ t. t.jti == jti) ts ≡ some found
    → scalar
        (λ t. t.jti == jti)
        (update_where (λ t. t.jti == found.jti) (supersede now new) (ts ++ row ∷ []))
      ≡ some (supersede now new found)
get_refresh_token-replaced jti now new row found [] h = absurd (cc)
get_refresh_token-replaced jti now new row found (t ∷ ts) h = ground (
  arith,
  get_refresh_token-replaced jti now new row found ts,
  scalar-holds (λ (x : RefreshToken). x.jti == jti) ts found,
)

module _ (c : Crypto) (laws : IsCrypto c) where
  -- A token decodes to the same claims whenever it decodes.
  decode_token_same :
      (kind : TokenType) (now later : ℕ) (raw : String) (a b : TokenClaims)
      → decode_token c kind now raw ≡ ok a
      → decode_token c kind later raw ≡ ok b
      → a ≡ b
  unfolding decode_token
  decode_token_same kind now later raw a b = go (c.decode now raw) (c.decode later raw) refl refl
    where
      go :
          (o p : Option Payload)
          → c.decode now raw ≡ o
          → c.decode later raw ≡ p
          → decoded c kind o ≡ ok a
          → decoded c kind p ≡ ok b
          → a ≡ b
      go none p eo ep h k = absurd (cc)
      go (some o) none eo ep h k = absurd (cc)
      go (some o) (some p) eo ep h k = cc (laws.decode_same now later raw o p eo ep)

module _ (text : TextOps) (c : Crypto) (laws : IsCrypto c) (settings : Settings) where
  -- Under the laws of the token library: after a rotation, with no other change of the store, the
  -- same token is refused with `AuthenticationError` at every instant at which it still decodes,
  -- and the family of its record is left with no live token.
  pub replay_revokes_family :
      (raw : String) (decode_now now : ℕ) (access_jti refresh_jti : Uuid) (db db' : Store)
      (pair : TokenPair)
      → rotate_refresh_token text c settings raw decode_now now access_jti refresh_jti db
        ≡ (ok pair, db')
      → (decode_later later : ℕ) (access_jti' refresh_jti' : Uuid) (claims : TokenClaims)
        (found : RefreshToken)
      → decode_token c refresh decode_later raw ≡ ok claims
      → get_refresh_token claims.jti db ≡ some found
      → ((rotate_refresh_token text c settings raw decode_later later access_jti' refresh_jti'
            db').0
          ≡ err authentication)
        × (live_count found.family_id
              (rotate_refresh_token text c settings raw decode_later later access_jti' refresh_jti'
                db').1
            ≡ 0)
  unfolding rotate_refresh_token
  replay_revokes_family raw decode_now now access_jti refresh_jti db db' pair h decode_later later
        access_jti' refresh_jti' claims found d g =
      let r =
        rotate_refresh_token-Rotated text c settings raw decode_now now access_jti refresh_jti db
          db' pair h in
      let same =
        decode_token_same c laws refresh decode_now decode_later raw r.claims claims r.decoded d in
      let stored : get_refresh_token claims.jti db ≡ some r.found = rw same at r.stored in
      let one : found ≡ r.found = cc in
      let after : get_refresh_token claims.jti db' ≡ some (supersede now refresh_jti found) =
        rw (r.written, ← one)
          (unfold get_refresh_token in
            get_refresh_token-replaced claims.jti now refresh_jti _ found db.refresh_tokens g) in
      let matches : refresh_token_matches c raw found.token_hash ≡ true = rw one r.matches in
      rw (d, after, matches)
        (
          refl,
          rw (live_count-revoke_refresh_family found.family_id found.family_id later db')
              (ground arith),
        )
