-- ===== src/Auth/Security.antt =====
-- core/security.py: tokens issued and verified, and the digests that are stored. Instants are
-- whole seconds. The JWT library, SHA-256, the password hasher and `UUID(...)` are parameters.
use tenant_intelligence_plat.Base.{
  ℕ, ◌+◌, ◌*◌, ◌≤◌, ◌<◌, ◌≡◌, String, Bool, false, not, Option, none, some, str_eq, if◌then◌else◌,
}
use tenant_intelligence_plat.Errors.{authentication}
use tenant_intelligence_plat.Exec.{Result, ok, err}
use tenant_intelligence_plat.Identity.Models.{Uuid}

pub data TokenType : Type 0 where
  access refresh : TokenType

abbrev pub token_type_text : TokenType → String
token_type_text access = "access"
token_type_text refresh = "refresh"

-- the claims as they stand in the token
pub record Payload : Type 0 where
  pub sub : String
  pub tenant_id : String
  pub token_type : String
  pub jti : String
  pub iat : ℕ
  pub exp : ℕ

pub record Crypto : Type 0 where
  -- `jwt.encode` with the configured secret and algorithm
  pub encode : Payload → String
  -- `jwt.decode` at an instant: signature, required claims, `iat` and `exp` are verified
  pub decode : ℕ → String → Option Payload
  pub show_uuid : Uuid → String
  -- `UUID(text)`, with `none` for a `ValueError`
  pub parse_uuid : String → Option Uuid
  pub sha256 : String → String
  -- `password_hasher.verify`, with `none` for a malformed hash
  pub verify_hash : String → String → Option Bool

-- What is documented of PyJWT and of `UUID`.
pub record IsCrypto (c : Crypto) : Type 0 where
  pub decode-encode :
      (now : ℕ) (p : Payload) → p.iat ≤ now → now < p.exp → c.decode now (c.encode p) ≡ some p
  pub decode_encoded :
      (now : ℕ) (p q : Payload) → c.decode now (c.encode p) ≡ some q → (q ≡ p) × (now < p.exp)
  -- the payload is a function of the token
  pub decode_same :
      (now later : ℕ) (token : String) (p q : Payload)
      → c.decode now token ≡ some p
      → c.decode later token ≡ some q
      → p ≡ q
  pub parse-show : (id : Uuid) → c.parse_uuid (c.show_uuid id) ≡ some id

pub record Settings : Type 0 where
  pub jwt_access_token_minutes : ℕ
  pub jwt_refresh_token_days : ℕ

pub record IssuedToken : Type 0 where
  pub value : String
  pub jti : Uuid
  pub expires_at : ℕ

pub record TokenClaims : Type 0 where
  pub user_id : Uuid
  pub tenant_id : Uuid
  pub token_type : TokenType
  pub jti : Uuid
  pub issued_at : ℕ
  pub expires_at : ℕ

module _ (c : Crypto) where
  unfoldable pub verify_password : String → String → Bool
  verify_password password password_hash = elim (c.verify_hash password password_hash) [
    | none ↦ false
    | some valid ↦ valid
  ]

  unfoldable pub hash_refresh_token : String → String
  hash_refresh_token token = c.sha256 token

  unfoldable pub refresh_token_matches : String → String → Bool
  unfolding hash_refresh_token
  refresh_token_matches token stored_hash = str_eq (hash_refresh_token token) stored_hash

  -- the lifetime in seconds
  abbrev pub lifetime_of : Settings → TokenType → Option ℕ → ℕ
  lifetime_of settings token_type (some lifetime) = lifetime
  lifetime_of settings access none = settings.jwt_access_token_minutes * 60
  lifetime_of settings refresh none = settings.jwt_refresh_token_days * 86400

  abbrev pub payload_of : Uuid → Uuid → TokenType → Uuid → ℕ → ℕ → Payload
  payload_of user_id tenant_id token_type jti issued_at expires_at = record {
    sub = c.show_uuid user_id;
    tenant_id = c.show_uuid tenant_id;
    token_type = token_type_text token_type;
    jti = c.show_uuid jti;
    iat = issued_at;
    exp = expires_at;
  }

  -- The identifier and the clock are arguments: `uuid4()` and `utc_now()` where the caller gives none.
  unfoldable pub issue_token :
      Settings → Uuid → Uuid → TokenType → ℕ → Option ℕ → Uuid → IssuedToken
  issue_token settings user_id tenant_id token_type issued_at lifetime jti =
      let expires_at = issued_at + lifetime_of settings token_type lifetime in
      record {
        value = c.encode (payload_of user_id tenant_id token_type jti issued_at expires_at);
        jti = jti;
        expires_at = expires_at;
      }

  -- `UUID(...)` of the three identifiers, in the order of the constructor's arguments
  abbrev pub claims_of :
      TokenType → Payload → Option Uuid → Option Uuid → Option Uuid → Result TokenClaims
  claims_of token_type p (some user_id) (some tenant_id) (some jti) = ok (record {
    user_id = user_id;
    tenant_id = tenant_id;
    token_type = token_type;
    jti = jti;
    issued_at = p.iat;
    expires_at = p.exp;
  })
  claims_of token_type p _ _ _ = err authentication

  abbrev pub decoded : TokenType → Option Payload → Result TokenClaims
  decoded expected_type none = err authentication
  decoded expected_type (some p) =
      if not (str_eq p.token_type (token_type_text expected_type))
      then err authentication
      else claims_of expected_type p (c.parse_uuid p.sub) (c.parse_uuid p.tenant_id)
          (c.parse_uuid p.jti)

  -- `token_type not in ("access", "refresh")` never holds past the first test, since the expected
  -- type is one of the two.
  unfoldable pub decode_token : TokenType → ℕ → String → Result TokenClaims
  decode_token expected_type now token = decoded expected_type (c.decode now token)
