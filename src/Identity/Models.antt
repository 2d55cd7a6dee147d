-- ===== src/Identity/Models.antt =====
-- models/tenant.py, models/user.py, models/role.py and models/refresh_token.py. Identifiers and
-- instants are numbers, since the code only compares them; `updated_at` and the tenant's
-- `settings`, which no operation reads, are left out.
use tenant_intelligence_plat.Base.{ℕ, String, Bool, ◌&&◌, not, Option, List, str_eq}

abbrev pub Uuid : Type 0
Uuid = ℕ

-- What Python and the database do to a text: `str.strip`, `str.casefold`, `lower` and `trim`.
pub record TextOps : Type 0 where
  pub strip : String → String
  pub casefold : String → String
  pub lower : String → String
  pub trim : String → String

pub data EntityStatus : Type 0 where
  active inactive : EntityStatus

abbrev pub is_active : EntityStatus → Bool
is_active active = Bool.true
is_active inactive = Bool.false

pub record Tenant : Type 0 where
  pub id : Uuid
  pub name : String
  pub code : String
  pub status : EntityStatus

pub record User : Type 0 where
  pub id : Uuid
  pub tenant_id : Uuid
  pub email : String
  pub full_name : Option String
  pub password_hash : String
  pub status : EntityStatus
  pub is_tenant_admin : Bool
  pub created_at : ℕ

pub record Role : Type 0 where
  pub id : Uuid
  pub tenant_id : Uuid
  pub name : String
  pub description : Option String
  pub created_at : ℕ

pub record UserRole : Type 0 where
  pub user_id : Uuid
  pub role_id : Uuid
  pub tenant_id : Uuid

pub record RefreshToken : Type 0 where
  pub user_id : Uuid
  pub tenant_id : Uuid
  pub jti : Uuid
  pub family_id : Uuid
  pub token_hash : String
  pub expires_at : ℕ
  pub revoked_at : Option ℕ
  pub replaced_by_jti : Option Uuid

-- The identity tables of the platform database.
pub record Store : Type 0 where
  pub tenants : List Tenant
  pub users : List User
  pub roles : List Role
  pub user_roles : List UserRole
  pub refresh_tokens : List RefreshToken

abbrev pub administrator_role_name : String
administrator_role_name = "administrator"

module _ (text : TextOps) where
  unfoldable pub normalize_tenant_code : String → String
  normalize_tenant_code value = text.casefold (text.strip value)

  unfoldable pub normalize_email : String → String
  normalize_email value = text.casefold (text.strip value)

  unfoldable pub normalize_role_name : String → String
  normalize_role_name value = text.casefold (text.strip value)

  -- the checks `*_not_blank` and `*_normalized`, which the database evaluates
  unfoldable pub is_normalized : String → Bool
  is_normalized value = not (str_eq value "") && str_eq value (text.lower (text.trim value))
