-- ===== src/Examples/Identities.antt =====
-- A tenant with an administrator, a user and a refresh token.
use tenant_intelligence_plat.Base.{
  ◌≡◌, refl, String, true, false, none, some, inl, inr, List, [], ◌∷◌, ◌==◌, arith, sort_by,
  Bool-cases,
}
use tenant_intelligence_plat.Errors.{authentication}
use tenant_intelligence_plat.Exec.{ok, err}
use tenant_intelligence_plat.Identity.Models.{
  active, inactive, Tenant, User, Role, UserRole, RefreshToken, Store, is_normalized,
}
use tenant_intelligence_plat.Identity.Repository.{
  active_administrator_ids, get_refresh_token, get_identity, get_roles_for_user,
}
use tenant_intelligence_plat.Identity.Constraints.{
  constraints_hold, tenants_hold, users_hold, roles_hold, assignments_hold, tokens_hold,
}
use tenant_intelligence_plat.TenantAdmin.Requests.{
  Request, create_role_request, assign_roles_request, update_user_request, serve_all,
}
use tenant_intelligence_plat.TenantAdmin.Survivors.{HasAdministrator}
use tenant_intelligence_plat.TenantAdmin.Survival.{serve_all-HasAdministrator}
use tenant_intelligence_plat.Auth.Security.{
  access, refresh, TokenClaims, issue_token, decode_token, hash_refresh_token,
  refresh_token_matches,
}
use tenant_intelligence_plat.Auth.Service.{
  TokenPair, issued_row, issued_pair, replaced, replace_token, rotate_refresh_token,
}
use tenant_intelligence_plat.Auth.Context.{TenantContext, get_tenant_context}
use tenant_intelligence_plat.Auth.Families.{live_count, OneLive}
use tenant_intelligence_plat.Auth.RoundTrip.{decode_token-issue_token}
use tenant_intelligence_plat.Auth.Verified.{IsVerified, get_tenant_context-IsVerified}
use tenant_intelligence_plat.Auth.Rotation.Exchange.{Exchanged, rotate_refresh_token-Exchanged}
use tenant_intelligence_plat.Auth.Rotation.Single.{Reach, here, next, rotates, Reach-OneLive}
use tenant_intelligence_plat.Auth.Rotation.Replay.{replay_revokes_family}
use tenant_intelligence_plat.Examples.Tokens.{crypto, crypto-IsCrypto, text_ops, settings}

abbrev pub tenant : Tenant
tenant = record { id = 1; name = "Acme"; code = "acme"; status = active }

abbrev pub administrator : User
administrator = record {
  id = 10;
  tenant_id = 1;
  email = "ada";
  full_name = none;
  password_hash = "secret";
  status = active;
  is_tenant_admin = true;
  created_at = 0;
}

abbrev pub member : User
member = record {
  id = 11;
  tenant_id = 1;
  email = "bob";
  full_name = none;
  password_hash = "word";
  status = active;
  is_tenant_admin = false;
  created_at = 1;
}

abbrev pub administrator_role : Role
administrator_role = record {
  id = 20;
  tenant_id = 1;
  name = "administrator";
  description = none;
  created_at = 0;
}

abbrev pub assignment : UserRole
assignment = record { user_id = 10; role_id = 20; tenant_id = 1 }

abbrev sample_token : RefreshToken
sample_token = issued_row text_ops crypto settings 10 1 5 100 7

abbrev pub store : Store
store = record {
  tenants = tenant ∷ [];
  users = administrator ∷ member ∷ [];
  roles = administrator_role ∷ [];
  user_roles = assignment ∷ [];
  refresh_tokens = [];
}

abbrev token_store : Store
token_store = record store { refresh_tokens = sample_token ∷ [] }

abbrev raw : String
raw = (issue_token crypto settings 10 1 refresh 100 none 7).value

abbrev pair : TokenPair
pair = issued_pair text_ops crypto settings 10 1 200 200 8 9

abbrev rotated_store : Store
rotated_store =
    replaced text_ops crypto settings sample_token administrator tenant 200 9 token_store

abbrev requests : List Request
requests =
    create_role_request 1 21 5 "analyst" none
    ∷ assign_roles_request 1 10 []
    ∷ update_user_request 1 10 none inactive none
    ∷ assign_roles_request 1 11 (20 ∷ [])
    ∷ update_user_request 1 10 none inactive none
    ∷ []

store-holds : constraints_hold text_ops store ≡ true
unfolding constraints_hold tenants_hold users_hold roles_hold assignments_hold tokens_hold
    is_normalized
store-holds = refl

store-HasAdministrator : HasAdministrator 1 store
unfolding active_administrator_ids sort_by
store-HasAdministrator = (10, inl refl)

serve_all-HasAdministrator_example :
    (constraints_hold text_ops (serve_all text_ops requests store) ≡ true)
    × HasAdministrator 1 (serve_all text_ops requests store)
serve_all-HasAdministrator_example =
    serve_all-HasAdministrator text_ops 1 requests store store-holds store-HasAdministrator

rotation :
    rotate_refresh_token text_ops crypto settings raw 200 200 8 9 token_store
    ≡ (ok pair, rotated_store)
unfolding rotate_refresh_token decode_token issue_token get_refresh_token hash_refresh_token
    refresh_token_matches get_identity replace_token constraints_hold tenants_hold users_hold
    roles_hold assignments_hold tokens_hold is_normalized
rotation = refl

rotate_refresh_token-Exchanged_example : Exchanged crypto raw 200 9 token_store rotated_store
rotate_refresh_token-Exchanged_example =
    rotate_refresh_token-Exchanged text_ops crypto settings raw 200 200 8 9 token_store
      rotated_store pair rotation

token_store-OneLive : OneLive token_store
token_store-OneLive family = elim (Bool-cases (5 == family)) [
  | inl same ↦ rw same (omega arith)
  | inr other ↦ rw other (omega arith)
]

abbrev after_rotation : Store
after_rotation = (rotate_refresh_token text_ops crypto settings raw 200 200 8 9 token_store).1

abbrev after_replay : Store
after_replay = (rotate_refresh_token text_ops crypto settings raw 300 300 12 13 after_rotation).1

rotations : Reach text_ops crypto settings token_store after_replay
rotations =
    next (next here (rotates raw 200 200 8 9 token_store))
      (rotates raw 300 300 12 13 after_rotation)

Reach-OneLive_example : OneLive after_replay
Reach-OneLive_example =
    Reach-OneLive text_ops crypto settings token_store after_replay token_store-OneLive rotations

abbrev claims : TokenClaims
claims = record {
  user_id = 10;
  tenant_id = 1;
  token_type = refresh;
  jti = 7;
  issued_at = 100;
  expires_at = 86500;
}

decoding : decode_token crypto refresh 300 raw ≡ ok claims
unfolding decode_token issue_token
decoding = refl

finding : get_refresh_token claims.jti token_store ≡ some sample_token
unfolding get_refresh_token issue_token
finding = refl

replay_revokes_family_example :
    ((rotate_refresh_token text_ops crypto settings raw 300 300 12 13 rotated_store).0
      ≡ err authentication)
    × (live_count 5
          (rotate_refresh_token text_ops crypto settings raw 300 300 12 13 rotated_store).1
        ≡ 0)
replay_revokes_family_example =
    replay_revokes_family text_ops crypto crypto-IsCrypto settings raw 200 200 8 9 token_store
      rotated_store pair rotation 300 300 12 13 claims sample_token decoding finding

abbrev access_token : String
access_token = (issue_token crypto settings 10 1 access 100 none 6).value

abbrev pub context : TenantContext
context = record { user = administrator; tenant = tenant; roles = administrator_role ∷ [] }

admission : get_tenant_context crypto 150 (some access_token) store ≡ ok context
unfolding get_tenant_context decode_token issue_token get_identity get_roles_for_user sort_by
admission = refl

get_tenant_context-IsVerified_example :
    (claims : TokenClaims) × (decode_token crypto access 150 access_token ≡ ok claims)
    × (claims.token_type ≡ access)
    × IsVerified store context claims
get_tenant_context-IsVerified_example =
    get_tenant_context-IsVerified crypto 150 access_token store context admission

decode_token-issue_token_example :
    decode_token crypto access 150 (issue_token crypto settings 10 1 access 100 none 6).value
    ≡ ok (record {
      user_id = 10;
      tenant_id = 1;
      token_type = access;
      jti = 6;
      issued_at = 100;
      expires_at = 1000;
    })
decode_token-issue_token_example =
    decode_token-issue_token crypto crypto-IsCrypto settings 10 1 access access 100 none 6 150
      (omega arith)
