-- ===== src/Auth/Rotation/Exchange.antt =====
-- services/auth_service.py: what a successful rotation leaves in the table of refresh tokens.
use tenant_intelligence_plat.Base.{
  ℕ, ◌<◌, ◌≡◌, refl, sym, ap, ◌∙◌, String, Bool, true, false, some, none, inl, inr, List, [], ◌∷◌,
  ◌++◌, arith, ◌==◌, ==_iff, Bool-cases, Has, Has-append, Has-append_left, Has-append_right,
  Has-update_where, update_where, scalar-Has, if◌then◌else◌,
}
use tenant_intelligence_plat.Exec.{ok}
use tenant_intelligence_plat.Identity.Models.{Uuid, TextOps, RefreshToken, Store}
use tenant_intelligence_plat.Identity.Repository.{get_refresh_token, is_live}
use tenant_intelligence_plat.Auth.Security.{Crypto, Settings, refresh_token_matches, issue_token}
use tenant_intelligence_plat.Auth.Service.{TokenPair, rotate_refresh_token, supersede, issued_row}
use tenant_intelligence_plat.Auth.Rotation.{rotate_refresh_token-Rotated}

-- The presented token is used up for a new one of its family, and no other token changes.
pub record Exchanged (c : Crypto) (raw : String) (now : ℕ) (refresh_jti : Uuid) (db db' : Store)
    : Type 0 where
  pub found : RefreshToken
  pub was_stored : Has found db.refresh_tokens
  pub was_presented : refresh_token_matches c raw found.token_hash ≡ true
  pub was_live : found.revoked_at ≡ none
  pub unexpired : now < found.expires_at
  pub used_up :
      (t : RefreshToken)
      → Has t db'.refresh_tokens
      → t.jti ≡ found.jti
      → (t.revoked_at ≡ some now) × (t.replaced_by_jti ≡ some refresh_jti)
  pub successor :
      (refresh_jti == found.jti) ≡ false
      → (t : RefreshToken) × Has t db'.refresh_tokens
        × (t.jti ≡ refresh_jti)
        × (t.family_id ≡ found.family_id)
        × (t.revoked_at ≡ none)
  pub kept :
      (t : RefreshToken)
      → Has t db.refresh_tokens
      → (t.jti == found.jti) ≡ false
      → Has t db'.refresh_tokens
  pub no_other :
      (t : RefreshToken)
      → Has t db'.refresh_tokens
      → (t.jti == found.jti) ≡ false
      → (t.jti == refresh_jti) ≡ false
      → Has t db.refresh_tokens

-- A row that an update passes over stays.
update_where-kept :
    (p : RefreshToken → Bool) (f : RefreshToken → RefreshToken) (t : RefreshToken)
    (ts : List RefreshToken)
    → Has t ts
    → p t ≡ false
    → Has t (update_where p f ts)
update_where-kept p f t [] h e = elim h [ ]
update_where-kept p f t (x ∷ xs) (inl same) e = inl (rw (sym same, e) refl)
update_where-kept p f t (x ∷ xs) (inr m) e = inr (update_where-kept p f t xs m e)

-- The new form of a row with the identifier is used up.
superseded :
    (now : ℕ) (new id : Uuid) (t b : RefreshToken)
    → t ≡ (if b.jti == id then supersede now new b else b)
    → t.jti ≡ id
    → (t.revoked_at ≡ some now) × (t.replaced_by_jti ≡ some new)
superseded now new id t b h e = elim (Bool-cases (b.jti == id)) [
  | inl hit ↦
      let same : t ≡ supersede now new b = rw hit at h in
      (
        ap (λ (x : RefreshToken). x.revoked_at) same,
        ap (λ (x : RefreshToken). x.replaced_by_jti) same,
      )
  | inr miss ↦
      let same : t ≡ b = rw miss at h in
      let id_b : b.jti ≡ id = sym (ap (λ (x : RefreshToken). x.jti) same) ∙ e in
      absurd (cc (sym miss ∙ (==_iff b.jti id).1 id_b))
]

-- A row of another identifier is an old row.
passed_over :
    (now : ℕ) (new id : Uuid) (t b : RefreshToken)
    → t ≡ (if b.jti == id then supersede now new b else b)
    → (t.jti == id) ≡ false
    → t ≡ b
passed_over now new id t b h e = elim (Bool-cases (b.jti == id)) [
  | inr miss ↦ rw miss at h
  | inl hit ↦
      let same : t ≡ supersede now new b = rw hit at h in
      let ids : t.jti ≡ b.jti = ap (λ (x : RefreshToken). x.jti) same in
      absurd (cc (sym e ∙ ap (λ i. i == id) ids ∙ hit))
]

live-unrevoked : (t : RefreshToken) → is_live t ≡ true → t.revoked_at ≡ none
live-unrevoked t h = ground (arith, h)

module _ (text : TextOps) (c : Crypto) (settings : Settings) where
  -- A rotation that returns a pair was given a stored, live and unexpired token. Every row of that
  -- token is then revoked and points to the new token; the new one, where its identifier is another,
  -- is stored live in the same family; each other row stays as it was, and no other row is added.
  pub rotate_refresh_token-Exchanged :
      (raw : String) (decode_now now : ℕ) (access_jti refresh_jti : Uuid) (db db' : Store)
      (pair : TokenPair)
      → rotate_refresh_token text c settings raw decode_now now access_jti refresh_jti db
        ≡ (ok pair, db')
      → Exchanged c raw now refresh_jti db db'
  unfolding get_refresh_token issue_token
  rotate_refresh_token-Exchanged raw decode_now now access_jti refresh_jti db db' pair h =
      let r =
        rotate_refresh_token-Rotated text c settings raw decode_now now access_jti refresh_jti db
          db' pair h in
      let row =
        issued_row text c settings r.user.id r.tenant.id r.found.family_id now refresh_jti in
      let old : RefreshToken → Bool = λ t. t.jti == r.found.jti in
      let change = supersede now refresh_jti in
      let rows : db'.refresh_tokens ≡ update_where old change (db.refresh_tokens ++ (row ∷ [])) =
        ap (λ (s : Store). s.refresh_tokens) r.written in
      record {
        found = r.found;
        was_stored = scalar-Has _ r.found db.refresh_tokens r.stored;
        was_presented = r.matches;
        was_live = live-unrevoked r.found r.live;
        unexpired = r.unexpired;
        used_up = λ t m e.
            let (b, hb, same) =
              Has-update_where old change t (db.refresh_tokens ++ (row ∷ [])) (rw rows at m) in
            superseded now refresh_jti r.found.jti t b same e;
        successor = λ other. (
          row,
          rw rows (
              update_where-kept old change row (db.refresh_tokens ++ (row ∷ []))
                (Has-append_right row db.refresh_tokens (row ∷ []) (inl refl)) other),
          refl,
          refl,
          refl,
        );
        kept = λ t m e. rw rows (
            update_where-kept old change t (db.refresh_tokens ++ (row ∷ []))
              (Has-append_left t db.refresh_tokens (row ∷ []) m) e);
        no_other = λ t m e e2.
            let (b, hb, same) =
              Has-update_where old change t (db.refresh_tokens ++ (row ∷ [])) (rw rows at m) in
            let q = passed_over now refresh_jti r.found.jti t b same e in
            elim (Has-append b db.refresh_tokens (row ∷ []) hb) [
              | inl before ↦ rw q before
              | inr (inr never) ↦ elim never [ ]
              | inr (inl fresh) ↦ absurd (
                  cc (
                    sym e2
                    ∙ (==_iff t.jti refresh_jti).1 (ap (λ (x : RefreshToken). x.jti) (q ∙ fresh))))
            ];
      }
