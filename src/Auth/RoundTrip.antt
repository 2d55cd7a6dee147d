-- ===== src/Auth/RoundTrip.antt =====
-- core/security.py: what an issued token is accepted for.
use tenant_intelligence_plat.Base.{
  ℕ, ◌+◌, ◌≤◌, ◌≡◌, refl, Bool, true, false, ◌&&◌, Option, none, some, inl, inr, arith, ltb, str_eq,
  if◌then◌else◌, Bool-cases, Option-cases,
}
use tenant_intelligence_plat.Errors.{authentication}
use tenant_intelligence_plat.Exec.{ok, err}
use tenant_intelligence_plat.Identity.Models.{Uuid}
use tenant_intelligence_plat.Auth.Security.{
  Crypto, IsCrypto, Settings, TokenType, access, refresh, lifetime_of, payload_of, issue_token,
  decode_token, token_type_text, Payload,
}

abbrev pub same_type : TokenType → TokenType → Bool
same_type access access = true
same_type refresh refresh = true
same_type _ _ = false

same_type_text : (a b : TokenType) → str_eq (token_type_text a) (token_type_text b) ≡ same_type b a
same_type_text access access = refl
same_type_text access refresh = refl
same_type_text refresh access = refl
same_type_text refresh refresh = refl

same_type-eq : (a b : TokenType) → same_type a b ≡ true → a ≡ b
same_type-eq access access h = refl
same_type-eq access refresh h = cc
same_type-eq refresh access h = cc
same_type-eq refresh refresh h = refl

module _ (c : Crypto) (laws : IsCrypto c) (settings : Settings) where
  decode_window :
      (later : ℕ) (p : Payload)
      → p.iat ≤ later
      → c.decode later (c.encode p) ≡ (if ltb later p.exp then some p else none)
  decode_window later p issued = elim (Bool-cases (ltb later p.exp)) [
    | inl live ↦ rw live (laws.decode-encode later p issued (ground arith))
    | inr gone ↦ rw gone (elim (Option-cases (c.decode later (c.encode p))) [
      | inl nothing ↦ nothing
      | inr (q, found) ↦ absurd (ground (arith, laws.decode_encoded later p q found))
    ])
  ]

  -- Under the laws of the token library, and from the instant of issue on, an issued token
  -- decodes to its claims exactly for its own type and before it expires; for the other type, or
  -- from its expiry on, decoding raises `AuthenticationError`.
  pub decode_token-issue_token :
      (user_id tenant_id : Uuid) (kind expected : TokenType) (now : ℕ) (lifetime : Option ℕ)
      (jti : Uuid) (later : ℕ)
      → now ≤ later
      → decode_token c expected later
          (issue_token c settings user_id tenant_id kind now lifetime jti).value
        ≡ (if same_type expected kind && ltb later (now + lifetime_of c settings kind lifetime)
            then ok (record {
              user_id = user_id;
              tenant_id = tenant_id;
              token_type = kind;
              jti = jti;
              issued_at = now;
              expires_at = now + lifetime_of c settings kind lifetime;
            })
            else err authentication)
  unfolding decode_token issue_token
  decode_token-issue_token user_id tenant_id kind expected now lifetime jti later issued =
      let p =
        payload_of c user_id tenant_id kind jti now (now + lifetime_of c settings kind lifetime) in
      rw (decode_window later p issued) (elim (Bool-cases (ltb later p.exp)) [
        | inl live ↦ rw live (elim (Bool-cases (same_type expected kind)) [
          | inl same ↦
              rw
                (
                  same_type_text kind expected,
                  same,
                  laws.parse-show,
                  laws.parse-show,
                  laws.parse-show,
                )
                (rw (same_type-eq expected kind same))
          | inr other ↦ rw (same_type_text kind expected, other)
        ])
        | inr gone ↦ rw gone (ground arith)
      ])
