-- ===== src/Auth/Families.antt =====
-- services/auth_service.py and repositories/identity.py: the live tokens of a refresh family.
use tenant_intelligence_plat.Base.{
  ℕ, ◌+◌, ◌≤◌, ◌≡◌, refl, Bool, true, false, ◌&&◌, some, inl, inr, List, [], ◌∷◌, ◌++◌, arith, ◌==◌,
  if◌then◌else◌, length, length-append, select, update_where, Has,
}
use tenant_intelligence_plat.Identity.Models.{Uuid, RefreshToken, Store}
use tenant_intelligence_plat.Identity.Repository.{is_live, revoke_refresh_family}
use tenant_intelligence_plat.Auth.Service.{set_token, add_token}

abbrev pub live_in : Uuid → RefreshToken → Bool
live_in family t = t.family_id == family && is_live t

abbrev pub live_count : Uuid → Store → ℕ
live_count family db = length (select (live_in family) db.refresh_tokens)

-- No family has two live tokens.
abbrev pub OneLive : Store → Type 0
OneLive db = (family : Uuid) → live_count family db ≤ 1

revoked_none :
    (family g : Uuid) (now : ℕ) (ts : List RefreshToken)
    → length (
        select (live_in g) (
          update_where
            (λ t. t.family_id == family && is_live t)
            (λ t. record t { revoked_at = some now })
            ts))
      ≡ (if family == g then 0 else length (select (live_in g) ts))
revoked_none family g now [] = ground arith
revoked_none family g now (t ∷ ts) = ground (arith, revoked_none family g now ts)

-- Revoking a family leaves it no live token, and the other families theirs.
pub live_count-revoke_refresh_family :
    (family g : Uuid) (now : ℕ) (db : Store)
    → live_count g (revoke_refresh_family family now db)
      ≡ (if family == g then 0 else live_count g db)
unfolding revoke_refresh_family
live_count-revoke_refresh_family family g now db = revoked_none family g now db.refresh_tokens

module _ (jti : Uuid) (f : RefreshToken → RefreshToken)
    (dies : (t : RefreshToken) → is_live (f t) ≡ false) where
  update-le :
      (g : Uuid) (ts : List RefreshToken)
      → length (select (live_in g) (update_where (λ t. t.jti == jti) f ts))
        ≤ length (select (live_in g) ts)
  update-le g [] = omega arith
  update-le g (t ∷ ts) = ground (arith, update-le g ts, dies t)

  update-lt :
      (g : Uuid) (t : RefreshToken) (ts : List RefreshToken)
      → Has t ts
      → t.jti ≡ jti
      → live_in g t ≡ true
      → length (select (live_in g) (update_where (λ t. t.jti == jti) f ts)) + 1
        ≤ length (select (live_in g) ts)
  update-lt g t [] h e l = elim h [ ]
  update-lt g t (x ∷ ts) (inl same) e l = rw (← same) (ground (arith, update-le g ts, dies t))
  update-lt g t (x ∷ ts) (inr h) e l = ground (arith, update-lt g t ts h e l, dies x)

select-append :
    (p : RefreshToken → Bool) (xs ys : List RefreshToken)
    → select p (xs ++ ys) ≡ select p xs ++ select p ys
select-append p [] ys = refl
select-append p (x ∷ xs) ys = ground (arith, select-append p xs ys)

-- A new token adds to its own family only.
pub live_count-add_token :
    (g : Uuid) (t : RefreshToken) (db : Store)
    → live_count g (add_token t db) ≡ live_count g db + (if live_in g t then 1 else 0)
live_count-add_token g t db =
    rw (select-append (live_in g) db.refresh_tokens (t ∷ [])) (rw length-append (ground arith))

module _ (jti : Uuid) (f : RefreshToken → RefreshToken)
    (dies : (t : RefreshToken) → is_live (f t) ≡ false) (g : Uuid) where
  pub live_count-set_token : (db : Store) → live_count g (set_token jti f db) ≤ live_count g db
  live_count-set_token db = update-le jti f dies g db.refresh_tokens

  pub live_count-set_token_lt :
      (t : RefreshToken) (db : Store)
      → Has t db.refresh_tokens
      → t.jti ≡ jti
      → live_in g t ≡ true
      → live_count g (set_token jti f db) + 1 ≤ live_count g db
  live_count-set_token_lt t db = update-lt jti f dies g t db.refresh_tokens
