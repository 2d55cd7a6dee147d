-- ===== src/Documents/Access.antt =====
-- services/documents/access_policy.py: what a granted knowledge base is.
use mathlib.Core.Path.{subst}
use tenant_intelligence_plat.Base.{
  ◌≡◌, refl, Bool, true, false, not, ◌&&◌, ◌||◌, Option, none, some, inl, inr, ◌==◌, Has,
  scalar-Has, scalar-holds, Bool-cases, arith,
}
use tenant_intelligence_plat.Errors.{authorization, resource_not_found}
use tenant_intelligence_plat.Exec.{ok, Exec, pure, or_raise, raise_if, ◌>>=◌, ◌>>◌}
use tenant_intelligence_plat.Identity.Models.{Uuid}
use tenant_intelligence_plat.Auth.Context.{TenantContext}
use tenant_intelligence_plat.Documents.Models.{KnowledgeBase, is_kb_active, is_kb_deleted, Library}
use tenant_intelligence_plat.Documents.Policy.{get_kb, is_owner, may_manage, require}

-- The knowledge base is one of the user's tenant, not deleted, owned by the user where the user is
-- no administrator, and active where that is asked for.
pub record Granted (context : TenantContext) (id : Uuid) (active : Bool) (db : Library)
    (kb : KnowledgeBase) : Type 0 where
  pub stored : Has kb db.knowledge_bases
  pub asked_for : kb.id ≡ id
  pub of_tenant : kb.tenant_id ≡ context.tenant.id
  pub present : is_kb_deleted kb.status ≡ false
  pub permitted : (context.user.is_tenant_admin || kb.created_by == context.user.id) ≡ true
  pub usable : active ≡ true → is_kb_active kb.status ≡ true

module _ (context : TenantContext) (id : Uuid) (manage active : Bool) (db : Library) where
  require-db : (require context id manage active db).1 ≡ db
  unfolding require
  require-db = go (get_kb context.tenant.id id active db)
    where
      checked : KnowledgeBase → Exec Library KnowledgeBase
      checked kb =
          raise_if (manage && not (may_manage context kb)) authorization
          >> (raise_if (not context.user.is_tenant_admin && not (is_owner context kb))
                resource_not_found
              >> pure kb)

      go : (o : Option KnowledgeBase) → ((or_raise o resource_not_found >>= checked) db).1 ≡ db
      go none = refl
      go (some kb) = elim (Bool-cases (manage && not (may_manage context kb))) [
        | inl no_manager ↦ rw no_manager refl
        | inr manager ↦
            elim (Bool-cases (not context.user.is_tenant_admin && not (is_owner context kb))) [
              | inl hidden ↦ rw (manager, hidden) refl
              | inr shown ↦ rw (manager, shown) refl
            ]
      ]

  granted :
      (kb found : KnowledgeBase)
      → get_kb context.tenant.id id active db ≡ some found
      → (not context.user.is_tenant_admin && not (is_owner context found)) ≡ false
      → found ≡ kb
      → Granted context id active db kb
  unfolding get_kb
  granted kb found e shown same = subst (Granted context id active db) same (record {
    stored = scalar-Has _ found db.knowledge_bases e;
    asked_for = ground (arith, holds);
    of_tenant = ground (arith, holds);
    present = ground (arith, holds);
    permitted = ground (arith, shown);
    usable = λ a. ground (arith, holds, a);
  })
    where
      holds :
          ((found.tenant_id == context.tenant.id
              && (found.id == id && not (is_kb_deleted found.status)))
            && (not active || is_kb_active found.status))
          ≡ true
      holds =
          scalar-holds
            (λ (k : KnowledgeBase).
              (k.tenant_id == context.tenant.id && (k.id == id && not (is_kb_deleted k.status)))
              && (not active || is_kb_active k.status))
            db.knowledge_bases found e

  -- A knowledge base that the policy returns is stored under the identifier asked for, in the
  -- tenant of the context, not deleted, owned by the user unless its administrator flag is set, and
  -- active where that is asked for. No call of the policy changes the store.
  pub require-Granted :
      ((kb : KnowledgeBase)
        → (require context id manage active db).0 ≡ ok kb
        → Granted context id active db kb)
      × ((require context id manage active db).1 ≡ db)
  unfolding require
  require-Granted = (λ kb h. go kb (get_kb context.tenant.id id active db) refl h, require-db)
    where
      checked : KnowledgeBase → Exec Library KnowledgeBase
      checked kb =
          raise_if (manage && not (may_manage context kb)) authorization
          >> (raise_if (not context.user.is_tenant_admin && not (is_owner context kb))
                resource_not_found
              >> pure kb)

      go :
          (kb : KnowledgeBase) (o : Option KnowledgeBase)
          → get_kb context.tenant.id id active db ≡ o
          → ((or_raise o resource_not_found >>= checked) db).0 ≡ ok kb
          → Granted context id active db kb
      go kb none e h = absurd (cc)
      go kb (some found) e h = elim (Bool-cases (manage && not (may_manage context found))) [
        | inl no_manager ↦ absurd (cc (rw no_manager at h))
        | inr manager ↦
            elim (Bool-cases (not context.user.is_tenant_admin && not (is_owner context found))) [
              | inl hidden ↦ absurd (cc (rw (manager, hidden) at h))
              | inr shown ↦ granted kb found e shown (cc (rw (manager, shown) at h))
            ]
      ]
