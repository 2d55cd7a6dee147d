-- ===== src/Documents/Policy.antt =====
-- repositories/documents.py (`get_kb`, `get_file`, `find_duplicate`) and
-- services/documents/access_policy.py: who may use a knowledge base.
use tenant_intelligence_plat.Base.{String, Bool, not, ◌&&◌, ◌||◌, Option, ◌==◌, str_eq, scalar}
use tenant_intelligence_plat.Errors.{authorization, resource_not_found}
use tenant_intelligence_plat.Exec.{Exec, pure, gets, or_raise, raise_if, ◌>>=◌, ◌>>◌}
use tenant_intelligence_plat.Identity.Models.{Uuid}
use tenant_intelligence_plat.Auth.Context.{TenantContext}
use tenant_intelligence_plat.Documents.Models.{
  KnowledgeBase, is_kb_active, is_kb_deleted, StoredFile, is_deleted, is_live, Library,
}

unfoldable pub get_kb : Uuid → Uuid → Bool → Library → Option KnowledgeBase
get_kb tenant_id knowledge_base_id active db =
    scalar
      (λ k.
        (k.tenant_id == tenant_id && (k.id == knowledge_base_id && not (is_kb_deleted k.status)))
        && (not active || is_kb_active k.status))
      db.knowledge_bases

unfoldable pub get_file : Uuid → Uuid → Bool → Library → Option StoredFile
get_file tenant_id file_id include_deleted db =
    scalar
      (λ f.
        (f.tenant_id == tenant_id && f.id == file_id)
        && (include_deleted || not (is_deleted f.processing_status)))
      db.files

unfoldable pub find_duplicate : Uuid → Uuid → String → Library → Option StoredFile
find_duplicate tenant_id kb_id checksum db =
    scalar
      (λ f.
        f.tenant_id == tenant_id
        && (f.knowledge_base_id == kb_id && (str_eq f.checksum checksum && is_live f)))
      db.files

abbrev pub is_owner : TenantContext → KnowledgeBase → Bool
is_owner context kb = kb.created_by == context.user.id

abbrev pub may_manage : TenantContext → KnowledgeBase → Bool
may_manage context kb = context.user.is_tenant_admin || is_owner context kb

-- `KnowledgeBaseAccessPolicy.require`
unfoldable pub require : TenantContext → Uuid → Bool → Bool → Exec Library KnowledgeBase
require context knowledge_base_id manage active = do
  found ← gets (get_kb context.tenant.id knowledge_base_id active)
  kb ← or_raise found resource_not_found
  raise_if (manage && not (may_manage context kb)) authorization
  raise_if (not (context.user.is_tenant_admin) && not (is_owner context kb)) resource_not_found
  pure kb
