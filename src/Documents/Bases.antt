-- ===== src/Documents/Bases.antt =====
-- services/documents/knowledge_base_service.py: the deletion of a knowledge base, given the object
-- store, as api/routes/knowledge_bases.py gives it. `remove_ok` says
-- for which keys the object store answers.
pub mod Closing
use tenant_intelligence_plat.Base.{
  ℕ, String, Bool, true, false, not, ◌&&◌, Option, none, some, List, [], ◌∷◌, ◌==◌, if◌then◌else◌,
  any, select, update_where,
}
use tenant_intelligence_plat.Errors.{unexpected}
use tenant_intelligence_plat.Exec.{ok, err, Exec, gets, ◌>>=◌}
use tenant_intelligence_plat.Identity.Models.{Uuid}
use tenant_intelligence_plat.Auth.Context.{TenantContext}
use tenant_intelligence_plat.Documents.Models.{
  kb_deleted, KnowledgeBase, StoredFile, Library, is_live,
}
use tenant_intelligence_plat.Documents.Policy.{require}
use tenant_intelligence_plat.Documents.Files.{Platform, in_library, remove_object, mark_deleted}

abbrev pub is_open : Uuid → Uuid → StoredFile → Bool
is_open tenant_id kb_id f = f.tenant_id == tenant_id && (f.knowledge_base_id == kb_id && is_live f)

abbrev pub open_files : Uuid → Uuid → Library → List StoredFile
open_files tenant_id kb_id db = select (is_open tenant_id kb_id) db.files

-- the loop over the objects, which ends at the first that the object store does not remove
abbrev pub remove_objects : (String → Bool) → List StoredFile → Exec Platform Unit
remove_objects remove_ok [] w = (ok tt, w)
remove_objects remove_ok (f ∷ fs) w =
    let rest = remove_objects remove_ok fs (remove_object f.object_key w) in
    if remove_ok f.object_key then rest else (err unexpected, w)

abbrev pub close_base : KnowledgeBase → List StoredFile → ℕ → Library → Library
close_base row files now db = record db {
  files =
      update_where (λ x. any (λ (f : StoredFile). f.id == x.id) files) (mark_deleted now) db.files;
  knowledge_bases =
      update_where (λ k. k.id == row.id) (λ k. record k { status = kb_deleted }) db.knowledge_bases;
}

abbrev pub commit_closing : KnowledgeBase → List StoredFile → ℕ → Exec Platform Unit
commit_closing row files now w = (ok tt, record w { library = close_base row files now w.library })

unfoldable pub delete_base : TenantContext → Uuid → (String → Bool) → ℕ → Exec Platform Unit
delete_base context kb_id remove_ok now = do
  row ← in_library (require context kb_id true false)
  files ← gets (λ w. open_files context.tenant.id kb_id w.library)
  removed ← remove_objects remove_ok files
  commit_closing row files now
