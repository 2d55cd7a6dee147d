-- ===== src/Documents/Worker/Staleness.antt =====
-- workers/document_tasks.py: the last transaction of `_process` after a deletion.
use tenant_intelligence_plat.Base.{
  ℕ, ◌≡◌, refl, Bool, true, ◌&&◌, some, ◌==◌, any-Has, scalar-holds, scalar-Has, arith,
}
use tenant_intelligence_plat.Documents.Models.{ready, StoredFile, Library, documents_hold}
use tenant_intelligence_plat.Documents.Attempt.{prepared, Ingestion}
use tenant_intelligence_plat.Documents.Worker.{
  find_file, is_current, mark_ready, publication, exists_file, publish,
}
use tenant_intelligence_plat.Documents.Worker.Exhaustion.{scalar-update_where}

-- Whatever happened to the file since the row was loaded, a deletion included, a worker whose
-- loaded row was current makes the file ready and leaves `deleted_at` as it is, where the
-- database still has the file and the commit succeeds.
pub publish-ignores_deletion :
    (held row : StoredFile) (version now : ℕ) (work : Ingestion) (db : Library)
    → is_current version held ≡ true
    → find_file held.tenant_id held.id db ≡ some row
    → documents_hold (publication held version work now db) ≡ true
    → (after : Library) × (f : StoredFile) × (publish held version work now db ≡ prepared after)
      × (find_file held.tenant_id held.id after ≡ some f)
      × (f.processing_status ≡ ready)
      × (f.deleted_at ≡ row.deleted_at)
unfolding publish
publish-ignores_deletion held row version now work db current found accepted = (
  publication held version work now db,
  mark_ready held version work now row,
  rw (open_gate, accepted) refl,
  scalar-update_where is_row (λ x. x.id == held.id) (mark_ready held version work now) row db.files
      (λ x. refl) found (ground (arith, scalar-holds is_row db.files row found)),
  refl,
  refl,
)
  where
    is_row : StoredFile → Bool
    is_row f = f.tenant_id == held.tenant_id && f.id == held.id

    open_gate : (exists_file held db && is_current version held) ≡ true
    open_gate = ground (
      arith,
      current,
      any-Has is_row row db.files (scalar-Has is_row row db.files found)
          (scalar-holds is_row db.files row found),
    )
