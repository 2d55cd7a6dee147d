-- ===== src/Documents/Worker/Interleaving.antt =====
-- The commits of workers/document_tasks.py and services/documents/file_service.py in any order: what
-- retrieval finds of a file with an active version.
use mathlib.Core.Path.{subst}
use tenant_intelligence_plat.Base.{
  ℕ, ◌≤◌, ◌≡◌, refl, ap, String, Bool, true, false, ◌&&◌, Option, none, some, inl, inr, [], ◌∷◌,
  ◌==◌, Has-append, Bool-cases, arith,
}
use tenant_intelligence_plat.Identity.Models.{Uuid}
use tenant_intelligence_plat.Auth.Context.{TenantContext}
use tenant_intelligence_plat.Documents.Chunker.{ChunkText}
use tenant_intelligence_plat.Documents.Models.{StoredFile, Library, documents_hold}
use tenant_intelligence_plat.Documents.Files.{
  ValidatedUpload, new_file, insert_file, set_file, mark_deleting, mark_deleted, next_version,
}
use tenant_intelligence_plat.Documents.Worker.Preparation.{prepare-publishable}
use tenant_intelligence_plat.Documents.Worker.Generations.{IsServed}
use tenant_intelligence_plat.Documents.Attempt.{
  prepared, WorkerSettings, Attempt, Ingestion, prepare,
}
use tenant_intelligence_plat.Documents.Worker.{
  begin, when_current, start, mark_processing, find_file, is_current, publication, exists_file,
  settle_publication, publish, failed_row, retry_row, mark_failed, mark_retry_pending,
}
use tenant_intelligence_plat.Documents.Worker.Publication.{
  update_where-IsServed, publication-IsServed,
}

-- One commit of a worker or of the file service. A publication is of what some attempt prepared for
-- the row that its session holds, loaded at any time.
pub data Move (text : ChunkText) (settings : WorkerSettings) : Library → Library → Type 0 where
  begins :
      (tenant_id file_id : Uuid) (version now : ℕ) (db after : Library) (held : StoredFile)
      → begin tenant_id file_id version now db ≡ some (after, held)
      → Move text settings db after
  publishes :
      (attempt : Attempt) (held : StoredFile) (version now : ℕ) (work : Ingestion)
      (db after : Library)
      → prepare text settings attempt held ≡ prepared work
      → publish held version work now db ≡ prepared after
      → Move text settings db after
  fails :
      (tenant_id file_id : Uuid) (version : ℕ) (code : String) (db : Library)
      → Move text settings db (mark_failed tenant_id file_id version code db)
  awaits_retry :
      (tenant_id file_id : Uuid) (version : ℕ) (db : Library)
      → Move text settings db (mark_retry_pending tenant_id file_id version db)
  uploads :
      (context : TenantContext) (knowledge_base_id file_id : Uuid) (key : String)
      (validated : ValidatedUpload) (db : Library)
      → Move text settings db
          (insert_file (new_file context knowledge_base_id file_id key validated) db)
  starts_deletion :
      (id : Uuid) (db : Library) → Move text settings db (set_file id mark_deleting db)
  ends_deletion :
      (id : Uuid) (now : ℕ) (db : Library)
      → Move text settings db (set_file id (mark_deleted now) db)
  takes_version : (id : Uuid) (db : Library) → Move text settings db (set_file id next_version db)

pub data Moves (text : ChunkText) (settings : WorkerSettings) : Library → Library → Type 0 where
  stays : (db : Library) → Moves text settings db db
  moves :
      (db next after : Library)
      → Move text settings db next
      → Moves text settings next after
      → Moves text settings db after

some_injective : (a b : Library × StoredFile) → some a ≡ some b → a ≡ b
some_injective a b q = cc

prepared_injective : (a b : Library) → prepared a ≡ prepared b → a ≡ b
prepared_injective a b q = cc

module _ (text : ChunkText) (settings : WorkerSettings) where
  begin-IsServed :
      (tenant_id file_id : Uuid) (version now : ℕ) (db after : Library) (held : StoredFile)
      → begin tenant_id file_id version now db ≡ some (after, held)
      → IsServed db
      → IsServed after
  unfolding begin
  begin-IsServed tenant_id file_id version now db after held h here =
      go (find_file tenant_id file_id db) h
    where
      go :
          (o : Option StoredFile)
          → when_current version now db o ≡ some (after, held)
          → IsServed after
      go none q = absurd (ground arith)
      go (some row) q = elim (Bool-cases (is_current version row)) [
        | inr void ↦ absurd (ground (arith, rw void at q))
        | inl current ↦
            subst IsServed
              (ap (λ (r : Library × StoredFile). r.0)
                (some_injective (start now db row) (after, held) (rw current at q)))
              (update_where-IsServed (λ x. x.id == row.id) (mark_processing now row) db (λ x. refl)
                (λ x. refl) (λ x. refl) here)
      ]

  publish-IsServed :
      (attempt : Attempt) (held : StoredFile) (version now : ℕ) (work : Ingestion)
      (db after : Library)
      → 1 ≤ settings.chunking.document_chunk_target_tokens
      → prepare text settings attempt held ≡ prepared work
      → publish held version work now db ≡ prepared after
      → IsServed db
      → IsServed after
  unfolding publish
  publish-IsServed attempt held version now work db after positive p h here =
      elim (Bool-cases (exists_file held db && is_current version held)) [
        | inr void ↦ subst IsServed (prepared_injective db after (rw void at h)) here
        | inl current ↦ go (documents_hold changed) refl (ground (arith, current)) (rw current at h)
      ]
    where
      changed : Library
      changed = publication held version work now db

      go :
          (b : Bool)
          → documents_hold changed ≡ b
          → exists_file held db ≡ true
          → settle_publication b changed db ≡ prepared after
          → IsServed after
      go false e present q = absurd (cc)
      go true e present q = subst IsServed (prepared_injective changed after q) (
          publication-IsServed held version now work db
            (prepare-publishable text settings attempt held work positive p) present e here)

  Move-IsServed :
      (db after : Library)
      → 1 ≤ settings.chunking.document_chunk_target_tokens
      → Move text settings db after
      → IsServed db
      → IsServed after
  unfolding mark_failed mark_retry_pending
  Move-IsServed db after positive (begins tenant_id file_id version now _ _ held h) here =
      begin-IsServed tenant_id file_id version now db after held h here
  Move-IsServed db after positive (publishes attempt held version now work _ _ p h) here =
      publish-IsServed attempt held version now work db after positive p h here
  Move-IsServed db after positive (fails tenant_id file_id version code _) here =
      update_where-IsServed _ (failed_row code) db (λ x. refl) (λ x. refl) (λ x. refl) here
  Move-IsServed db after positive (awaits_retry tenant_id file_id version _) here =
      update_where-IsServed _ retry_row db (λ x. refl) (λ x. refl) (λ x. refl) here
  Move-IsServed db after positive (uploads context knowledge_base_id file_id key validated _) here =
      λ f hf live. elim (Has-append f db.files (row ∷ []) hf) [
        | inl old ↦ here f old live
        | inr (inl new) ↦ absurd (ground (arith, rw new at live))
        | inr (inr never) ↦ elim never [ ]
      ]
    where
      row : StoredFile
      row = new_file context knowledge_base_id file_id key validated
  Move-IsServed db after positive (starts_deletion id _) here =
      update_where-IsServed _ mark_deleting db (λ x. refl) (λ x. refl) (λ x. refl) here
  Move-IsServed db after positive (ends_deletion id now _) here =
      update_where-IsServed _ (mark_deleted now) db (λ x. refl) (λ x. refl) (λ x. refl) here
  Move-IsServed db after positive (takes_version id _) here =
      update_where-IsServed _ next_version db (λ x. refl) (λ x. refl) (λ x. refl) here

  -- After any commits of workers and of the file service in any order, each file with an active
  -- version has the chunks of that version, at least one and numbered from 0 one by one, if that
  -- held before and the target of the chunker is positive.
  pub Moves-IsServed :
      (db after : Library)
      → 1 ≤ settings.chunking.document_chunk_target_tokens
      → Moves text settings db after
      → IsServed db
      → IsServed after
  Moves-IsServed db after positive (stays _) here = here
  Moves-IsServed db after positive (moves _ next _ m ms) here =
      Moves-IsServed next after positive ms (Move-IsServed db next positive m here)
