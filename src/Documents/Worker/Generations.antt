-- ===== src/Documents/Worker/Generations.antt =====
-- The commits of workers/document_tasks.py and services/documents/file_service.py in any order, and
-- the chunks of the active version of a file.
use mathlib.Core.List.{append-nil}
use tenant_intelligence_plat.Base.{
  ==_refl, ℕ, suc, ◌≤◌, ◌≡◌, refl, ap, Bool, true, false, not, ◌&&◌, List, [], ◌∷◌, ◌++◌, ltb, ◌==◌,
  length, is_empty, select, delete_where, Has, arith,
}
use tenant_intelligence_plat.Identity.Models.{Uuid}
use tenant_intelligence_plat.Documents.Chunker.{ChunkDraft}
use tenant_intelligence_plat.Documents.Models.{StoredFile, Vector, DocumentChunk, Library}
use tenant_intelligence_plat.Documents.Worker.Preparation.{are_numbered, is_publishable}
use tenant_intelligence_plat.Documents.Attempt.{Ingestion}
use tenant_intelligence_plat.Documents.Worker.{chunk_of, chunks_of, is_generation, publication}

-- chunks numbered one by one
abbrev pub is_indexed : ℕ → List DocumentChunk → Bool
is_indexed n [] = true
is_indexed n (c ∷ cs) = c.chunk_index == n && is_indexed (suc n) cs

abbrev pub generation : Uuid → Uuid → ℕ → Library → List DocumentChunk
generation tenant_id file_id version db = select (is_generation tenant_id file_id version) db.chunks

abbrev pub is_complete : List DocumentChunk → Bool
is_complete cs = not (is_empty cs) && is_indexed 0 cs

-- Each file with an active version has its chunks, numbered from 0 one by one.
abbrev pub IsServed : Library → Type 0
IsServed db =
    (f : StoredFile)
    → Has f db.files
    → ltb 0 f.active_ingestion_version ≡ true
    → is_complete (generation f.tenant_id f.id f.active_ingestion_version db) ≡ true

module _ {A : Type 0} where
  select-append : (p : A → Bool) (xs ys : List A) → select p (xs ++ ys) ≡ select p xs ++ select p ys
  select-append p [] ys = refl
  select-append p (x ∷ xs) ys = ground (arith, select-append p xs ys)

  select-delete_other :
      (p q : A → Bool) (xs : List A)
      → ((x : A) → p x ≡ true → q x ≡ false)
      → select p (delete_where q xs) ≡ select p xs
  select-delete_other p q [] apart = refl
  select-delete_other p q (x ∷ xs) apart = ground (arith, apart x, select-delete_other p q xs apart)

  select-delete_same : (p : A → Bool) (xs : List A) → select p (delete_where p xs) ≡ []
  select-delete_same p [] = refl
  select-delete_same p (x ∷ xs) = ground (arith, select-delete_same p xs)

module _ (row : StoredFile) (version : ℕ) where
  chunks_of-indexed :
      (n : ℕ) (ds : List ChunkDraft) (vs : List Vector)
      → are_numbered n ds ≡ true
      → is_indexed n (chunks_of row version ds vs) ≡ true
  chunks_of-indexed n [] vs h = refl
  chunks_of-indexed n (d ∷ ds) [] h = refl
  chunks_of-indexed n (d ∷ ds) (v ∷ vs) h = ground (arith, chunks_of-indexed (suc n) ds vs)

  chunks_of-some :
      (ds : List ChunkDraft) (vs : List Vector)
      → 1 ≤ length ds
      → 1 ≤ length vs
      → is_empty (chunks_of row version ds vs) ≡ false
  chunks_of-some [] vs h k = absurd (omega arith)
  chunks_of-some (d ∷ ds) [] h k = absurd (omega arith)
  chunks_of-some (d ∷ ds) (v ∷ vs) h k = refl

  chunks_of-generation :
      (ds : List ChunkDraft) (vs : List Vector)
      → select (is_generation row.tenant_id row.id version) (chunks_of row version ds vs)
        ≡ chunks_of row version ds vs
  chunks_of-generation [] vs = refl
  chunks_of-generation (d ∷ ds) [] = refl
  chunks_of-generation (d ∷ ds) (v ∷ vs) =
      rw (==_refl row.tenant_id, ==_refl row.id, ==_refl version)
        (ap (λ cs. chunk_of row version d v ∷ cs) (chunks_of-generation ds vs))

  chunks_of-other :
      (tenant_id file_id : Uuid) (active : ℕ) (ds : List ChunkDraft) (vs : List Vector)
      → (row.tenant_id == tenant_id && (row.id == file_id && version == active)) ≡ false
      → select (is_generation tenant_id file_id active) (chunks_of row version ds vs) ≡ []
  chunks_of-other tenant_id file_id active [] vs apart = refl
  chunks_of-other tenant_id file_id active (d ∷ ds) [] apart = refl
  chunks_of-other tenant_id file_id active (d ∷ ds) (v ∷ vs) apart =
      rw apart (chunks_of-other tenant_id file_id active ds vs apart)

  -- The generation that a publication writes is complete.
  pub written_generation :
      (work : Ingestion) (now : ℕ) (db : Library)
      → is_publishable work ≡ true
      → is_complete (generation row.tenant_id row.id version (publication row version work now db))
        ≡ true
  written_generation work now db good =
      rw
        (
          select-append p (delete_where p db.chunks)
              (chunks_of row version work.drafts work.vectors),
          select-delete_same p db.chunks,
          chunks_of-generation work.drafts work.vectors,
        )
        (ground (
          arith,
          good,
          chunks_of-indexed 0 work.drafts work.vectors,
          chunks_of-some work.drafts work.vectors,
        ))
    where
      p : DocumentChunk → Bool
      p = is_generation row.tenant_id row.id version

  -- Every other generation stays as it was.
  pub other_generation :
      (work : Ingestion) (now : ℕ) (db : Library) (tenant_id file_id : Uuid) (active : ℕ)
      → (row.tenant_id == tenant_id && (row.id == file_id && version == active)) ≡ false
      → generation tenant_id file_id active (publication row version work now db)
        ≡ generation tenant_id file_id active db
  other_generation work now db tenant_id file_id active apart =
      rw
        (
          select-append (is_generation tenant_id file_id active)
              (delete_where (is_generation row.tenant_id row.id version) db.chunks)
              (chunks_of row version work.drafts work.vectors),
          chunks_of-other tenant_id file_id active work.drafts work.vectors apart,
          append-nil,
        )
        (select-delete_other (is_generation tenant_id file_id active)
          (is_generation row.tenant_id row.id version) db.chunks (λ c h. ground (arith, h, apart)))
