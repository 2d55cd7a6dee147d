-- ===== src/Documents/Retrieval/Sources.antt =====
-- services/documents/retrieval.py: where the evidence comes from.
use tenant_intelligence_plat.Base.{
  ℕ, suc, ◌+◌, ◌≡◌, ◌⊎◌, refl, sym, ap, ◌∙◌, String, Bool, true, ◌&&◌, inl, inr, List, [], ◌∷◌, map,
  ◌==◌, leb, select, arith, Has, Has-map, Has-select, Has-join, Has-sort_by, Has-take, Bool-cases,
  some, length, some_injective, any-witness, ==_iff, none, ◌<◌,
}
use tenant_intelligence_plat.Identity.Models.{Uuid}
use tenant_intelligence_plat.Documents.Models.{
  Vector, StoredFile, DocumentChunk, Library, same_generation_chunk, is_live, ProcessingStatus,
  ready, processing, pending, failed, deleting, deleted,
}
use tenant_intelligence_plat.Documents.Retrieval.{
  Floats, RetrievalSettings, TextSearch, RetrievedEvidence, Scored, is_active_chunk, active_chunks,
  dense_candidates, lexical_candidates, add_rank, merge_ranks, scored, before, is_skipped,
  select_evidence, retrieve, fused, is_one_id, is_served,
}

-- A stored chunk of a tenant and one of its knowledge bases asked for, in the active version of a
-- stored file of the tenant that is ready or in work and not deleted.
pub record IsActive (tenant_id : Uuid) (kb_ids : List Uuid) (db : Library) (c : DocumentChunk)
    : Type 0 where
  pub file : StoredFile
  pub chunk_stored : Has c db.chunks
  pub file_stored : Has file db.files
  pub of_file : file.id ≡ c.file_id
  pub chunk_tenant : c.tenant_id ≡ tenant_id
  pub chunk_base : Has c.knowledge_base_id kb_ids
  pub file_tenant : file.tenant_id ≡ tenant_id
  pub file_served : (file.processing_status ≡ ready) ⊎ (file.processing_status ≡ processing)
  pub some_version : 0 < file.active_ingestion_version
  pub active_version : c.ingestion_version ≡ file.active_ingestion_version
  pub not_deleted : file.deleted_at ≡ none

is_one_id-Has : (id : Uuid) (ids : List Uuid) → is_one_id id ids ≡ true → Has id ids
is_one_id-Has id ids h =
    let (x, m, e) = any-witness (λ x. x == id) ids h in rw⁻¹ ((==_iff x id).0 e) m

is_served-cases :
    (status : ProcessingStatus) → is_served status ≡ true → (status ≡ ready) ⊎ (status ≡ processing)
is_served-cases ready h = inl refl
is_served-cases processing h = inr refl
is_served-cases pending h = absurd (ground (arith, h))
is_served-cases failed h = absurd (ground (arith, h))
is_served-cases deleting h = absurd (ground (arith, h))
is_served-cases deleted h = absurd (ground (arith, h))

is_live-none : (f : StoredFile) → is_live f ≡ true → f.deleted_at ≡ none
is_live-none f h = ground (arith, h)

active_chunks-IsActive :
    (tenant_id : Uuid) (kb_ids : List Uuid) (db : Library) (c : DocumentChunk)
    → Has c (active_chunks tenant_id kb_ids db)
    → IsActive tenant_id kb_ids db c
unfolding active_chunks is_active_chunk
active_chunks-IsActive tenant_id kb_ids db c h =
    let pick : DocumentChunk → StoredFile → Bool =
      λ c f. f.id == c.file_id && is_active_chunk tenant_id kb_ids c f in
    let (d, stored, k) =
      Has-join (λ c. map (λ (f : StoredFile). c) (select (pick c) db.files)) c db.chunks h in
    let (f, m, same) = Has-map (λ (f : StoredFile). d) c (select (pick d) db.files) k in
    let (hf, e) = Has-select (pick d) f db.files m in
    rw same (record {
      file = f;
      chunk_stored = stored;
      file_stored = hf;
      of_file = ground (arith, e);
      chunk_tenant = ground (arith, e);
      chunk_base = is_one_id-Has d.knowledge_base_id kb_ids (ground (arith, e));
      file_tenant = ground (arith, e);
      file_served = is_served-cases f.processing_status (ground (arith, e));
      some_version = ground (arith, e);
      active_version = ground (arith, e);
      not_deleted = is_live-none f (ground (arith, e));
    })

module _ {S : Type 0} (F : Floats S) (text : TextSearch S) (settings : RetrievalSettings S)
    (numbered : String → ℕ → String) where
  add_rank-from :
      (c d : DocumentChunk) (v : S) (rank : ℕ) (merged : List (DocumentChunk × S))
      → Has (d, v) (add_rank F text settings numbered c rank merged)
      → (d ≡ c) ⊎ ((w : S) × Has (d, w) merged)
  unfolding add_rank
  add_rank-from c d v rank [] (inl e) = inl (ap (λ (x : DocumentChunk × S). x.0) e)
  add_rank-from c d v rank [] (inr never) = elim never [ ]
  add_rank-from c d v rank ((x, fusion) ∷ merged) h =
      elim (Bool-cases (same_generation_chunk c x)) [
        | inl same ↦ elim (rw same at h) [
          | inl e ↦ inl (ap (λ (x : DocumentChunk × S). x.0) e)
          | inr m ↦ inr (v, inr m)
        ]
        | inr other ↦ elim (rw other at h) [
          | inl e ↦ inr (v, inl e)
          | inr m ↦ elim (add_rank-from c d v rank merged m) [
            | inl e ↦ inl e
            | inr (w, k) ↦ inr (w, inr k)
          ]
        ]
      ]

  merge_ranks-from :
      (d : DocumentChunk) (v : S) (rank : ℕ) (candidates merged : List (DocumentChunk × S))
      → Has (d, v) (merge_ranks F text settings numbered rank candidates merged)
      → (w : S) × (Has (d, w) candidates ⊎ Has (d, w) merged)
  unfolding merge_ranks
  merge_ranks-from d v rank [] merged h = (v, inr h)
  merge_ranks-from d v rank ((c, value) ∷ candidates) merged h =
      let (w, found) =
        merge_ranks-from d v (suc rank) candidates (add_rank F text settings numbered c rank merged)
          h in
      elim found [
        | inl m ↦ (w, inl (inr m))
        | inr m ↦ elim (add_rank-from c d w rank merged m) [
          | inl e ↦ (value, inl (inl (ap (λ x. (x, value)) e)))
          | inr (u, k) ↦ (u, inr k)
        ]
      ]

  select_evidence-from :
      (n characters : ℕ) (chosen : List DocumentChunk) (cs : List (Scored S))
      (e : RetrievedEvidence S)
      → Has e (select_evidence F text settings numbered n characters chosen cs)
      → (c : Scored S) × Has c cs × (e.chunk ≡ c.chunk)
  unfolding select_evidence
  select_evidence-from n characters chosen [] e h = elim h [ ]
  select_evidence-from n characters chosen (c ∷ cs) e h =
      elim (Bool-cases (is_skipped F text settings numbered characters chosen c)) [
        | inl skipped ↦
            let (d, m, q) = select_evidence-from n characters chosen cs e (rw skipped at h) in
            (d, inr m, q)
        | inr kept ↦ elim (Bool-cases (leb settings.final_top_k (suc n))) [
          | inl full ↦ elim (rw (kept, full) at h) [
            | inl same ↦ (c, inl refl, ap (λ (x : RetrievedEvidence S). x.chunk) same)
            | inr never ↦ elim never [ ]
          ]
          | inr more ↦ elim (rw (kept, more) at h) [
            | inl same ↦ (c, inl refl, ap (λ (x : RetrievedEvidence S). x.chunk) same)
            | inr later ↦
                let (d, m, q) =
                  select_evidence-from (suc n) (characters + text.char_count c.chunk.content)
                    (c.chunk ∷ chosen) cs e later in
                (d, inr m, q)
          ]
        ]
      ]

  dense-IsActive :
      (tenant_id : Uuid) (kb_ids : List Uuid) (vector : Vector) (db : Library) (c : DocumentChunk)
      (v : S)
      → Has (c, v) (dense_candidates F text settings numbered tenant_id kb_ids vector db)
      → IsActive tenant_id kb_ids db c
  unfolding dense_candidates
  dense-IsActive tenant_id kb_ids vector db c v h =
      let (d, m, e) = Has-map _ (c, v) _ h in
      rw (ap (λ (x : DocumentChunk × S). x.0) e) (
        active_chunks-IsActive tenant_id kb_ids db d
          (Has-sort_by _ d _ (Has-take settings.dense_candidates d _ m)))

  lexical-IsActive :
      (tenant_id : Uuid) (kb_ids : List Uuid) (query : String) (db : Library) (c : DocumentChunk)
      (v : S)
      → Has (c, v) (lexical_candidates F text settings numbered tenant_id kb_ids query db)
      → IsActive tenant_id kb_ids db c
  unfolding lexical_candidates
  lexical-IsActive tenant_id kb_ids query db c v h =
      let (d, m, e) = Has-map _ (c, v) _ h in
      rw (ap (λ (x : DocumentChunk × S). x.0) e) (
        active_chunks-IsActive tenant_id kb_ids db d
          (Has-select (text.matches query) d _
            (Has-sort_by _ d _ (Has-take settings.lexical_candidates d _ m))).0)

  fused-from :
      (query : String) (dense lexical : List (DocumentChunk × S)) (e : RetrievedEvidence S)
      → Has e (fused F text settings numbered query dense lexical)
      → (v : S) × (Has (e.chunk, v) lexical ⊎ Has (e.chunk, v) dense)
  fused-from query dense lexical e h =
      let merged =
        merge_ranks F text settings numbered 1 lexical
          (merge_ranks F text settings numbered 1 dense []) in
      let (c, m, same) = select_evidence-from 0 0 [] _ e h in
      let (x, k, made) =
        Has-map (scored F text settings numbered query dense lexical) c merged
          (Has-sort_by (before F text settings numbered) c _ m) in
      let (w, found) =
        merge_ranks-from x.0 x.1 1 lexical (merge_ranks F text settings numbered 1 dense []) k in
      rw (same ∙ ap (λ (y : Scored S). y.chunk) made) (elim found [
        | inl l ↦ (w, inl l)
        | inr d ↦
            let (u, origin) = merge_ranks-from x.0 w 1 dense [] d in
            elim origin [ inl k ↦ (u, inr k) | inr never ↦ elim never [ ] ]
      ])

  -- The evidence for a question is of stored chunks of the tenant and of the knowledge bases asked
  -- for, each in the active version of a file that is served and not deleted.
  pub retrieve-IsActive :
      (tenant_id : Uuid) (kb_ids : List Uuid) (query : String) (db : Library)
      (es : List (RetrievedEvidence S)) (e : RetrievedEvidence S)
      → retrieve F text settings numbered tenant_id kb_ids query db ≡ some es
      → Has e es
      → IsActive tenant_id kb_ids db e.chunk
  unfolding retrieve
  retrieve-IsActive tenant_id kb_ids query db es e run h =
      elim (Bool-cases (length (text.embed query) == settings.embedding_dimension)) [
        | inr other ↦ absurd (grind (arith, rw other at run))
        | inl same ↦
            let (v, found) =
              fused-from query _ _ e (rw (sym (some_injective (rw same at run))) at h) in
            elim found [
              | inl l ↦ lexical-IsActive tenant_id kb_ids query db e.chunk v l
              | inr d ↦ dense-IsActive tenant_id kb_ids (text.embed query) db e.chunk v d
            ]
      ]
