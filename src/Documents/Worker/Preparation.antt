-- ===== src/Documents/Worker/Preparation.antt =====
-- workers/document_tasks.py: what the work between the transactions hands to the last one.
use tenant_intelligence_plat.Base.{
  String, ap, ◌∙◌, ℕ, suc, ◌≤◌, ◌≡◌, refl, sym, Bool, true, false, ◌&&◌, Option, none, some, List,
  [], ◌∷◌, map, leb, ◌==◌, str_eq, length, arith,
}
use tenant_intelligence_plat.Documents.Chunker.{
  FileError, content_limit_exceeded, storage_integrity_failed, mime_mismatch, embedding_failed,
  ChunkDraft, ChunkText, Outcome, done, refused, ParsedDocument, chunk_document,
}
use tenant_intelligence_plat.Documents.Chunker.Bounds.{is_numbered, chunk_document-bounds}
use tenant_intelligence_plat.Documents.Models.{StoredFile}
use tenant_intelligence_plat.Documents.Attempt.{
  Answer, answered, unavailable, crashed, from_answer, inspect, Raised, Prepared, prepared, raised,
  WorkerSettings, Attempt, Ingestion, from_outcome, require_that, extracted_length, vectors_valid,
  embed_drafts, chunk_parsed, prepare,
}

abbrev pub are_numbered : ℕ → List ChunkDraft → Bool
are_numbered n [] = true
are_numbered n (d ∷ ds) = d.index == n && are_numbered (suc n) ds

-- Some drafts, numbered from 0 one by one, with a vector for each.
abbrev pub is_publishable : Ingestion → Bool
is_publishable work =
    leb 1 (length work.drafts)
    && (length work.vectors == length work.drafts && are_numbered 0 work.drafts)

are_numbered_lem :
    (limit n : ℕ) (ds : List ChunkDraft) → is_numbered limit n ds ≡ true → are_numbered n ds ≡ true
are_numbered_lem limit n [] h = refl
are_numbered_lem limit n (d ∷ ds) h = ground (arith, are_numbered_lem limit (suc n) ds)

module _ {A : Type 0} where
  require_that-cases :
      (b : Bool) (e : FileError) (k : Prepared A) (a : A)
      → require_that b e k ≡ prepared a
      → (b ≡ true) × (k ≡ prepared a)
  require_that-cases true e k a h = (refl, h)
  require_that-cases false e k a h = absurd (cc)

  prepared_injective : (a b : A) → prepared a ≡ prepared b → a ≡ b
  prepared_injective a b h = cc

  from_outcome-cases :
      {B : Type 0} (o : Outcome B) (k : B → Prepared A) (a : A)
      → from_outcome o k ≡ prepared a
      → (b : B) × (o ≡ done b) × (k b ≡ prepared a)
  from_outcome-cases (done b) k a h = (b, refl, h)
  from_outcome-cases (refused e) k a h = absurd (cc)

  from_answer-cases :
      {B : Type 0} (code : String) (o : Answer B) (k : B → Prepared A) (a : A)
      → from_answer code o k ≡ prepared a
      → (b : B) × (o ≡ answered b) × (k b ≡ prepared a)
  from_answer-cases code (answered b) k a h = (b, refl, h)
  from_answer-cases code unavailable k a h = absurd (cc)
  from_answer-cases code crashed k a h = absurd (cc)

  inspect-cases :
      {B : Type 0} (o : Answer (Outcome B)) (k : B → Prepared A) (a : A)
      → inspect o k ≡ prepared a
      → (b : B) × (o ≡ answered (done b)) × (k b ≡ prepared a)
  inspect-cases o k a h =
      let (outcome, e, q) =
        from_answer-cases "INFRASTRUCTURE_TEMPORARILY_UNAVAILABLE" o
          (λ outcome. from_outcome outcome k) a h in
      let (b, e', q') = from_outcome-cases outcome k a q in (b, e ∙ ap answered e', q')

module _ (text : ChunkText) (settings : WorkerSettings) (attempt : Attempt) where
  embed_drafts-publishable :
      (document : ParsedDocument) (extracted : ℕ) (drafts : List ChunkDraft) (work : Ingestion)
      → leb 1 (length drafts) ≡ true
      → are_numbered 0 drafts ≡ true
      → embed_drafts text settings attempt document extracted drafts ≡ prepared work
      → is_publishable work ≡ true
  embed_drafts-publishable document extracted drafts work some_draft numbered h =
      let (vectors, answer, q) =
        from_answer-cases "EMBEDDING_TEMPORARILY_UNAVAILABLE"
          (attempt.embed (map (λ (d : ChunkDraft). d.content) drafts)) _ work h in
      let (valid, same) =
        require_that-cases (vectors_valid text settings drafts vectors) embedding_failed _ work q in
      rw (sym (prepared_injective _ work same)) (ground (arith, some_draft, numbered, valid))

  chunk_parsed-publishable :
      (document : ParsedDocument) (work : Ingestion)
      → 1 ≤ settings.chunking.document_chunk_target_tokens
      → chunk_parsed text settings attempt document ≡ prepared work
      → is_publishable work ≡ true
  chunk_parsed-publishable document work positive h =
      let (short, k) =
        require_that-cases (leb extracted settings.document_max_extracted_characters)
          content_limit_exceeded _ work h in
      go (chunk_document text settings.chunking document) refl k
    where
      extracted : ℕ
      extracted = extracted_length attempt.text_length document.elements

      go :
          (o : Option (Outcome (List ChunkDraft)))
          → chunk_document text settings.chunking document ≡ o
          → elim o as (λ _. Prepared Ingestion) [
            | none ↦ raised (Raised.retryable "DOCUMENT_PROCESSING_FAILED")
            | some outcome ↦
                from_outcome outcome (embed_drafts text settings attempt document extracted)
          ]
            ≡ prepared work
          → is_publishable work ≡ true
      go none e q = absurd (cc)
      go (some (refused x)) e q = absurd (cc)
      go (some (done drafts)) e q =
          let (numbered, some_draft, few) =
            chunk_document-bounds text settings.chunking document drafts positive e in
          embed_drafts-publishable document extracted drafts work (ground (arith, some_draft))
            (are_numbered_lem settings.chunking.document_chunk_target_tokens 0 drafts numbered) q

  -- What an attempt prepares for publication is at least one draft, the drafts numbered from 0 one
  -- by one, and one vector for each, if the target of the chunker is positive.
  pub prepare-publishable :
      (row : StoredFile) (work : Ingestion)
      → 1 ≤ settings.chunking.document_chunk_target_tokens
      → prepare text settings attempt row ≡ prepared work
      → is_publishable work ≡ true
  unfolding prepare
  prepare-publishable row work positive h =
      let (size, r, q) =
        from_answer-cases "STORAGE_TEMPORARILY_UNAVAILABLE" attempt.downloaded_size _ work h in
      let (a, q1) =
        require_that-cases (size == row.file_size_bytes) storage_integrity_failed _ work q in
      let (b, q2) =
        require_that-cases (str_eq attempt.downloaded_checksum row.checksum)
          storage_integrity_failed _ work q1 in
      let (detected, c, q3) = inspect-cases attempt.detected _ work q2 in
      let (d, q4) =
        require_that-cases (str_eq detected row.detected_mime_type) mime_mismatch _ work q3 in
      let (u, e, q5) = inspect-cases attempt.inspected _ work q4 in
      let (document, f, q6) =
        inspect-cases attempt.parsed (chunk_parsed text settings attempt) work q5 in
      chunk_parsed-publishable document work positive q6
