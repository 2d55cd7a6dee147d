-- ===== src/Documents/Retrieval.antt =====
-- services/documents/retrieval.py and the candidate queries of repositories/documents.py: the evidence
-- for a question, as PostgreSQL answers it. Scores are floating-point numbers, a parameter with its
-- arithmetic; the database's distance, rank and text match are parameters too. A chunk is known by
-- its file, version and index, which are unique as its identifier is.
pub mod Sources
pub mod Selection
use tenant_intelligence_plat.Base.{
  ℕ, zero, suc, ◌+◌, String, Bool, true, false, not, ◌&&◌, ◌||◌, Option, none, some, List, [], ◌∷◌,
  ◌++◌, map, str_eq, ltb, leb, ◌==◌, if◌then◌else◌, any, length, take, select, scalar, sort_by,
  str_leb, join,
}
use tenant_intelligence_plat.Identity.Models.{Uuid}
use tenant_intelligence_plat.Documents.Models.{
  Vector, StoredFile, DocumentChunk, Library, ProcessingStatus, is_live, same_generation_chunk,
}

-- the arithmetic of scores; `decimal n d` is the literal or the quotient n / d
pub record Floats (S : Type 0) : Type 0 where
  pub decimal : ℕ → ℕ → S
  pub plus : S → S → S
  pub minus : S → S → S
  pub times : S → S → S
  pub maximum : S → S → S
  pub minimum : S → S → S
  pub less : S → S → Bool

pub record RetrievalSettings (S : Type 0) : Type 0 where
  pub dense_candidates : ℕ
  pub lexical_candidates : ℕ
  pub final_top_k : ℕ
  pub max_evidence_characters : ℕ
  pub min_relevance : S
  pub embedding_dimension : ℕ

-- what Python and the database do to texts and vectors
pub record TextSearch (S : Type 0) : Type 0 where
  -- the first vector of `embeddings.embed`
  pub embed : String → Vector
  -- `embedding.cosine_distance(vector)`
  pub distance : Vector → DocumentChunk → S
  -- `ts_rank_cd`, and the match of the text with the query
  pub rank : String → DocumentChunk → S
  pub matches : String → DocumentChunk → Bool
  -- the numbers of terms of the query, and of those that the content has
  pub terms : String → ℕ
  pub shared_terms : String → DocumentChunk → ℕ
  pub char_count : String → ℕ
  -- `str(chunk.id)`, by which ties are broken
  pub id_text : DocumentChunk → String

pub record RetrievedEvidence (S : Type 0) : Type 0 where
  pub evidence_id : String
  pub chunk : DocumentChunk
  pub score : S

-- the tuple of `scored`
pub record Scored (S : Type 0) : Type 0 where
  pub chunk : DocumentChunk
  pub rerank_score : S
  pub relevance : S

abbrev pub is_one_id : Uuid → List Uuid → Bool
is_one_id id ids = any (λ x. x == id) ids

abbrev pub is_served : ProcessingStatus → Bool
is_served ProcessingStatus.ready = true
is_served ProcessingStatus.processing = true
is_served _ = false

-- the conditions of the candidate queries on a chunk and its file
unfoldable pub is_active_chunk : Uuid → List Uuid → DocumentChunk → StoredFile → Bool
is_active_chunk tenant_id kb_ids c f =
    c.tenant_id == tenant_id
    && (is_one_id c.knowledge_base_id kb_ids
        && (f.tenant_id == tenant_id
            && (is_served f.processing_status
                && (ltb 0 f.active_ingestion_version
                    && (is_live f && c.ingestion_version == f.active_ingestion_version)))))

-- the rows of the join that meet them
unfoldable pub active_chunks : Uuid → List Uuid → Library → List DocumentChunk
unfolding is_active_chunk
active_chunks tenant_id kb_ids db = join db.chunks (λ c.
    map (λ (f : StoredFile). c)
      (select (λ (f : StoredFile). f.id == c.file_id && is_active_chunk tenant_id kb_ids c f)
        db.files))

abbrev pub has_hash : String → DocumentChunk → Bool
has_hash h d = str_eq h d.content_hash

abbrev pub same_number : Option ℕ → Option ℕ → Bool
same_number none none = true
same_number (some m) (some n) = m == n
same_number none (some n) = false
same_number (some m) none = false

abbrev pub same_page : DocumentChunk → DocumentChunk → Bool
same_page a b = a.file_id == b.file_id && same_number a.page_number b.page_number

-- `page_counts.get(page_key, 0)`, from the chunks that were counted
abbrev pub page_count : DocumentChunk → List DocumentChunk → ℕ
page_count c chosen = length (select (same_page c) chosen)

module _ {S : Type 0} (F : Floats S) (text : TextSearch S) (settings : RetrievalSettings S)
    (numbered : String → ℕ → String) where
  abbrev pub nought : S
  nought = F.decimal 0 1

  unfoldable pub dense_candidates : Uuid → List Uuid → Vector → Library → List (DocumentChunk × S)
  dense_candidates tenant_id kb_ids vector db =
      map (λ c. (c, F.maximum nought (F.minus (F.decimal 1 1) (text.distance vector c))))
        (take settings.dense_candidates (
          sort_by (λ a b. not (F.less (text.distance vector b) (text.distance vector a)))
            (active_chunks tenant_id kb_ids db)))

  unfoldable pub lexical_candidates : Uuid → List Uuid → String → Library → List (DocumentChunk × S)
  lexical_candidates tenant_id kb_ids query db =
      map (λ c. (c, text.rank query c))
        (take settings.lexical_candidates (
          sort_by (λ a b. not (F.less (text.rank query a) (text.rank query b)))
            (select (text.matches query) (active_chunks tenant_id kb_ids db))))

  -- `merged[chunk.id] = (chunk, current + 1.0 / (60 + rank))`
  unfoldable pub add_rank : DocumentChunk → ℕ → List (DocumentChunk × S) → List (DocumentChunk × S)
  add_rank c rank [] = (c, F.plus nought (F.decimal 1 (60 + rank))) ∷ []
  add_rank c rank ((d, fusion) ∷ merged) =
      let rest = add_rank c rank merged in
      if same_generation_chunk c d
      then (c, F.plus fusion (F.decimal 1 (60 + rank))) ∷ merged
      else (d, fusion) ∷ rest

  unfoldable pub merge_ranks :
      ℕ → List (DocumentChunk × S) → List (DocumentChunk × S) → List (DocumentChunk × S)
  unfolding add_rank
  merge_ranks rank [] merged = merged
  merge_ranks rank ((c, value) ∷ candidates) merged =
      merge_ranks (suc rank) candidates (add_rank c rank merged)

  -- `next((value for item, value in candidates if item.id == chunk.id), 0.0)`
  abbrev pub score_of : DocumentChunk → List (DocumentChunk × S) → S
  score_of c candidates = elim (scalar (λ x. same_generation_chunk x.0 c) candidates) [
    | none ↦ nought
    | some x ↦ x.1
  ]

  abbrev pub one_if : Option ℕ → ℕ
  one_if none = 0
  one_if (some n) = 1

  abbrev pub one_if_text : Option String → ℕ
  one_if_text none = 0
  one_if_text (some s) = 1

  abbrev pub overlap : String → DocumentChunk → S
  overlap query c =
      F.decimal (text.shared_terms query c)
        (if ltb (text.terms query) 1 then 1 else text.terms query)

  abbrev pub metadata_quality : DocumentChunk → S
  metadata_quality c = F.times (F.decimal 2 100) (
      F.decimal
        (one_if c.page_number
          + (one_if_text c.section_title + (one_if_text c.sheet_name + one_if c.row_start)))
        1)

  abbrev pub scored :
      String → List (DocumentChunk × S) → List (DocumentChunk × S) → DocumentChunk × S → Scored S
  scored query dense lexical (c, fusion) =
      let dense_score = score_of c dense in
      let lexical_score = score_of c lexical in
      record {
        chunk = c;
        rerank_score =
            F.plus
              (F.plus
                (F.plus
                  (F.plus (F.times (F.decimal 45 100) (F.maximum dense_score nought))
                    (F.times (F.decimal 30 100) (F.maximum lexical_score nought)))
                  (F.times (F.decimal 20 100) (overlap query c)))
                (F.times (F.decimal 5 100)
                  (F.minimum (F.times fusion (F.decimal 60 1)) (F.decimal 1 1))))
              (metadata_quality c);
        relevance = F.maximum (F.maximum dense_score lexical_score) (overlap query c);
      }

  -- `key=lambda item: (-item[1], str(item[0].id))`
  abbrev pub before : Scored S → Scored S → Bool
  before a b =
      if F.less b.rerank_score a.rerank_score
      then true
      else if F.less a.rerank_score b.rerank_score
      then false
      else str_leb (text.id_text a.chunk) (text.id_text b.chunk)

  -- a candidate that the loop passes over, after `chosen` with so many characters
  abbrev pub is_skipped : ℕ → List DocumentChunk → Scored S → Bool
  is_skipped characters chosen c =
      F.less c.relevance settings.min_relevance
      || ((any (has_hash c.chunk.content_hash) chosen || leb 2 (page_count c.chunk chosen))
          || ltb settings.max_evidence_characters (characters + text.char_count c.chunk.content))

  abbrev pub evidence_of : ℕ → Scored S → RetrievedEvidence S
  evidence_of n c = record {
    evidence_id = numbered "DOC" (suc n);
    chunk = c.chunk;
    score = c.rerank_score;
  }

  -- the loop: the number, the characters and the chunks (for `hashes` and `page_counts`) of what is
  -- selected so far, and the evidence that is added to it
  unfoldable pub select_evidence :
      ℕ → ℕ → List DocumentChunk → List (Scored S) → List (RetrievedEvidence S)
  select_evidence n characters chosen [] = []
  select_evidence n characters chosen (c ∷ cs) =
      let passed = select_evidence n characters chosen cs in
      let taken =
        select_evidence (suc n) (characters + text.char_count c.chunk.content) (c.chunk ∷ chosen)
          cs in
      let evidence = evidence_of n c in
      if is_skipped characters chosen c
      then passed
      else if leb settings.final_top_k (suc n)
      then evidence ∷ []
      else evidence ∷ taken

  -- `retrieve` from the line of `merged` on
  abbrev pub fused :
      String → List (DocumentChunk × S) → List (DocumentChunk × S) → List (RetrievedEvidence S)
  fused query dense lexical =
      let merged = merge_ranks 1 lexical (merge_ranks 1 dense []) in
      select_evidence 0 0 [] (sort_by before (map (scored query dense lexical) merged))

  -- `none` is the ValueError
  unfoldable pub retrieve :
      Uuid → List Uuid → String → Library → Option (List (RetrievedEvidence S))
  unfolding dense_candidates lexical_candidates merge_ranks select_evidence
  retrieve tenant_id kb_ids query db =
      let vector = text.embed query in
      let dense = dense_candidates tenant_id kb_ids vector db in
      let lexical = lexical_candidates tenant_id kb_ids query db in
      if length vector == settings.embedding_dimension
      then some (fused query dense lexical)
      else none
