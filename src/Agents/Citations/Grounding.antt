-- ===== src/Agents/Citations/Grounding.antt =====
-- agents/graph.py: what the citations of an answer from documents stand on.
use tenant_intelligence_plat.Base.{
  ℕ, ◌≡◌, refl, sym, ap, ◌∙◌, String, not, some, List, [], ◌∷◌, inl, inr, Has, Has-append,
  Bool-cases, Option-cases, some_injective, ==_iff, eq_iff, any, str_eq, ◌==◌, is_empty, scalar-Has,
  scalar-holds,
}
use tenant_intelligence_plat.Identity.Models.{Uuid}
use tenant_intelligence_plat.Documents.Models.{Library}
use tenant_intelligence_plat.Documents.Retrieval.{
  Floats, RetrievalSettings, TextSearch, RetrievedEvidence, retrieve,
}
use tenant_intelligence_plat.Documents.Retrieval.Sources.{IsActive, retrieve-IsActive}
use tenant_intelligence_plat.Agents.Citations.{
  DocumentGroundedAnswer, DocumentCitation, is_cited_id, distinct_ids, get_file, evidence_by_id,
  is_allowed, cite, citations_of, generate_document_answer,
}

-- A citation of retrieved evidence that the answer used, in a file of the tenant.
pub record Grounded {S : Type 0} (tenant_id : Uuid) (db : Library) (es : List (RetrievedEvidence S))
    (used : List String) (c : DocumentCitation S) : Type 0 where
  pub evidence : RetrievedEvidence S
  pub retrieved : Has evidence es
  pub of_evidence : c.chunk ≡ evidence.chunk
  pub is_used : Has evidence.evidence_id used
  pub file_stored : Has c.file db.files
  pub of_chunk : c.file.id ≡ c.chunk.file_id
  pub own_file : c.file.tenant_id ≡ tenant_id

distinct_ids-Has :
    (id : String) (seen ids : List String) → Has id (distinct_ids seen ids) → Has id ids
unfolding distinct_ids
distinct_ids-Has id seen [] h = h
distinct_ids-Has id seen (x ∷ xs) h = elim (Bool-cases (is_cited_id x seen)) [
  | inl old ↦ inr (distinct_ids-Has id seen xs (rw old at h))
  | inr new ↦ elim (rw new at h) [
    | inl e ↦ inl e
    | inr m ↦ inr (distinct_ids-Has id (x ∷ seen) xs m)
  ]
]

module _ {S : Type 0} where
  evidence_by_id-Has :
      (id : String) (es : List (RetrievedEvidence S)) (e : RetrievedEvidence S)
      → evidence_by_id id es ≡ some e
      → Has e es × (id ≡ e.evidence_id)
  unfolding evidence_by_id
  evidence_by_id-Has id [] e h = absurd (cc)
  evidence_by_id-Has id (x ∷ xs) e h = elim (Option-cases (evidence_by_id id xs)) [
    | inl absent ↦ elim (Bool-cases (str_eq id x.evidence_id)) [
      | inl same ↦
          let here : x ≡ e = some_injective (rw (absent, same) at h) in
          (
            inl (sym here),
            (eq_iff id x.evidence_id).0 same ∙ ap (λ (y : RetrievedEvidence S). y.evidence_id) here,
          )
      | inr other ↦ absurd (cc (rw (absent, other) at h))
    ]
    | inr (y, found) ↦
        let (m, same) = evidence_by_id-Has id xs e (found ∙ (rw found at h)) in (inr m, same)
  ]

  cite-Grounded :
      (tenant_id : Uuid) (db : Library) (es : List (RetrievedEvidence S)) (id : String)
      (used : List String) (c : DocumentCitation S)
      → Has id used
      → Has c (cite tenant_id db (evidence_by_id id es))
      → Grounded tenant_id db es used c
  cite-Grounded tenant_id db es id used c given h = elim (Option-cases (evidence_by_id id es)) [
    | inl absent ↦ elim (rw absent at h) [ ]
    | inr (e, found) ↦
        let (m, same) = evidence_by_id-Has id es e found in
        elim (Option-cases (get_file e.chunk db)) [
          | inl gone ↦ elim (rw (found, gone) at h) [ ]
          | inr (f, loaded) ↦ elim (Bool-cases (f.tenant_id == tenant_id)) [
            | inr foreign ↦ elim (rw (found, loaded, foreign) at h) [ ]
            | inl own ↦ elim (rw (found, loaded, own) at h) [
              | inr never ↦ elim never [ ]
              | inl made ↦ record {
                evidence = e;
                retrieved = m;
                of_evidence = ap (λ (x : DocumentCitation S). x.chunk) made;
                is_used = rw⁻¹ same given;
                file_stored = rw made (scalar-Has _ f db.files loaded);
                of_chunk =
                    rw made ((==_iff f.id e.chunk.file_id).0 (scalar-holds _ db.files f loaded));
                own_file = rw made ((==_iff f.tenant_id tenant_id).0 own);
              }
            ]
          ]
        ]
  ]

  citations_of-Grounded :
      (tenant_id : Uuid) (db : Library) (es : List (RetrievedEvidence S)) (ids used : List String)
      (c : DocumentCitation S)
      → ((id : String) → Has id ids → Has id used)
      → Has c (citations_of tenant_id db es ids)
      → Grounded tenant_id db es used c
  unfolding citations_of
  citations_of-Grounded tenant_id db es [] used c given h = elim h [ ]
  citations_of-Grounded tenant_id db es (id ∷ ids) used c given h =
      elim (Has-append c (cite tenant_id db (evidence_by_id id es)) _ h) [
        | inl m ↦ cite-Grounded tenant_id db es id used c (given id (inl refl)) m
        | inr m ↦ citations_of-Grounded tenant_id db es ids used c (λ i k. given i (inr k)) m
      ]

  -- a citation of a state whose answer is from documents
  answer-Grounded :
      (tenant_id : Uuid) (db : Library)
      (provider : List (RetrievedEvidence S) → DocumentGroundedAnswer)
      (es : List (RetrievedEvidence S)) (c : DocumentCitation S)
      → Has c (generate_document_answer tenant_id db provider es).document_citations
      → Grounded tenant_id db es (provider es).used_evidence_ids c
  unfolding generate_document_answer
  answer-Grounded tenant_id db provider es c h =
      let used = (provider es).used_evidence_ids in
      elim (Bool-cases (is_empty es)) [
        | inl nothing ↦ elim (rw nothing at h) [ ]
        | inr something ↦ elim (Bool-cases (any (λ id. not (is_allowed es id)) used)) [
          | inl wrong ↦ elim (rw (something, wrong) at h) [ ]
          | inr right ↦
              citations_of-Grounded tenant_id db es (distinct_ids [] used) used c
                (λ id m. distinct_ids-Has id [] used m) (rw (something, right) at h)
        ]
      ]

module _ {S : Type 0} (F : Floats S) (text : TextSearch S) (settings : RetrievalSettings S)
    (numbered : String → ℕ → String) where
  -- Whatever the provider answers, each citation of an answer from retrieved evidence is of a piece
  -- of that evidence which the answer used, whose stored chunk is in the tenant, in a knowledge base
  -- asked for and in the active version of a served file, and the file cited is the chunk's and the
  -- tenant's.
  pub generate_document_answer-Grounded :
      (tenant_id : Uuid) (kb_ids : List Uuid) (query : String) (db : Library)
      (provider : List (RetrievedEvidence S) → DocumentGroundedAnswer)
      (es : List (RetrievedEvidence S)) (c : DocumentCitation S)
      → retrieve F text settings numbered tenant_id kb_ids query db ≡ some es
      → Has c (generate_document_answer tenant_id db provider es).document_citations
      → Grounded tenant_id db es (provider es).used_evidence_ids c
        × IsActive tenant_id kb_ids db c.chunk
  generate_document_answer-Grounded tenant_id kb_ids query db provider es c run h =
      let g = answer-Grounded tenant_id db provider es c h in
      (
        g,
        rw g.of_evidence (
            retrieve-IsActive F text settings numbered tenant_id kb_ids query db es g.evidence run
              g.retrieved),
      )
