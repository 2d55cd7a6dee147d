-- ===== src/Agents/Citations.antt =====
-- agents/graph.py: the answer from documents and its citations. The usage of the provider is left
-- out of the update, and the file's name is read from the file.
pub mod Grounding
use tenant_intelligence_plat.Base.{
  ◌≡◌, refl, sym, ap, ◌∙◌, String, Bool, true, false, not, Option, none, some, List, [], ◌∷◌, ◌++◌,
  inl, inr, ◌⊎◌, if◌then◌else◌, arith, Has, Bool-cases, any, all, str_eq, ◌==◌, is_empty, scalar,
  scalar-Has, scalar-holds,
}
use tenant_intelligence_plat.Identity.Models.{Uuid}
use tenant_intelligence_plat.Documents.Models.{StoredFile, DocumentChunk, Library}
use tenant_intelligence_plat.Documents.Retrieval.{
  Floats, RetrievalSettings, TextSearch, RetrievedEvidence, retrieve,
}
use tenant_intelligence_plat.Documents.Retrieval.Sources.{IsActive, retrieve-IsActive}

-- what the provider answers
pub record DocumentGroundedAnswer : Type 0 where
  pub answer : String
  pub warnings : List String
  pub used_evidence_ids : List String

pub record DocumentCitation (S : Type 0) : Type 0 where
  pub file : StoredFile
  pub chunk : DocumentChunk
  pub relevance_score : S

-- what the node writes into the state
pub record AnswerUpdate (S : Type 0) : Type 0 where
  pub answer : String
  pub warnings : List String
  pub sources_used : List String
  pub document_citations : List (DocumentCitation S)
  pub status : String

abbrev pub is_cited_id : String → List String → Bool
is_cited_id id ids = any (str_eq id) ids

-- `dict.fromkeys(ids)`, after the ids seen so far
unfoldable pub distinct_ids : List String → List String → List String
distinct_ids seen [] = []
distinct_ids seen (id ∷ ids) =
    let passed = distinct_ids seen ids in
    let kept = distinct_ids (id ∷ seen) ids in if is_cited_id id seen then passed else id ∷ kept

-- `session.get(StoredFile, file_id)`
abbrev pub get_file : DocumentChunk → Library → Option StoredFile
get_file c db = scalar (λ (f : StoredFile). f.id == c.file_id) db.files

module _ {S : Type 0} where
  -- `allowed[id]`, where a later entry of a key replaces an earlier one
  unfoldable pub evidence_by_id : String → List (RetrievedEvidence S) → Option (RetrievedEvidence S)
  evidence_by_id id [] = none
  evidence_by_id id (e ∷ es) = elim (evidence_by_id id es) [
    | none ↦ if str_eq id e.evidence_id then some e else none
    | some later ↦ some later
  ]

  abbrev pub is_allowed : List (RetrievedEvidence S) → String → Bool
  is_allowed es id = any (λ (e : RetrievedEvidence S). str_eq id e.evidence_id) es

  abbrev pub cite_file : Uuid → RetrievedEvidence S → Option StoredFile → List (DocumentCitation S)
  cite_file tenant_id e none = []
  cite_file tenant_id e (some f) =
      if f.tenant_id == tenant_id
      then record { file = f; chunk = e.chunk; relevance_score = e.score } ∷ []
      else []

  abbrev pub cite : Uuid → Library → Option (RetrievedEvidence S) → List (DocumentCitation S)
  cite tenant_id db none = []
  cite tenant_id db (some e) = cite_file tenant_id e (get_file e.chunk db)

  unfoldable pub citations_of :
      Uuid → Library → List (RetrievedEvidence S) → List String → List (DocumentCitation S)
  unfolding evidence_by_id
  citations_of tenant_id db es [] = []
  citations_of tenant_id db es (id ∷ ids) =
      cite tenant_id db (evidence_by_id id es) ++ citations_of tenant_id db es ids

  abbrev pub sources_of_citations : List (DocumentCitation S) → List String
  sources_of_citations cs = if is_empty cs then [] else "documents" ∷ []

  abbrev pub insufficient : AnswerUpdate S
  insufficient = record {
    answer = "I could not find sufficient authorized document evidence.";
    warnings = "Insufficient document evidence." ∷ [];
    sources_used = [];
    document_citations = [];
    status = "completed";
  }

  abbrev pub ungrounded : AnswerUpdate S
  ungrounded = record {
    answer = "The document answer could not be grounded safely.";
    warnings = "Invalid document citation rejected." ∷ [];
    sources_used = [];
    document_citations = [];
    status = "failed";
  }

  unfoldable pub generate_document_answer :
      Uuid
      → Library
      → (List (RetrievedEvidence S) → DocumentGroundedAnswer)
      → List (RetrievedEvidence S)
      → AnswerUpdate S
  unfolding distinct_ids citations_of
  generate_document_answer tenant_id db provider es =
      let value = provider es in
      let citations = citations_of tenant_id db es (distinct_ids [] value.used_evidence_ids) in
      if is_empty es
      then insufficient
      else if any (λ id. not (is_allowed es id)) value.used_evidence_ids
      then ungrounded
      else record {
        answer = value.answer;
        warnings = value.warnings;
        sources_used = sources_of_citations citations;
        document_citations = citations;
        status = "completed";
      }
