-- ===== src/Examples/Searches.antt =====
-- A search of a published file, whose two chunks have one content, an answer that cites it, and runs
-- of the chat graph.
use tenant_intelligence_plat.Base.{
  ℕ, zero, suc, Has, Bool, false, sym, some, none, ◌≡◌, ◌*◌, ◌+◌, ◌-◌, ◌/◌, max, min, true, refl,
  inl, List, [], ◌∷◌, ltb, arith, sort_by, str_leb,
}
use tenant_intelligence_plat.Permissions.Dsl.{obj, end}
use tenant_intelligence_plat.Documents.Models.{StoredFile, Library, DocumentChunk}
use tenant_intelligence_plat.Documents.Worker.{publication, mark_ready}
use tenant_intelligence_plat.Documents.Retrieval.{
  Floats, RetrievalSettings, TextSearch, RetrievedEvidence, dense_candidates, lexical_candidates,
  add_rank, merge_ranks, select_evidence, is_active_chunk, active_chunks, retrieve,
}
use tenant_intelligence_plat.Documents.Retrieval.Sources.{IsActive, retrieve-IsActive}
use tenant_intelligence_plat.Documents.Retrieval.Selection.{Bounded, retrieve-Bounded}
use tenant_intelligence_plat.Agents.Routing.{
  generate_answer, hybrid, RequestClassification, SourceSelectionContext, Run, here, step,
  load_context, classify_request, select_source, is_selected, route_of, resolve_classification,
  successors, Run-IsSelected,
}
use tenant_intelligence_plat.Agents.Repair.{
  ExecutionAnswer, returned, rejected, unexecuted, execute_loop, execute_loop-ends,
}
use tenant_intelligence_plat.Agents.Citations.{
  DocumentGroundedAnswer, DocumentCitation, evidence_by_id, distinct_ids, citations_of,
  generate_document_answer,
}
use tenant_intelligence_plat.Agents.Citations.Grounding.{
  Grounded, generate_document_answer-Grounded,
}
use mathlib.Core.Path.{subst}
use tenant_intelligence_plat.Examples.Ingestions.{held, work, begun}
use tenant_intelligence_plat.Examples.Filters.{numbered}

-- scores in hundredths
abbrev hundredths : Floats ℕ
hundredths = record {
  decimal = λ n d. (n * 100) / d;
  plus = λ a b. a + b;
  minus = λ a b. a - b;
  times = λ a b. (a * b) / 100;
  maximum = max;
  minimum = min;
  less = ltb;
}

abbrev text_search : TextSearch ℕ
text_search = record {
  distance = λ vector c. 20;
  rank = λ query c. 50;
  matches = λ query c. true;
  embed = λ query. 1 ∷ [];
  terms = λ query. 2;
  shared_terms = λ query c. 1;
  char_count = λ s. 13;
  id_text = λ c. "id";
}

abbrev search_settings : RetrievalSettings ℕ
search_settings = record {
  dense_candidates = 30;
  lexical_candidates = 30;
  final_top_k = 8;
  max_evidence_characters = 1000;
  min_relevance = 15;
  embedding_dimension = 1;
}

abbrev published : Library
published = publication held 1 work 520 begun

abbrev published_file : StoredFile
published_file = mark_ready held 1 work 520 held

abbrev first_chunk : DocumentChunk
first_chunk = record {
  tenant_id = 1;
  knowledge_base_id = 50;
  file_id = 60;
  ingestion_version = 1;
  chunk_index = 0;
  content = "words";
  content_hash = "words";
  page_number = some 4;
  section_title = none;
  sheet_name = none;
  row_start = none;
  row_end = none;
  token_count = 2;
  chunk_metadata = obj end;
  embedding = 1 ∷ [];
}

abbrev piece : RetrievedEvidence ℕ
piece = record { evidence_id = numbered "DOC" 1; chunk = first_chunk; score = 68 }

one_piece :
    retrieve hundredths text_search search_settings numbered 1 (50 ∷ []) "one four" published
    ≡ some (piece ∷ [])
unfolding retrieve dense_candidates lexical_candidates merge_ranks add_rank select_evidence
    active_chunks is_active_chunk sort_by str_leb
one_piece = refl

retrieve-IsActive_example : IsActive 1 (50 ∷ []) published first_chunk
retrieve-IsActive_example =
    retrieve-IsActive hundredths text_search search_settings numbered 1 (50 ∷ []) "one four"
      published (piece ∷ []) piece one_piece (inl refl)

retrieve-Bounded_example :
    (es : List (RetrievedEvidence ℕ)) × (retrieve hundredths text_search search_settings numbered 1
        (50 ∷ [])
        "one four"
        published
      ≡ some es)
    × Bounded hundredths text_search search_settings numbered es
retrieve-Bounded_example =
    retrieve-Bounded hundredths text_search search_settings numbered 1 (50 ∷ []) "one four"
      published (omega arith) refl

abbrev cited_answer : List (RetrievedEvidence ℕ) → DocumentGroundedAnswer
cited_answer es = record {
  answer = "one";
  warnings = [];
  used_evidence_ids = numbered "DOC" 1 ∷ numbered "DOC" 1 ∷ [];
}

abbrev citation : DocumentCitation ℕ
citation = record { file = published_file; chunk = first_chunk; relevance_score = 68 }

one_citation :
    (generate_document_answer 1 published cited_answer (piece ∷ [])).document_citations
    ≡ citation ∷ []
unfolding generate_document_answer citations_of evidence_by_id distinct_ids
one_citation = refl

generate_document_answer-Grounded_example :
    Grounded 1 published (piece ∷ []) (cited_answer (piece ∷ [])).used_evidence_ids citation
    × IsActive 1 (50 ∷ []) published first_chunk
generate_document_answer-Grounded_example =
    generate_document_answer-Grounded hundredths text_search search_settings numbered 1 (50 ∷ [])
      "one four" published cited_answer (piece ∷ []) citation one_piece
      (subst (λ cs. Has citation cs) (sym one_citation) (inl refl))

-- the model asks for both sources, and the user selected a database
abbrev model_answer : RequestClassification ℕ
model_answer = record {
  intent = hybrid;
  confidence = 90;
  clarification_question = none;
  short_reason = "both";
}

abbrev database_only : SourceSelectionContext
database_only = record {
  database_sources_selected = true;
  document_sources_selected = false;
  database_source_count = 1;
  document_source_count = 0;
}

abbrev low_confidence : ℕ → Bool
low_confidence c = ltb c 60

visited_source : Run (route_of low_confidence model_answer database_only) load_context select_source
unfolding successors route_of resolve_classification
visited_source =
    step load_context classify_request select_source
      (step load_context load_context classify_request (here load_context) (inl refl)) (inl refl)

Run-IsSelected_example : is_selected database_only select_source ≡ true
Run-IsSelected_example =
    Run-IsSelected low_confidence model_answer database_only select_source visited_source

-- a proposal that does not parse, and its repair
abbrev repaired_answers : ℕ → ExecutionAnswer
repaired_answers zero = rejected ("INVALID_SQL" ∷ [])
repaired_answers (suc n) = returned

execute_loop-ends_example : execute_loop 2 repaired_answers 0 unexecuted ≡ some (generate_answer, 2)
execute_loop-ends_example = execute_loop-ends 0 repaired_answers
