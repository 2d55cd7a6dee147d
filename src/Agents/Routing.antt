-- ===== src/Agents/Routing.antt =====
-- agents/graph.py: how a request is classified, and which nodes its run can visit. A confidence is a
-- floating-point number, a parameter with its test `confidence < 0.6`.
use tenant_intelligence_plat.Base.{
  ℕ, ◌≡◌, refl, String, Bool, true, false, not, ◌&&◌, ◌||◌, Option, none, some, List, [], ◌∷◌, inl,
  inr, if◌then◌else◌, arith, Has, Bool-cases, all, all-Has,
}

pub data Intent : Type 0 where
  general : Intent
  database : Intent
  document : Intent
  hybrid : Intent
  clarification : Intent

pub record SourceSelectionContext : Type 0 where
  pub database_sources_selected : Bool
  pub document_sources_selected : Bool
  pub database_source_count : ℕ
  pub document_source_count : ℕ

pub record RequestClassification (S : Type 0) : Type 0 where
  pub intent : Intent
  pub confidence : S
  pub clarification_question : Option String
  pub short_reason : String

-- the nodes of the graph
pub data Node : Type 0 where
  load_context : Node
  classify_request : Node
  select_source : Node
  retrieve_schema : Node
  generate_sql : Node
  validate_execute : Node
  repair_sql : Node
  generate_answer : Node
  general_answer : Node
  unsupported_answer : Node
  clarification_answer : Node
  select_document_source : Node
  rewrite_document_query : Node
  retrieve_documents : Node
  generate_document_answer : Node
  hybrid_chat : Node
  persist_result : Node

-- what `route_intent` may return
pub data Route : Type 0 where
  route_database : Route
  route_document : Route
  route_hybrid : Route
  route_general : Route
  route_unsupported : Route
  route_clarification : Route

abbrev pub needs_source : Intent → Bool
needs_source database = true
needs_source document = true
needs_source hybrid = true
needs_source general = false
needs_source clarification = false

abbrev pub is_clarification : Intent → Bool
is_clarification clarification = true
is_clarification _ = false

abbrev pub route_intent : Intent → Route
route_intent database = route_database
route_intent general = route_general
route_intent document = route_document
route_intent hybrid = route_hybrid
route_intent clarification = route_clarification

-- the conditional edges after classify_request
abbrev pub first_node : Route → Node
first_node route_database = select_source
first_node route_document = select_document_source
first_node route_hybrid = hybrid_chat
first_node route_general = general_answer
first_node route_unsupported = unsupported_answer
first_node route_clarification = clarification_answer

-- the edges of the graph, where the edge from classify_request is the one that its route takes, and
-- the other conditional edges are all there
unfoldable pub successors : Route → Node → List Node
successors route load_context = classify_request ∷ []
successors route classify_request = first_node route ∷ []
successors route select_source = retrieve_schema ∷ []
successors route retrieve_schema = generate_sql ∷ clarification_answer ∷ []
successors route generate_sql = validate_execute ∷ clarification_answer ∷ []
successors route validate_execute = generate_answer ∷ repair_sql ∷ persist_result ∷ []
successors route repair_sql = validate_execute ∷ []
successors route select_document_source = rewrite_document_query ∷ clarification_answer ∷ []
successors route rewrite_document_query = retrieve_documents ∷ []
successors route retrieve_documents = generate_document_answer ∷ []
successors route generate_answer = persist_result ∷ []
successors route general_answer = persist_result ∷ []
successors route unsupported_answer = persist_result ∷ []
successors route clarification_answer = persist_result ∷ []
successors route generate_document_answer = persist_result ∷ []
successors route hybrid_chat = persist_result ∷ []
successors route persist_result = []

module _ {S : Type 0} (is_low : S → Bool) where
  abbrev pub asks : String → String → RequestClassification S → RequestClassification S
  asks question reason model = record {
    intent = clarification;
    confidence = model.confidence;
    clarification_question = some question;
    short_reason = reason;
  }

  abbrev pub selects : Intent → RequestClassification S → RequestClassification S
  selects intent model = record {
    intent = intent;
    confidence = model.confidence;
    clarification_question = none;
    short_reason = "explicit selected source categories";
  }

  unfoldable pub resolve_classification :
      RequestClassification S → SourceSelectionContext → RequestClassification S
  resolve_classification model selection =
      if selection.database_sources_selected && selection.document_sources_selected
      then selects hybrid model
      else if selection.document_sources_selected
      then selects document model
      else if selection.database_sources_selected
      then selects database model
      else if needs_source model.intent
      then asks "Which authorized source should I use?" "required source selection missing" model
      else if is_low model.confidence && not (is_clarification model.intent)
      then asks "Could you clarify your request?" "low confidence" model
      else model

  -- `classify_request` with the model's answer, then `route_intent`
  unfoldable pub route_of : RequestClassification S → SourceSelectionContext → Route
  unfolding resolve_classification
  route_of model selection = route_intent (resolve_classification model selection).intent

-- A run of the graph along its edges.
pub data Run (route : Route) : Node → Node → Type 0 where
  here : (n : Node) → Run route n n
  step : (l m n : Node) → Run route l m → Has n (successors route m) → Run route l n

-- the nodes that use a database connection or its rows
abbrev pub uses_database : Node → Bool
uses_database select_source = true
uses_database retrieve_schema = true
uses_database generate_sql = true
uses_database validate_execute = true
uses_database repair_sql = true
uses_database generate_answer = true
uses_database hybrid_chat = true
uses_database _ = false

-- the nodes that use knowledge bases or their evidence
abbrev pub uses_documents : Node → Bool
uses_documents select_document_source = true
uses_documents rewrite_document_query = true
uses_documents retrieve_documents = true
uses_documents generate_document_answer = true
uses_documents hybrid_chat = true
uses_documents _ = false

-- a node that the selection of the user allows
abbrev pub is_selected : SourceSelectionContext → Node → Bool
is_selected selection unsupported_answer = false
is_selected selection n =
    (not (uses_database n) || selection.database_sources_selected)
    && (not (uses_documents n) || selection.document_sources_selected)

free-IsSelected :
    (i : Intent) (selection : SourceSelectionContext)
    → needs_source i ≡ false
    → is_selected selection (first_node (route_intent i)) ≡ true
free-IsSelected general selection free = refl
free-IsSelected clarification selection free = refl
free-IsSelected database selection free = absurd (ground arith)
free-IsSelected document selection free = absurd (ground arith)
free-IsSelected hybrid selection free = absurd (ground arith)

module _ {S : Type 0} (is_low : S → Bool) where
  -- The route of a classified request begins with a node that the selection allows.
  first_node-IsSelected :
      (model : RequestClassification S) (selection : SourceSelectionContext)
      → is_selected selection (first_node (route_of is_low model selection)) ≡ true
  unfolding route_of resolve_classification
  first_node-IsSelected model selection = elim (Bool-cases selection.database_sources_selected) [
    | inl d ↦ elim (Bool-cases selection.document_sources_selected) [
      | inl k ↦ rw (d, k) refl
      | inr k ↦ rw (d, k) refl
    ]
    | inr d ↦ elim (Bool-cases selection.document_sources_selected) [
      | inl k ↦ rw (d, k) refl
      | inr k ↦ elim (Bool-cases (needs_source model.intent)) [
        | inl n ↦ rw (d, k, n) refl
        | inr n ↦
            elim (Bool-cases (is_low model.confidence && not (is_clarification model.intent))) [
              | inl l ↦ rw (d, k, n, l) refl
              | inr l ↦
                  rw (d, k, n, l)
                    (free-IsSelected model.intent
                      (record selection {
                        database_sources_selected = false;
                        document_sources_selected = false;
                      })
                      n)
            ]
      ]
    ]
  ]

  -- The edges of a node that the selection allows lead to such nodes.
  edges-IsSelected :
      (route : Route) (selection : SourceSelectionContext) (m : Node)
      → is_selected selection (first_node route) ≡ true
      → is_selected selection m ≡ true
      → all (is_selected selection) (successors route m) ≡ true
  unfolding successors
  edges-IsSelected route selection load_context first h = ground arith
  edges-IsSelected route selection classify_request first h = ground arith
  edges-IsSelected route selection select_source first h = ground arith
  edges-IsSelected route selection retrieve_schema first h = ground arith
  edges-IsSelected route selection generate_sql first h = ground arith
  edges-IsSelected route selection validate_execute first h = ground arith
  edges-IsSelected route selection repair_sql first h = ground arith
  edges-IsSelected route selection generate_answer first h = ground arith
  edges-IsSelected route selection general_answer first h = ground arith
  edges-IsSelected route selection unsupported_answer first h = ground arith
  edges-IsSelected route selection clarification_answer first h = ground arith
  edges-IsSelected route selection select_document_source first h = ground arith
  edges-IsSelected route selection rewrite_document_query first h = ground arith
  edges-IsSelected route selection retrieve_documents first h = ground arith
  edges-IsSelected route selection generate_document_answer first h = ground arith
  edges-IsSelected route selection hybrid_chat first h = ground arith
  edges-IsSelected route selection persist_result first h = ground arith

  -- A run that begins with a node that the selection allows ends with one.
  from-IsSelected :
      (model : RequestClassification S) (selection : SourceSelectionContext) (m n : Node)
      → Run (route_of is_low model selection) m n
      → is_selected selection m ≡ true
      → is_selected selection n ≡ true
  from-IsSelected model selection m n (here _) begins = begins
  from-IsSelected model selection l n (step _ m _ path edge) begins =
      all-Has (is_selected selection) n (successors (route_of is_low model selection) m)
        (edges-IsSelected (route_of is_low model selection) selection m
          (first_node-IsSelected model selection) (from-IsSelected model selection l m path begins))
        edge

  -- Whatever the model answers, a run of the graph visits a node of the database only where the user
  -- selected a database, and a node of documents only where the user selected documents; it never
  -- visits unsupported_answer.
  pub Run-IsSelected :
      (model : RequestClassification S) (selection : SourceSelectionContext) (n : Node)
      → Run (route_of is_low model selection) load_context n
      → is_selected selection n ≡ true
  Run-IsSelected model selection n path = from-IsSelected model selection load_context n path refl
