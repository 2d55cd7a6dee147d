-- ===== src/Queries/Executor.antt =====
-- services/database/query_executor.py: a query checked, rewritten, run on the customer's database and
-- masked, with a row of `query_executions` for each attempt. The adapter, the cipher and the
-- registry are parameters, and a cancellation is one that reaches the adapter; the elapsed time, the query type, the log and the fields of a result that
-- repeat the validation are left out.
pub mod Attempts
pub mod Answers
use tenant_intelligence_plat.Base.{
  ℕ, ◌+◌, String, Bool, true, false, not, ◌&&◌, ◌||◌, Option, none, some, List, [], ◌∷◌, ◌++◌, map,
  str_eq, ◌==◌, if◌then◌else◌, length, take, scalar, update_where,
}
use tenant_intelligence_plat.Errors.{
  Error, resource_not_found, query_rejected, integrity, unexpected,
}
use tenant_intelligence_plat.Exec.{
  Result, ok, err, Exec, pure, raise, or_raise, raise_if, commit, ◌>>=◌, ◌>>◌,
}
use tenant_intelligence_plat.Identity.Models.{Uuid}
use tenant_intelligence_plat.Permissions.Dsl.{Json}
use tenant_intelligence_plat.Permissions.Models.{MaskType, DatabaseConnection, Catalog}
use tenant_intelligence_plat.Permissions.Resolver.{EffectiveSchema, resolve}
use tenant_intelligence_plat.Permissions.Compiler.{RuntimeFilterContext}
use tenant_intelligence_plat.Queries.SqlGlot.{SqlGlot}
use tenant_intelligence_plat.Queries.Lineage.{
  Analysis, found, OutputColumnLineage, masking_plan, analyze,
}
use tenant_intelligence_plat.Queries.Validator.{
  QuerySettings, ValidationError, ValidationResult, validate,
}
use tenant_intelligence_plat.Queries.Rewriter.{LimitClause, RewrittenQuery, rewrite}
use tenant_intelligence_plat.Results.{
  MaskOps, ResultMasker, Row, MaskResult, unsafe_metadata, columns_mismatch, masked, mask_rows,
}

pub data ExecutionStatus : Type 0 where
  pending succeeded failed timeout rejected : ExecutionStatus

pub record QueryExecution : Type 0 where
  pub id : Uuid
  pub tenant_id : Uuid
  pub connection_id : Uuid
  pub generated_sql : String
  pub normalized_sql : String
  pub validation_accepted : Bool
  pub validation_errors : List ValidationError
  pub applied_row_filters : List (String × List (List (Uuid × String)))
  pub referenced_tables : List String
  pub referenced_columns : List String
  pub execution_status : ExecutionStatus
  pub error_code : Option String
  pub returned_row_count : ℕ
  pub result_preview : List Row
  pub result_truncated : Bool

-- A statement sent to a customer's database, with the connection that it was sent on.
abbrev pub Sent : Type 0
Sent = DatabaseConnection × RewrittenQuery

-- The tables that the service reads and writes, the status of each connection, and the statements
-- that were sent to customers' databases.
pub record QueryStore : Type 0 where
  pub catalog : Catalog
  pub status_of : Uuid → String
  pub executions : List QueryExecution
  pub sent : List Sent

pub record SafeQueryResult : Type 0 where
  pub query_execution_id : Uuid
  pub columns : List String
  pub rows : List Row
  pub row_count : ℕ
  pub truncated : Bool

-- what the adapter returns or raises
pub data AdapterAnswer : Type 0 where
  returned : List String → List Row → Bool → AdapterAnswer
  timed_out : AdapterAnswer
  raised : AdapterAnswer
  -- CancelledError, which is not an Exception
  cancelled : AdapterAnswer

-- how the body of the `try` ends
pub data Outcome : Type 0 where
  finished : RewrittenQuery → List String → List Row → Bool → Outcome
  timeout_error : Outcome
  other_error : Outcome
  cancelled_error : Outcome

abbrev pub set_execution : Uuid → (QueryExecution → QueryExecution) → QueryStore → QueryStore
set_execution id change db = record db {
  executions = update_where (λ (x : QueryExecution). x.id == id) change db.executions;
}

abbrev pub settled_as : Bool → QueryExecution → QueryExecution
settled_as is_timeout x = record x {
  execution_status = if is_timeout then timeout else failed;
  error_code = some (if is_timeout then "TIMEOUT" else "QUERY_EXECUTION_FAILED");
}

abbrev pub finished_as : RewrittenQuery → List Row → Bool → QueryExecution → QueryExecution
finished_as query rows truncated x = record x {
  applied_row_filters = query.rewriting.applied;
  execution_status = succeeded;
  returned_row_count = length rows;
  result_preview = take 10 rows;
  result_truncated = truncated;
}

-- `get_connection`, with `active_only`
unfoldable pub get_connection : Uuid → Uuid → Catalog → Option DatabaseConnection
get_connection tenant_id connection_id db =
    scalar
      (λ (c : DatabaseConnection).
        c.tenant_id == tenant_id && (c.id == connection_id && c.is_active))
      db.connections

-- `sanitized_sql`, where `redacted e` is the text of a statement with placeholders for its literals
abbrev pub sanitized : {E : Type 0} → (E → String) → Option (List (Option E)) → String
sanitized redacted (some (some e ∷ [])) = redacted e
sanitized redacted (some []) = "[multiple statements removed]"
sanitized redacted (some (x ∷ y ∷ rest)) = "[multiple statements removed]"
sanitized redacted _ = "[unparseable SQL removed]"

abbrev pub text_or_empty : Option String → String
text_or_empty none = ""
text_or_empty (some s) = s

module _ {E : Type 0} (G : SqlGlot E) (casefold upper : String → String)
    (starts_with : String → String → Bool) (numbered marked : String → ℕ → String)
    (python_str : Json → String) (show_uuid : Uuid → String) (parse_uuid : String → Option Uuid)
    (redacted : E → String) (tables_of : E → List E) (limit_of : E → LimitClause) (ops : MaskOps)
    (masker : ResultMasker) (settings : QuerySettings) (can_connect : DatabaseConnection → Bool)
    (adapter : DatabaseConnection → RewrittenQuery → AdapterAnswer)
    (accepts : QueryStore → Bool) where
  unfoldable pub sanitized_sql : String → String
  sanitized_sql sql = sanitized redacted (G.parse sql)

  abbrev pub masked_outcome : RewrittenQuery → List String → Bool → MaskResult → Outcome
  masked_outcome query columns truncated unsafe_metadata = other_error
  masked_outcome query columns truncated columns_mismatch = other_error
  masked_outcome query columns truncated (masked rows cut) =
      finished query columns rows (truncated || cut)

  abbrev pub with_plan :
      RewrittenQuery → List String → List Row → Bool → Analysis (List OutputColumnLineage) → Outcome
  with_plan query columns rows truncated (found outputs) =
      masked_outcome query columns truncated
        (mask_rows ops masker columns rows (masking_plan outputs))
  with_plan query columns rows truncated _ = other_error

  abbrev pub answered : EffectiveSchema → E → RewrittenQuery → AdapterAnswer → Outcome
  answered allowed e query (returned columns rows truncated) =
      with_plan query columns rows truncated (analyze G casefold numbered allowed e)
  answered allowed e query timed_out = timeout_error
  answered allowed e query raised = other_error
  answered allowed e query cancelled = cancelled_error

  -- the body of the `try` up to the update of the row, and the statement that it sends
  abbrev pub sent_query :
      EffectiveSchema → DatabaseConnection → E → Result RewrittenQuery → Option Sent × Outcome
  sent_query allowed connection e (err x) = (none, other_error)
  sent_query allowed connection e (ok query) =
      (some (connection, query), answered allowed e query (adapter connection query))

  unfoldable pub run :
      EffectiveSchema → RuntimeFilterContext → DatabaseConnection → E → Option Sent × Outcome
  run allowed ctx connection e =
      let query =
        rewrite G casefold numbered marked python_str show_uuid parse_uuid allowed ctx
          settings.max_rows (tables_of e) (limit_of e) in
      if can_connect connection then sent_query allowed connection e query else (none, other_error)

  abbrev pub logged : Option Sent → QueryStore → QueryStore
  logged none db = db
  logged (some x) db = record db { sent = db.sent ++ (x ∷ []) }

  -- the `except` branch
  abbrev pub fail_safely : Uuid → Bool → Exec QueryStore SafeQueryResult
  fail_safely id is_timeout =
      commit accepts integrity (set_execution id (settled_as is_timeout)) tt >> raise query_rejected

  abbrev pub succeed_if :
      Bool → Uuid → RewrittenQuery → List String → List Row → Bool → Exec QueryStore SafeQueryResult
  succeed_if true id query columns rows truncated db = (
    ok (record {
      query_execution_id = id;
      columns = columns;
      rows = rows;
      row_count = length rows;
      truncated = truncated;
    }),
    set_execution id (finished_as query rows truncated) db,
  )
  succeed_if false id query columns rows truncated db = fail_safely id false db

  -- the update of the row and its commit; a commit that is refused is an exception too, and a
  -- cancellation passes by the `except` branch
  abbrev pub conclude : Uuid → Outcome → Exec QueryStore SafeQueryResult
  conclude id (finished query columns rows truncated) db =
      succeed_if (accepts (set_execution id (finished_as query rows truncated) db)) id query columns
        rows truncated db
  conclude id timeout_error db = fail_safely id true db
  conclude id other_error db = fail_safely id false db
  conclude id cancelled_error db = raise unexpected db

  abbrev pub attempt :
      Uuid
      → EffectiveSchema
      → RuntimeFilterContext
      → DatabaseConnection
      → E
      → Exec QueryStore SafeQueryResult
  attempt id allowed ctx connection e db =
      let outcome = run allowed ctx connection e in conclude id outcome.1 (logged outcome.0 db)

  abbrev pub new_execution : Uuid → Uuid → Uuid → String → ValidationResult E → QueryExecution
  new_execution id tenant_id connection_id sql validation = record {
    id = id;
    tenant_id = tenant_id;
    connection_id = connection_id;
    generated_sql = sanitized_sql sql;
    normalized_sql = sanitized_sql (text_or_empty validation.normalized_sql);
    validation_accepted = validation.accepted;
    validation_errors = validation.errors;
    applied_row_filters = [];
    referenced_tables = validation.referenced_tables;
    referenced_columns = validation.referenced_columns;
    execution_status = if validation.accepted then pending else rejected;
    error_code = none;
    returned_row_count = 0;
    result_preview = [];
    result_truncated = false;
  }

  abbrev pub add_execution : QueryExecution → QueryStore → QueryStore
  add_execution x db = record db { executions = db.executions ++ (x ∷ []) }

  abbrev pub proceed :
      Uuid
      → EffectiveSchema
      → RuntimeFilterContext
      → DatabaseConnection
      → Option E
      → Exec QueryStore SafeQueryResult
  proceed id allowed ctx connection none = raise query_rejected
  proceed id allowed ctx connection (some e) = attempt id allowed ctx connection e

  abbrev pub is_connected : QueryStore → DatabaseConnection → Bool
  is_connected db connection = str_eq (db.status_of connection.id) "connected"

  abbrev pub execute_on :
      Uuid → Uuid → Uuid → List Uuid → String → DatabaseConnection → Exec QueryStore SafeQueryResult
  execute_on id tenant_id user_id role_ids sql connection db =
      let allowed = resolve tenant_id user_id role_ids connection.id db.catalog in
      let validation = validate G casefold upper starts_with numbered settings allowed sql in
      (do
        raise_if (not (is_connected db connection)) resource_not_found
        commit accepts integrity
            (add_execution (new_execution id tenant_id connection.id sql validation)) tt
        raise_if (not validation.accepted) query_rejected
        proceed id allowed (record { user_id = user_id; tenant_id = tenant_id }) connection
            validation.expression)
        db

  -- `id` is the fresh identifier of the row
  unfoldable pub execute :
      Uuid → Uuid → Uuid → List Uuid → Uuid → String → Exec QueryStore SafeQueryResult
  unfolding run sanitized_sql get_connection
  execute id tenant_id user_id role_ids connection_id sql db =
      (or_raise (get_connection tenant_id connection_id db.catalog) resource_not_found
          >>= execute_on id tenant_id user_id role_ids sql)
        db
