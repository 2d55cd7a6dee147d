-- ===== src/Examples/Calls.antt =====
-- Calls of the query service with the example statement over the example catalog.
use tenant_intelligence_plat.Permissions.Repository.{effective_permissions, table_columns, columns}
use tenant_intelligence_plat.Base.{
  ℕ, ◌≡◌, ◌⊎◌, refl, String, Bool, true, false, some, inl, inr, List, [], ◌∷◌, ◌++◌, sort_by,
  put_all,
}
use tenant_intelligence_plat.Exec.{ok}
use tenant_intelligence_plat.Permissions.Models.{DatabaseConnection}
use tenant_intelligence_plat.Permissions.Resolver.{
  EffectiveColumn, EffectiveTable, strongest, strongest_from, resolve, selected, table_row,
  merge_columns, merge_filters,
}
use tenant_intelligence_plat.Queries.SqlGlot.{no_sources, table_source, no_scopes}
use tenant_intelligence_plat.Queries.Lineage.{
  analyze, scope_outputs, projections, projection_lineage, resolve_column, source_column,
  table_matches, table_by_qualified_name, merge_sources, strongest_mask, reject_duplicate_names,
}
use tenant_intelligence_plat.Queries.Validator.{
  QuerySettings, validate, statement_errors, complexity_errors, validate_scope, scope_aliases,
  source_errors, source_table, column_target, scope_ancestor, is_one_of,
}
use tenant_intelligence_plat.Queries.Validator.Statement.{accepts}
use tenant_intelligence_plat.Queries.Validator.Capabilities.{
  validate-SafeTable, validate-Permitted, SafeTable, Permitted,
}
use tenant_intelligence_plat.Queries.Rewriter.{
  RewrittenQuery, LimitClause, no_limit, rewrite, transform, apply_limit, compile_filters,
  either_of,
}
use tenant_intelligence_plat.Results.{text, mask_rows, mask_from, safe_row, normalize, mask}
use tenant_intelligence_plat.Queries.Executor.{
  QueryStore, SafeQueryResult, AdapterAnswer, returned, execute, run, sanitized_sql, get_connection,
}
use tenant_intelligence_plat.Queries.Executor.Attempts.{execute-NonePending, NonePending}
use tenant_intelligence_plat.Queries.Executor.Answers.{
  execute-Sends, execute-Returns, Sends, Returns,
}
use tenant_intelligence_plat.Examples.Tokens.{crypto}
use tenant_intelligence_plat.Examples.Catalogs.{catalog, effective}
use tenant_intelligence_plat.Examples.Rows.{mask_ops, masker}
use tenant_intelligence_plat.Examples.Statements.{
  Node, outer_select, inner_select, inner_column, customers, sqlglot, same_text,
}
use tenant_intelligence_plat.Examples.Filters.{numbered, no_text}

abbrev settings : QuerySettings
settings = record {
  max_joins = 8;
  max_ctes = 5;
  max_selected_columns = 50;
  max_subquery_depth = 4;
  max_rows = 100;
}

abbrev begins : String → String → Bool
begins s prefix = false

abbrev sql : String
sql = "SELECT c.email FROM (SELECT email FROM customers) AS c"

accepted :
    (accepts sqlglot same_text same_text begins numbered settings effective sql).accepted ≡ true
unfolding validate statement_errors complexity_errors validate_scope scope_aliases source_errors
    source_table column_target scope_ancestor is_one_of analyze scope_outputs projections
    projection_lineage resolve_column source_column table_matches table_by_qualified_name
    merge_sources strongest_mask reject_duplicate_names strongest strongest_from sort_by put_all
accepted = refl

carried :
    (accepts sqlglot same_text same_text begins numbered settings effective sql).expression
    ≡ some outer_select
unfolding validate statement_errors complexity_errors validate_scope scope_aliases source_errors
    source_table column_target scope_ancestor is_one_of analyze scope_outputs projections
    projection_lineage resolve_column source_column table_matches table_by_qualified_name
    merge_sources strongest_mask reject_duplicate_names strongest strongest_from sort_by put_all
carried = refl

validate-SafeTable_example :
    (t : EffectiveTable) × SafeTable sqlglot same_text same_text begins numbered settings effective
      "customers" customers
      (table_source "customers" customers no_sources)
      t
validate-SafeTable_example =
    validate-SafeTable sqlglot same_text same_text begins numbered settings effective sql
      outer_select inner_select customers "customers"
      (table_source "customers" customers no_sources) (inner_column ∷ []) no_scopes accepted carried
      (inl refl) (inl (refl, refl))

validate-Permitted_example :
    (t : EffectiveTable) × (c : EffectiveColumn) × Permitted sqlglot same_text same_text begins
      numbered settings effective inner_select
      (table_source "customers" customers no_sources)
      inner_column
      t
      c
unfolding scope_aliases source_table is_one_of table_matches table_by_qualified_name put_all
validate-Permitted_example =
    validate-Permitted sqlglot same_text same_text begins numbered settings effective sql
      outer_select inner_select inner_column (table_source "customers" customers no_sources)
      (inner_column ∷ []) no_scopes accepted carried (inl refl) (inl refl)
      (refl, inr (refl, ("customers", customers, inl (refl, refl))))

abbrev first_text : String → ℕ → String
first_text t i = t

abbrev shown : Node → String
shown n = "SELECT"

abbrev visited : Node → List Node
visited n = customers ∷ []

abbrev unlimited : Node → LimitClause
unlimited n = no_limit

abbrev reachable : DatabaseConnection → Bool
reachable c = true

abbrev answer : DatabaseConnection → RewrittenQuery → AdapterAnswer
answer c q = returned ("email" ∷ []) ((("email", text "ada") ∷ []) ∷ []) false

abbrev stores : QueryStore → Bool
stores s = true

abbrev store : QueryStore
store = record { catalog = catalog; status_of = λ id. "connected"; executions = []; sent = [] }

abbrev result : SafeQueryResult
result = record {
  query_execution_id = 50;
  columns = "email" ∷ [];
  rows = (("email", text "hmac-sha256:") ∷ []) ∷ [];
  row_count = 1;
  truncated = false;
}

called :
    (execute sqlglot same_text same_text begins numbered first_text no_text crypto.show_uuid
      crypto.parse_uuid shown visited unlimited mask_ops masker settings reachable answer stores 50
      1 10
      (20 ∷ [])
      30
      sql
      store).0
    ≡ ok result
unfolding execute get_connection run sanitized_sql rewrite transform apply_limit mask_rows mask_from
    safe_row normalize mask validate statement_errors complexity_errors validate_scope scope_aliases
    source_errors source_table column_target scope_ancestor is_one_of analyze scope_outputs
    projections projection_lineage resolve_column source_column table_matches
    table_by_qualified_name merge_sources strongest_mask reject_duplicate_names strongest
    strongest_from sort_by put_all resolve effective_permissions selected table_row merge_columns
    merge_filters table_columns columns compile_filters either_of
called = refl

execute-Returns_example :
    Returns sqlglot same_text same_text begins numbered first_text no_text crypto.show_uuid
      crypto.parse_uuid shown visited unlimited mask_ops masker settings reachable answer stores 1
      10
      (20 ∷ [])
      30
      sql
      store
      (execute sqlglot same_text same_text begins numbered first_text no_text crypto.show_uuid
        crypto.parse_uuid shown visited unlimited mask_ops masker settings reachable answer stores
        50 1 10
        (20 ∷ [])
        30
        sql
        store).1
      result
execute-Returns_example =
    execute-Returns sqlglot same_text same_text begins numbered first_text no_text crypto.show_uuid
      crypto.parse_uuid shown visited unlimited mask_ops masker settings reachable answer stores 50
      1 10 (20 ∷ []) 30 sql store result called

execute-Sends_example :
    ((execute sqlglot same_text same_text begins numbered first_text no_text crypto.show_uuid
        crypto.parse_uuid shown visited unlimited mask_ops masker settings reachable answer stores
        50 1 10
        (20 ∷ [])
        30
        sql
        store).1.sent
      ≡ store.sent)
    ⊎ ((connection : DatabaseConnection) × (statement : Node) × (query : RewrittenQuery) × ((execute
            sqlglot same_text same_text begins numbered first_text no_text crypto.show_uuid
            crypto.parse_uuid shown visited unlimited mask_ops masker settings reachable answer
            stores 50 1 10
            (20 ∷ [])
            30
            sql
            store).1.sent
          ≡ store.sent ++ ((connection, query) ∷ []))
        × Sends sqlglot same_text same_text begins numbered first_text no_text crypto.show_uuid
            crypto.parse_uuid shown visited unlimited mask_ops masker settings reachable answer
            stores 1 10
            (20 ∷ [])
            30
            sql
            store
            connection
            statement
            query)
execute-Sends_example =
    execute-Sends sqlglot same_text same_text begins numbered first_text no_text crypto.show_uuid
      crypto.parse_uuid shown visited unlimited mask_ops masker settings reachable answer stores 50
      1 10 (20 ∷ []) 30 sql store

none_pending : NonePending store.executions
none_pending x h = elim h [ ]

execute-NonePending_example :
    NonePending
      (execute sqlglot same_text same_text begins numbered first_text no_text crypto.show_uuid
        crypto.parse_uuid shown visited unlimited mask_ops masker settings reachable answer stores
        50 1 10
        (20 ∷ [])
        30
        sql
        store).1.executions
execute-NonePending_example =
    execute-NonePending sqlglot same_text same_text begins numbered first_text no_text
      crypto.show_uuid crypto.parse_uuid shown visited unlimited mask_ops masker settings reachable
      answer stores 50 1 10 (20 ∷ []) 30 sql store (λ s. refl) (λ c q. refl) none_pending
