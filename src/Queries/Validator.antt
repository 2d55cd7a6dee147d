-- ===== src/Queries/Validator.antt =====
-- services/database/query_validator.py: a statement checked against what the user may read. An
-- error stands for its code and message.
pub mod Statement
pub mod Capabilities
use tenant_intelligence_plat.Base.{
  ℕ, suc, ◌+◌, String, Bool, true, false, not, ◌&&◌, ◌||◌, Option, none, some, List, [], ◌∷◌, ◌++◌,
  map, str_eq, ltb, if◌then◌else◌, is_empty, any, length, select, scalar, sort_by, str_leb, join,
  dict_values,
}
use tenant_intelligence_plat.Permissions.Resolver.{EffectiveColumn, EffectiveTable, EffectiveSchema}
use tenant_intelligence_plat.Queries.SqlGlot.{
  NodeClass, SqlGlot, Scope, Sources, scope, no_sources, table_source, scope_source,
}
use tenant_intelligence_plat.Queries.Lineage.{
  LineageError, lineage_unresolved, duplicate_output_column, Analysis, found, failed,
  OutputColumnLineage, dotted, one_table, table_matches, analyze,
}

-- the `safe_query_*` settings
pub record QuerySettings : Type 0 where
  pub max_joins : ℕ
  pub max_ctes : ℕ
  pub max_selected_columns : ℕ
  pub max_subquery_depth : ℕ
  pub max_rows : ℕ

pub data ValidationError : Type 0 where
  invalid_sql multiple_statements comments_blocked read_only_required blocked_operation :
      ValidationError
  star_blocked too_many_joins too_many_ctes too_many_columns subquery_too_deep : ValidationError
  system_schema_blocked table_not_allowed ambiguous_or_hidden_column : ValidationError
  column_not_allowed column_not_filterable column_not_aggregatable function_blocked :
      ValidationError
  lineage : LineageError → ValidationError

unfoldable pub code : ValidationError → String
code invalid_sql = "INVALID_SQL"
code multiple_statements = "MULTIPLE_STATEMENTS"
code comments_blocked = "COMMENTS_BLOCKED"
code read_only_required = "READ_ONLY_REQUIRED"
code blocked_operation = "BLOCKED_OPERATION"
code star_blocked = "STAR_BLOCKED"
code too_many_joins = "TOO_MANY_JOINS"
code too_many_ctes = "TOO_MANY_CTES"
code too_many_columns = "TOO_MANY_COLUMNS"
code subquery_too_deep = "SUBQUERY_TOO_DEEP"
code system_schema_blocked = "SYSTEM_SCHEMA_BLOCKED"
code table_not_allowed = "TABLE_NOT_ALLOWED"
code ambiguous_or_hidden_column = "AMBIGUOUS_OR_HIDDEN_COLUMN"
code column_not_allowed = "COLUMN_NOT_ALLOWED"
code column_not_filterable = "COLUMN_NOT_FILTERABLE"
code column_not_aggregatable = "COLUMN_NOT_AGGREGATABLE"
code function_blocked = "FUNCTION_BLOCKED"
code (lineage lineage_unresolved) = "LINEAGE_UNRESOLVED"
code (lineage duplicate_output_column) = "DUPLICATE_OUTPUT_COLUMN"

pub record ValidationResult (E : Type 0) : Type 0 where
  pub accepted : Bool
  pub expression : Option E
  pub normalized_sql : Option String
  pub errors : List ValidationError
  pub referenced_tables : List String
  pub referenced_columns : List String

-- `SAFE_FUNCTIONS` and `SYSTEM_SCHEMAS`
abbrev pub safe_functions : List String
safe_functions =
    "ABS" ∷ "AVG" ∷ "CAST" ∷ "COALESCE" ∷ "COUNT" ∷ "DATE_TRUNC" ∷ "EXTRACT" ∷ "GREATEST" ∷ "LEAST"
    ∷ "LENGTH" ∷ "LOWER" ∷ "MAX" ∷ "MIN" ∷ "NULLIF" ∷ "ROUND" ∷ "SUM" ∷ "UPPER" ∷ []

abbrev pub system_schemas : List String
system_schemas = "pg_catalog" ∷ "information_schema" ∷ "pg_toast" ∷ []

unfoldable pub is_one_of : String → List String → Bool
is_one_of s names = any (str_eq s) names

abbrev pub blocked_classes : List NodeClass
blocked_classes =
    NodeClass.insert ∷ NodeClass.update ∷ NodeClass.delete ∷ NodeClass.merge ∷ NodeClass.create
    ∷ NodeClass.drop ∷ NodeClass.alter ∷ NodeClass.command ∷ NodeClass.copy ∷ NodeClass.grant
    ∷ NodeClass.revoke ∷ NodeClass.lock ∷ NodeClass.into ∷ []

abbrev pub read_only_classes : List NodeClass
read_only_classes = NodeClass.select ∷ NodeClass.union ∷ NodeClass.intersect ∷ NodeClass.except ∷ []

abbrev pub filter_classes : List NodeClass
filter_classes = NodeClass.where_clause ∷ NodeClass.join ∷ NodeClass.having ∷ []

abbrev pub error_if : Bool → ValidationError → List ValidationError
error_if true e = e ∷ []
error_if false e = []

-- `tuple(sorted(names))` of a set
abbrev pub sorted_set : List String → List String
sorted_set names = sort_by str_leb (dict_values str_eq names)

-- `tuple(dict.fromkeys(...))`
abbrev pub unique_errors : List ValidationError → List ValidationError
unique_errors errors = dict_values (λ a b. str_eq (code a) (code b)) errors

abbrev pub exact_column : String → EffectiveTable → Option EffectiveColumn
exact_column name table =
    scalar (λ (c : EffectiveColumn). str_eq c.metadata.column_name name) table.columns

-- what a loop over the sources or the columns of a scope adds
pub record Findings : Type 0 where
  pub errors : List ValidationError
  pub tables : List String
  pub columns : List String

pub data ColumnTarget : Type 0 where
  -- the column is not one of a base table
  elsewhere : ColumnTarget
  ambiguous : ColumnTarget
  unknown : ColumnTarget
  target : EffectiveTable → EffectiveColumn → ColumnTarget

abbrev pub found_column : EffectiveTable → Option EffectiveColumn → ColumnTarget
found_column table none = unknown
found_column table (some c) = target table c

abbrev pub sole_candidate : Bool → List (EffectiveTable × EffectiveColumn) → ColumnTarget
sole_candidate has_aliases ((table, column) ∷ []) = target table column
sole_candidate has_aliases _ = if has_aliases then ambiguous else elsewhere

-- `text` has what Python's casefold, upper and startswith("pg_") do.
module _ {E : Type 0} (G : SqlGlot E) (casefold upper : String → String)
    (starts_with : String → String → Bool) (numbered : String → ℕ → String)
    (settings : QuerySettings) (allowed : EffectiveSchema) where
  abbrev pub is_any : List NodeClass → E → Bool
  is_any kinds node = any (λ k. G.isinstance node k) kinds

  abbrev pub find_all : NodeClass → E → List E
  find_all kind e = select (λ n. G.isinstance n kind) (G.walk e)

  -- the number of subqueries around a node
  abbrev pub subquery_depth : E → ℕ
  subquery_depth node = length (select (λ n. G.isinstance n NodeClass.subquery) (G.ancestors node))

  abbrev pub complexity_parts : E → List (List ValidationError)
  complexity_parts e =
      error_if (ltb settings.max_joins (length (find_all NodeClass.join e))) too_many_joins
      ∷ error_if (ltb settings.max_ctes (length (find_all NodeClass.cte e))) too_many_ctes
      ∷ error_if
          (any (λ s. ltb settings.max_selected_columns (length (G.expressions s)))
            (find_all NodeClass.select e))
          too_many_columns
      ∷ error_if
          (any (λ s. ltb settings.max_subquery_depth (subquery_depth s + 1))
            (find_all NodeClass.subquery e))
          subquery_too_deep
      ∷ []

  -- `_complexity_errors`
  unfoldable pub complexity_errors : E → List ValidationError
  complexity_errors e = join (complexity_parts e) (λ part. part)

  -- `_has_scope_ancestor`, over the ancestors of the node
  unfoldable pub scope_ancestor : List NodeClass → E → List E → Bool
  scope_ancestor kinds boundary [] = false
  scope_ancestor kinds boundary (a ∷ rest) =
      let above = scope_ancestor kinds boundary rest in
      is_any kinds a || (not (G.is_node a boundary) && above)

  abbrev pub is_system_schema : String → Bool
  is_system_schema name =
      is_one_of (casefold name) system_schemas || starts_with (casefold name) "pg_"

  abbrev pub aliased : String → Option EffectiveTable → List (String × EffectiveTable)
  aliased alias none = []
  aliased alias (some table) = (alias, table) ∷ []

  -- the table of a source that is not of a system schema and matches one allowed table
  unfoldable pub source_table : E → Option EffectiveTable
  source_table source =
      if is_system_schema (G.db source)
      then none
      else one_table (table_matches G casefold numbered allowed source)

  abbrev pub source_error : E → List ValidationError
  source_error source =
      if is_system_schema (G.db source)
      then system_schema_blocked ∷ []
      else elim (one_table (table_matches G casefold numbered allowed source)) [
        | none ↦ table_not_allowed ∷ []
        | some t ↦ []
      ]

  -- `aliases`
  unfoldable pub scope_aliases : Sources E → List (String × EffectiveTable)
  unfolding source_table
  scope_aliases no_sources = []
  scope_aliases (table_source alias t rest) = aliased alias (source_table t) ++ scope_aliases rest
  scope_aliases (scope_source alias s rest) = scope_aliases rest

  unfoldable pub source_errors : Sources E → List ValidationError
  source_errors no_sources = []
  source_errors (table_source alias t rest) = source_error t ++ source_errors rest
  source_errors (scope_source alias s rest) = source_errors rest

  abbrev pub table_name : EffectiveTable → String
  table_name t = dotted t.schema.schema_name t.metadata.table_name

  abbrev pub alias_of : String → List (String × EffectiveTable) → Option EffectiveTable
  alias_of alias [] = none
  alias_of alias ((a, t) ∷ rest) = if str_eq a alias then some t else alias_of alias rest

  abbrev pub qualified_target : String → Option EffectiveTable → ColumnTarget
  qualified_target name none = elsewhere
  qualified_target name (some t) = found_column t (exact_column name t)

  abbrev pub candidates :
      String → List (String × EffectiveTable) → List (EffectiveTable × EffectiveColumn)
  candidates name aliases = join aliases (λ a.
      map (λ c. (a.1, c))
        (select (λ (c : EffectiveColumn). str_eq c.metadata.column_name name) a.1.columns))

  unfoldable pub column_target : List (String × EffectiveTable) → E → ColumnTarget
  column_target aliases column =
      if str_eq (G.name column) ""
      then elsewhere
      else if str_eq (G.table_of column) ""
      then sole_candidate (not (is_empty aliases)) (candidates (G.name column) aliases)
      else qualified_target (G.name column) (alias_of (G.table_of column) aliases)

  abbrev pub capability_errors : E → E → EffectiveColumn → List ValidationError
  capability_errors boundary column c =
      error_if (scope_ancestor filter_classes boundary (G.ancestors column) && not c.filterable)
        column_not_filterable
      ++ error_if
          (scope_ancestor (NodeClass.agg_func ∷ []) boundary (G.ancestors column)
            && not c.aggregatable)
          column_not_aggregatable

  abbrev pub target_errors : E → E → ColumnTarget → List ValidationError
  target_errors boundary column elsewhere = []
  target_errors boundary column ambiguous = ambiguous_or_hidden_column ∷ []
  target_errors boundary column unknown = column_not_allowed ∷ []
  target_errors boundary column (target t c) =
      if c.readable then capability_errors boundary column c else column_not_allowed ∷ []

  abbrev pub target_columns : ColumnTarget → List String
  target_columns (target t c) =
      if c.readable then dotted (table_name t) c.metadata.column_name ∷ [] else []
  target_columns _ = []

  -- `_validate_scope`
  unfoldable pub validate_scope : Scope E → Findings
  unfolding scope_aliases source_errors column_target scope_ancestor
  validate_scope (scope e given columns branches) =
      let aliases = scope_aliases given in
      record {
        errors =
            source_errors given ++ join columns (λ c. target_errors e c (column_target aliases c));
        tables = map (λ a. table_name a.1) aliases;
        columns = join columns (λ c. target_columns (column_target aliases c));
      }

  abbrev pub function_name : E → String
  function_name f = upper (if G.isinstance f NodeClass.anonymous then G.name f else G.sql_name f)

  abbrev pub is_blocked_function : E → Bool
  is_blocked_function f =
      not (is_any (NodeClass.binary ∷ NodeClass.case_of ∷ NodeClass.if_of ∷ []) f)
      && not (is_one_of (function_name f) safe_functions)

  abbrev pub function_errors : E → List ValidationError
  function_errors e =
      join (find_all NodeClass.func e) (λ f. error_if (is_blocked_function f) function_blocked)

  abbrev pub lineage_errors : Analysis (List OutputColumnLineage) → List ValidationError
  lineage_errors (found outputs) = []
  lineage_errors (failed e) = lineage e ∷ []

  -- what each step of `validate` appends to `errors`
  abbrev pub statement_parts : E → List (List ValidationError)
  statement_parts e =
      error_if (any G.has_comments (G.walk e)) comments_blocked
      ∷ error_if (not (is_any read_only_classes e)) read_only_required
      ∷ error_if (any (is_any blocked_classes) (G.walk e)) blocked_operation
      ∷ error_if (not (is_empty (find_all NodeClass.star e))) star_blocked
      ∷ complexity_errors e
      ∷ join (G.traverse_scope e) (λ s. (validate_scope s).errors)
      ∷ function_errors e
      ∷ lineage_errors (analyze G casefold numbered allowed e)
      ∷ []

  unfoldable pub statement_errors : E → List ValidationError
  unfolding complexity_errors validate_scope
  statement_errors e = join (statement_parts e) (λ part. part)

  abbrev pub rejected : ValidationError → ValidationResult E
  rejected e = record {
    accepted = false;
    expression = none;
    normalized_sql = none;
    errors = e ∷ [];
    referenced_tables = [];
    referenced_columns = [];
  }

  abbrev pub checked : E → List ValidationError → ValidationResult E
  checked e errors = record {
    accepted = is_empty errors;
    expression = if is_empty errors then some e else none;
    normalized_sql = if is_empty errors then some (G.sql e) else none;
    errors = unique_errors errors;
    referenced_tables = sorted_set (join (G.traverse_scope e) (λ s. (validate_scope s).tables));
    referenced_columns = sorted_set (join (G.traverse_scope e) (λ s. (validate_scope s).columns));
  }

  abbrev pub validated : Option (List (Option E)) → ValidationResult E
  validated none = rejected invalid_sql
  validated (some (some e ∷ [])) = checked e (statement_errors e)
  validated _ = rejected multiple_statements

  unfoldable pub validate : String → ValidationResult E
  unfolding statement_errors
  validate sql = validated (G.parse sql)
