-- ===== src/Permissions/RowFilter.antt =====
-- services/database/row_filter.py: a filter validated against the columns, and compiled to a
-- predicate whose values are bound parameters. The predicate stands for the SQLGlot tree.
use tenant_intelligence_plat.Base.{
  String, Bool, false, not, ◌&&◌, ◌||◌, Option, none, some, List, [], ◌∷◌, str_eq, ◌==◌,
  if◌then◌else◌, all, scalar,
}
use tenant_intelligence_plat.Errors.{invalid_row_filter}
use tenant_intelligence_plat.Exec.{Result, ok, err}
use tenant_intelligence_plat.Identity.Models.{Uuid}
use tenant_intelligence_plat.Permissions.Dsl.{
  Json, obj, end, RowFilterClause, RowFilterDsl, is_order_operator, model_dump,
}
use tenant_intelligence_plat.Permissions.Models.{DatabaseColumn, ColumnPermission}

-- `by_id.get(...)`; with unique identifiers the last row of an identifier is the first
abbrev pub column_by_id : Uuid → List DatabaseColumn → Option DatabaseColumn
column_by_id id columns = scalar (λ c. c.id == id) columns

-- `capabilities.get(column.id, False)`
abbrev pub capability : Uuid → List ColumnPermission → Bool
capability id explicit = elim (scalar (λ p. p.column_id == id) explicit) [
  | none ↦ false
  | some p ↦ p.can_filter
]

abbrev pub filter_allowed : DatabaseColumn → List ColumnPermission → Bool
filter_allowed column [] = not column.is_sensitive
filter_allowed column (p ∷ ps) = capability column.id (p ∷ ps)

module _ (casefold : String → String) where
  -- types that no order operator takes
  abbrev pub is_unordered : DatabaseColumn → Bool
  is_unordered column =
      let t = casefold column.data_type in
      str_eq t "boolean" || (str_eq t "json" || str_eq t "jsonb")

  abbrev pub clause_allowed : RowFilterClause → List ColumnPermission → Option DatabaseColumn → Bool
  clause_allowed clause explicit none = false
  clause_allowed clause explicit (some column) =
      filter_allowed column explicit
      && not (is_order_operator clause.operator && is_unordered column)

  unfoldable pub validate_row_filter :
      (Uuid → String)
      → Option RowFilterDsl
      → List DatabaseColumn
      → List ColumnPermission
      → Result Json
  validate_row_filter show_uuid none columns explicit = ok (obj end)
  validate_row_filter show_uuid (some filter) columns explicit =
      if all (λ clause. clause_allowed clause explicit (column_by_id clause.column_id columns))
        filter.all_of
      then ok (model_dump show_uuid filter)
      else err invalid_row_filter
