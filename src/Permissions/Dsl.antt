-- ===== src/Permissions/Dsl.antt =====
-- schemas/permissions.py: the row-filter language and its validators. Values
-- are JSON; `{}` is the absence of a filter.
pub mod Validate
pub mod RoundTrip
use tenant_intelligence_plat.Base.{
  ℕ, String, Bool, true, false, not, ◌&&◌, ◌||◌, Option, none, some, List, [], ◌∷◌, str_eq,
  if◌then◌else◌, is_empty, all, leb, length,
}
use tenant_intelligence_plat.Identity.Models.{Uuid}

mutual
  pub data Json : Type 0 where
    null : Json
    bool : Bool → Json
    num : ℕ → Json
    str : String → Json
    arr : Items → Json
    obj : Fields → Json

  pub data Items : Type 0 where
    nil : Items
    cons : Json → Items → Items

  pub data Fields : Type 0 where
    end : Fields
    field : String → Json → Fields → Fields

-- `not value` of a stored filter
abbrev pub is_falsy : Json → Bool
is_falsy (obj end) = true
is_falsy (obj (field k v fs)) = false
is_falsy null = true
is_falsy (arr nil) = true
is_falsy (bool b) = not b
is_falsy (num ℕ.zero) = true
is_falsy (str s) = str_eq s ""
is_falsy _ = false

-- `value.get(key)`
unfoldable pub get : String → Fields → Option Json
get k end = none
get k (field j v fs) = if str_eq j k then some v else get k fs

pub data RowOperator : Type 0 where
  eq neq in_set not_in gt gte lt lte is_null is_not_null : RowOperator

unfoldable pub operator_text : RowOperator → String
operator_text eq = "eq"
operator_text neq = "neq"
operator_text in_set = "in"
operator_text not_in = "not_in"
operator_text gt = "gt"
operator_text gte = "gte"
operator_text lt = "lt"
operator_text lte = "lte"
operator_text is_null = "is_null"
operator_text is_not_null = "is_not_null"

abbrev pub is_null_operator : RowOperator → Bool
is_null_operator is_null = true
is_null_operator is_not_null = true
is_null_operator _ = false

abbrev pub is_set_operator : RowOperator → Bool
is_set_operator in_set = true
is_set_operator not_in = true
is_set_operator _ = false

abbrev pub is_order_operator : RowOperator → Bool
is_order_operator gt = true
is_order_operator gte = true
is_order_operator lt = true
is_order_operator lte = true
is_order_operator _ = false

pub data Source : Type 0 where
  literal context : Source

pub record RowFilterValue : Type 0 where
  pub source : Source
  pub value : Json

pub record RowFilterClause : Type 0 where
  pub column_id : Uuid
  pub operator : RowOperator
  pub value : Option RowFilterValue

-- `version` is 1
pub record RowFilterDsl : Type 0 where
  pub all_of : List RowFilterClause

-- `RowFilterValue.validate_context`
abbrev pub is_context_name : Json → Bool
is_context_name (str s) = str_eq s "current_user_id" || str_eq s "current_tenant_id"
is_context_name _ = false

unfoldable pub validate_context : RowFilterValue → Bool
validate_context v = elim v.source [ literal ↦ true | context ↦ is_context_name v.value ]

abbrev pub is_filled_list : Json → Bool
is_filled_list (arr (cons v vs)) = true
is_filled_list _ = false

abbrev pub set_value_ok : RowFilterValue → Bool
set_value_ok v = elim v.source [ literal ↦ is_filled_list v.value | context ↦ false ]

-- `RowFilterClause.validate_operator_value`, with the validator of the value that it holds
abbrev pub operator_value_ok : RowOperator → Option RowFilterValue → Bool
operator_value_ok op none = is_null_operator op
operator_value_ok op (some v) =
    not (is_null_operator op)
    && (validate_context v && (not (is_set_operator op) || set_value_ok v))

unfoldable pub validate_operator_value : RowFilterClause → Bool
unfolding validate_context
validate_operator_value clause = operator_value_ok clause.operator clause.value

-- `RowFilterDSL`: between 1 and 20 clauses, each of them valid
unfoldable pub validate_dsl : RowFilterDsl → Bool
unfolding validate_operator_value
validate_dsl filter =
    not (is_empty filter.all_of)
    && (leb (length filter.all_of) 20 && all validate_operator_value filter.all_of)

-- `model_dump(mode="json")`; an identifier is dumped as its text
module _ (show_uuid : Uuid → String) where
  abbrev pub dump_source : Source → String
  dump_source literal = "literal"
  dump_source context = "context"

  abbrev pub dump_value : Option RowFilterValue → Json
  dump_value none = null
  dump_value (some v) =
      obj (field "source" (str (dump_source v.source)) (field "value" v.value end))

  abbrev pub dump_clause : RowFilterClause → Json
  dump_clause clause = obj (
      field "column_id" (str (show_uuid clause.column_id)) (
        field "operator" (str (operator_text clause.operator))
          (field "value" (dump_value clause.value) end)))

  abbrev pub dump_clauses : List RowFilterClause → Items
  dump_clauses [] = nil
  dump_clauses (c ∷ cs) = cons (dump_clause c) (dump_clauses cs)

  unfoldable pub model_dump : RowFilterDsl → Json
  model_dump filter =
      obj (field "version" (num 1) (field "all" (arr (dump_clauses filter.all_of)) end))
