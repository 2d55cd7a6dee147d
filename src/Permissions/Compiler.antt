-- ===== src/Permissions/Compiler.antt =====
-- services/database/row_filter.py: a stored filter compiled to a predicate whose values are bound
-- parameters. A condition stands for the SQLGlot expression, a dictionary for its entries in the
-- order in which they are written.
pub mod Conditions
pub mod Names
pub mod Clauses
pub mod Meaning
use tenant_intelligence_plat.Base.{
  ℕ, zero, suc, String, Bool, true, false, Option, none, some, List, [], ◌∷◌, ◌++◌, str_eq,
  if◌then◌else◌,
}
use tenant_intelligence_plat.Errors.{invalid_row_filter, unexpected}
use tenant_intelligence_plat.Exec.{Result, ok, err}
use tenant_intelligence_plat.Identity.Models.{Uuid}
use tenant_intelligence_plat.Permissions.Dsl.{
  Json, null, bool, num, str, arr, obj, Items, nil, cons, Fields, is_falsy, get,
}
use tenant_intelligence_plat.Permissions.Models.{DatabaseColumn}

pub data Comparison : Type 0 where
  eq neq gt gte lt lte : Comparison

-- `exp.column(name, table=alias)`
pub record ColumnReference : Type 0 where
  pub table : String
  pub name : String

-- `exp.Is` of NULL, `exp.In` and the comparisons with placeholders, `exp.Not`, `exp.and_`, `exp.or_`
pub data Condition : Type 0 where
  null_test : ColumnReference → Condition
  in_list : ColumnReference → List String → Condition
  comparison : Comparison → ColumnReference → String → Condition
  negation : Condition → Condition
  conjunction disjunction : Condition → Condition → Condition

pub record RuntimeFilterContext : Type 0 where
  pub user_id : Uuid
  pub tenant_id : Uuid

abbrev pub Parameters : Type 0
Parameters = List (String × Json)

pub record CompiledFilter : Type 0 where
  pub expression : Condition
  pub parameters : Parameters
  -- the clauses of the audit: column and operator
  pub audit : List (Uuid × String)

-- what the operator's text selects
pub data Operation : Type 0 where
  is_null_test : Bool → Operation
  membership : Bool → Operation
  compares : Comparison → Operation

unfoldable pub operation_of_text : String → Option Operation
operation_of_text s =
    if str_eq s "is_null"
    then some (is_null_test false)
    else if str_eq s "is_not_null"
    then some (is_null_test true)
    else if str_eq s "in"
    then some (membership false)
    else if str_eq s "not_in"
    then some (membership true)
    else if str_eq s "eq"
    then some (compares eq)
    else if str_eq s "neq"
    then some (compares neq)
    else if str_eq s "gt"
    then some (compares gt)
    else if str_eq s "gte"
    then some (compares gte)
    else if str_eq s "lt"
    then some (compares lt)
    else if str_eq s "lte"
    then some (compares lte)
    else none

abbrev pub negated_if : Bool → Condition → Condition
negated_if true c = negation c
negated_if false c = c

-- `value`: a JSON value, or an identifier of the context
pub data BoundValue : Type 0 where
  plain : Json → BoundValue
  uuid : Uuid → BoundValue

infixl 1 ◌>>=◌
abbrev pub ◌>>=◌ {ℓ κ} : {A : Type ℓ} {B : Type κ} → Option A → (A → Option B) → Option B
none >>= f = none
some a >>= f = f a

-- `mapping.get(key)` where None is a JSON value too
abbrev pub or_null : Option Json → Json
or_null none = null
or_null (some v) = v

abbrev is_text : String → Json → Bool
is_text s (str t) = str_eq t s
is_text s _ = false

-- `normalized.get("version") != 1`; True equals 1
abbrev pub is_one : Json → Bool
is_one (num (suc zero)) = true
is_one (bool b) = b
is_one _ = false

abbrev pub as_object : Json → Option Fields
as_object (obj fs) = some fs
as_object _ = none

abbrev pub as_filled_list : BoundValue → Option Items
as_filled_list (plain (arr (cons v vs))) = some (cons v vs)
as_filled_list _ = none

abbrev pub bound_value : RuntimeFilterContext → Fields → BoundValue
bound_value ctx spec =
    let value = or_null (get "value" spec) in
    if is_text "context" (or_null (get "source" spec))
    then (if is_text "current_user_id" value then uuid ctx.user_id else uuid ctx.tenant_id)
    else plain value

abbrev pub parameter : (Uuid → String) → BoundValue → Json
parameter show_uuid (plain v) = v
parameter show_uuid (uuid id) = str (show_uuid id)

-- `combined`, with the parameters and the audit collected so far
unfoldable pub combined : CompiledFilter → List CompiledFilter → CompiledFilter
combined c [] = c
combined c (d ∷ ds) =
    combined
      (record {
        expression = conjunction c.expression d.expression;
        parameters = c.parameters ++ d.parameters;
        audit = c.audit ++ d.audit;
      })
      ds

-- `numbered p i` is the text f"{p}_{i}".
module _ (numbered : String → ℕ → String) where
  -- the placeholders of a list, numbered from an index, and their parameters
  unfoldable pub item_names : String → ℕ → Items → List String
  item_names name i nil = []
  item_names name i (cons v vs) = numbered name i ∷ item_names name (suc i) vs

  unfoldable pub item_parameters : String → ℕ → Items → Parameters
  item_parameters name i nil = []
  item_parameters name i (cons v vs) = (numbered name i, v) ∷ item_parameters name (suc i) vs

module _ (numbered : String → ℕ → String) (show_uuid : Uuid → String)
    (ctx : RuntimeFilterContext) where
  abbrev pub compiled_value :
      ColumnReference → String → Operation → BoundValue → Option (Condition × Parameters)
  compiled_value left name (is_null_test negated) value =
      some (negated_if negated (null_test left), [])
  compiled_value left name (membership negated) value = do
    vs ← as_filled_list value
    some (
      negated_if negated (in_list left (item_names numbered name 0 vs)),
      item_parameters numbered name 0 vs,
    )
  compiled_value left name (compares c) value =
      some (comparison c left name, (name, parameter show_uuid value) ∷ [])

  abbrev pub compiled_condition :
      ColumnReference → String → Operation → Fields → Option (Condition × Parameters)
  compiled_condition left name (is_null_test negated) raw =
      some (negated_if negated (null_test left), [])
  compiled_condition left name op raw = do
    spec ← as_object (or_null (get "value" raw))
    compiled_value left name op (bound_value ctx spec)

-- `python_str` is `str` of a value that is no text.
module _ (numbered : String → ℕ → String) (python_str : Json → String) (show_uuid : Uuid → String)
    (parse_uuid : String → Option Uuid) (columns : Uuid → Option DatabaseColumn)
    (table_alias : String) (ctx : RuntimeFilterContext) where
  abbrev pub as_text : Json → String
  as_text (str s) = s
  as_text v = python_str v

  -- one turn of the loop; `none` is InvalidRowFilterError
  unfoldable pub compile_clause : String → ℕ → Json → Option CompiledFilter
  compile_clause parameter_prefix index raw = do
    fs ← as_object raw
    id_value ← get "column_id" fs
    column_id ← parse_uuid (as_text id_value)
    op_value ← get "operator" fs
    column ← columns column_id
    op ← operation_of_text (as_text op_value)
    compiled ←
        compiled_condition numbered show_uuid ctx
          (record { table = table_alias; name = column.column_name })
          (numbered parameter_prefix index) op fs
    some (record {
      expression = compiled.0;
      parameters = compiled.1;
      audit = (column_id, as_text op_value) ∷ [];
    })

  -- the loop over the clauses
  unfoldable pub compile_clauses : String → ℕ → Items → Option (List CompiledFilter)
  unfolding compile_clause
  compile_clauses parameter_prefix index nil = some []
  compile_clauses parameter_prefix index (cons raw rest) = do
    first ← compile_clause parameter_prefix index raw
    others ← compile_clauses parameter_prefix (suc index) rest
    some (first ∷ others)

  abbrev pub compiled_filter : Option (List CompiledFilter) → Result (Option CompiledFilter)
  compiled_filter none = err invalid_row_filter
  compiled_filter (some []) = err invalid_row_filter
  compiled_filter (some (c ∷ cs)) = ok (some (combined c cs))

  abbrev pub compiled_list : String → Json → Result (Option CompiledFilter)
  compiled_list parameter_prefix (arr clauses) =
      compiled_filter (compile_clauses parameter_prefix 0 clauses)
  compiled_list parameter_prefix _ = err invalid_row_filter

  abbrev pub compiled_object : String → Fields → Result (Option CompiledFilter)
  compiled_object parameter_prefix fs =
      if is_one (or_null (get "version" fs))
      then compiled_list parameter_prefix (or_null (get "all" fs))
      else err invalid_row_filter

  -- a stored value that is truthy and no dictionary has no `get`
  abbrev pub compiled_json : String → Option Fields → Result (Option CompiledFilter)
  compiled_json parameter_prefix none = err unexpected
  compiled_json parameter_prefix (some fs) = compiled_object parameter_prefix fs

  unfoldable pub compile_row_filter : String → Json → Result (Option CompiledFilter)
  unfolding compile_clauses combined
  compile_row_filter parameter_prefix normalized =
      if is_falsy normalized then ok none else compiled_json parameter_prefix (as_object normalized)
