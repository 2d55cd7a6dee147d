-- ===== src/Permissions/Compiler/Conditions.antt =====
-- services/database/row_filter.py: what a condition and a filter of the language mean, in the
-- three-valued logic of SQL, where `none` is unknown. The database's comparisons are a parameter.
use tenant_intelligence_plat.Base.{
  ◌≡◌, refl, String, Bool, true, false, not, Option, none, some, List, [], ◌∷◌, str_eq,
  if◌then◌else◌,
}
use tenant_intelligence_plat.Identity.Models.{Uuid}
use tenant_intelligence_plat.Permissions.Dsl.{
  Json, null, str, arr, Items, nil, cons, RowOperator, is_null, is_not_null, in_set, not_in,
  RowFilterValue, RowFilterClause, literal, context,
}
use tenant_intelligence_plat.Permissions.Compiler.{
  Comparison, eq, neq, gt, gte, lt, lte, ColumnReference, Condition, null_test, in_list, comparison,
  negation, conjunction, disjunction, RuntimeFilterContext, Parameters, or_null,
}

abbrev pub Truth : Type 0
Truth = Option Bool

abbrev pub tri_not : Truth → Truth
tri_not none = none
tri_not (some b) = some (not b)

abbrev pub tri_and : Truth → Truth → Truth
tri_and (some true) q = q
tri_and (some false) q = some false
tri_and none (some false) = some false
tri_and none (some true) = none
tri_and none none = none

abbrev pub tri_or : Truth → Truth → Truth
tri_or (some true) q = some true
tri_or (some false) q = q
tri_or none (some true) = some true
tri_or none (some false) = none
tri_or none none = none

pub tri_and_assoc : (p q r : Truth) → tri_and (tri_and p q) r ≡ tri_and p (tri_and q r)
tri_and_assoc (some true) q r = refl
tri_and_assoc (some false) q r = refl
tri_and_assoc none (some true) r = refl
tri_and_assoc none (some false) (some b) = refl
tri_and_assoc none (some false) none = refl
tri_and_assoc none none (some true) = refl
tri_and_assoc none none (some false) = refl
tri_and_assoc none none none = refl

pub tri_and-true : (p : Truth) → tri_and p (some true) ≡ p
tri_and-true (some true) = refl
tri_and-true (some false) = refl
tri_and-true none = refl

abbrev pub is_null_value : Json → Bool
is_null_value null = true
is_null_value _ = false

-- the value of a dictionary's key: the last that was written
unfoldable pub dict_get : String → Parameters → Option Json
dict_get k [] = none
dict_get k ((j, v) ∷ ps) =
    let later = dict_get k ps in
    elim later [ some w ↦ some w | none ↦ if str_eq j k then some v else none ]

module _ (compare_values : Comparison → Json → Json → Truth) where
  unfoldable pub any_equal : Json → Items → Truth
  any_equal v nil = some false
  any_equal v (cons w ws) = tri_or (compare_values eq v w) (any_equal v ws)

  module _ (value_at : ColumnReference → Json) (parameters : Parameters) where
    abbrev pub bound : String → Json
    bound name = or_null (dict_get name parameters)

    unfoldable pub any_bound : Json → List String → Truth
    unfolding dict_get
    any_bound v [] = some false
    any_bound v (n ∷ ns) = tri_or (compare_values eq v (bound n)) (any_bound v ns)

    -- the truth of a condition on a row
    unfoldable pub evaluate : Condition → Truth
    unfolding any_bound
    evaluate (null_test column) = some (is_null_value (value_at column))
    evaluate (in_list column names) = any_bound (value_at column) names
    evaluate (comparison c column name) = compare_values c (value_at column) (bound name)
    evaluate (negation c) = tri_not (evaluate c)
    evaluate (conjunction c d) = tri_and (evaluate c) (evaluate d)
    evaluate (disjunction c d) = tri_or (evaluate c) (evaluate d)

  -- what a clause says of the value of its column, without parameters or names
  module _ (show_uuid : Uuid → String) (ctx : RuntimeFilterContext) where
    abbrev pub context_value : Json → Json
    context_value (str s) =
        if str_eq s "current_user_id"
        then str (show_uuid ctx.user_id)
        else str (show_uuid ctx.tenant_id)
    context_value _ = str (show_uuid ctx.tenant_id)

    abbrev pub operand : Option RowFilterValue → Json
    operand none = null
    operand (some v) = elim v.source [ literal ↦ v.value | context ↦ context_value v.value ]

    abbrev pub equals_any : Json → Json → Truth
    equals_any v (arr ws) = any_equal v ws
    equals_any v _ = none

    abbrev pub operator_holds : RowOperator → Json → Json → Truth
    operator_holds is_null v w = some (is_null_value v)
    operator_holds is_not_null v w = some (not (is_null_value v))
    operator_holds in_set v w = equals_any v w
    operator_holds not_in v w = tri_not (equals_any v w)
    operator_holds RowOperator.eq v w = compare_values eq v w
    operator_holds RowOperator.neq v w = compare_values neq v w
    operator_holds RowOperator.gt v w = compare_values gt v w
    operator_holds RowOperator.gte v w = compare_values gte v w
    operator_holds RowOperator.lt v w = compare_values lt v w
    operator_holds RowOperator.lte v w = compare_values lte v w

    -- a row satisfies a filter if it satisfies all clauses
    unfoldable pub filter_holds : (Uuid → Json) → List RowFilterClause → Truth
    unfolding any_equal
    filter_holds cell [] = some true
    filter_holds cell (c ∷ cs) =
        tri_and (operator_holds c.operator (cell c.column_id) (operand c.value))
          (filter_holds cell cs)
