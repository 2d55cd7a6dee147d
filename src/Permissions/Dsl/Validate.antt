-- ===== src/Permissions/Dsl/Validate.antt =====
-- schemas/permissions.py: `RowFilterDSL.model_validate` on the JSON that `model_dump` stored. An
-- unknown key is refused (`extra="forbid"`); `parse_uuid` reads an identifier.
use tenant_intelligence_plat.Base.{
  String, Bool, true, false, ◌&&◌, Option, none, some, List, [], ◌∷◌, str_eq, if◌then◌else◌, any,
  ◌==◌,
}
use tenant_intelligence_plat.Identity.Models.{Uuid}
use tenant_intelligence_plat.Permissions.Dsl.{
  Json, null, num, str, arr, obj, Items, nil, cons, Fields, end, field, get, RowOperator, eq, neq,
  in_set, not_in, gt, gte, lt, lte, is_null, is_not_null, operator_text, Source, literal, context,
  RowFilterValue, RowFilterClause, RowFilterDsl, validate_dsl,
}

module _ {A B : Type 0} where
  abbrev pub and_then : Option A → (A → Option B) → Option B
  and_then none f = none
  and_then (some a) f = f a

abbrev pub guarded : {A : Type 0} → Bool → Option A → Option A
guarded true o = o
guarded false o = none

abbrev pub only_keys : List String → Fields → Bool
only_keys ks end = true
only_keys ks (field k v fs) = any (λ j. str_eq j k) ks && only_keys ks fs

abbrev pub all_operators : List RowOperator
all_operators = eq ∷ neq ∷ in_set ∷ not_in ∷ gt ∷ gte ∷ lt ∷ lte ∷ is_null ∷ is_not_null ∷ []

abbrev pub operator_among : String → List RowOperator → Option RowOperator
operator_among s [] = none
operator_among s (o ∷ os) = if str_eq (operator_text o) s then some o else operator_among s os

abbrev pub parse_operator : Json → Option RowOperator
parse_operator (str s) = operator_among s all_operators
parse_operator _ = none

abbrev pub parse_source : Json → Option Source
parse_source (str s) =
    if str_eq s "literal" then some literal else if str_eq s "context" then some context else none
parse_source _ = none

-- `value: RowFilterValue | None = None`
abbrev pub parse_value : Option Json → Option (Option RowFilterValue)
parse_value none = some none
parse_value (some null) = some none
parse_value (some (obj fs)) = guarded (only_keys ("source" ∷ "value" ∷ []) fs) (
    and_then (and_then (get "source" fs) parse_source)
      λ s. and_then (get "value" fs) λ v. some (some (record { source = s; value = v })))
parse_value (some _) = none

abbrev pub is_version_one : Json → Bool
is_version_one (num n) = n == 1
is_version_one _ = false

module _ (parse_uuid : String → Option Uuid) where
  abbrev pub parse_id : Json → Option Uuid
  parse_id (str s) = parse_uuid s
  parse_id _ = none

  abbrev pub parse_clause : Json → Option RowFilterClause
  parse_clause (obj fs) = guarded (only_keys ("column_id" ∷ "operator" ∷ "value" ∷ []) fs) (
      and_then (and_then (get "column_id" fs) parse_id) λ id.
        and_then (and_then (get "operator" fs) parse_operator) λ op.
          and_then (parse_value (get "value" fs))
            λ v. some (record { column_id = id; operator = op; value = v }))
  parse_clause _ = none

  abbrev pub parse_clauses : Items → Option (List RowFilterClause)
  parse_clauses nil = some []
  parse_clauses (cons c cs) =
      and_then (parse_clause c) λ clause. and_then (parse_clauses cs) λ rest. some (clause ∷ rest)

  abbrev pub parse_all : Json → Option (List RowFilterClause)
  parse_all (arr cs) = parse_clauses cs
  parse_all _ = none

  abbrev pub accept_dsl : RowFilterDsl → Option RowFilterDsl
  accept_dsl filter = guarded (validate_dsl filter) (some filter)

  unfoldable pub model_validate : Json → Option RowFilterDsl
  unfolding get operator_text
  model_validate (obj fs) = guarded (only_keys ("version" ∷ "all" ∷ []) fs) (
      and_then (get "version" fs) λ v.
        guarded (is_version_one v)
          (and_then (and_then (get "all" fs) parse_all) λ cs. accept_dsl (record { all_of = cs })))
  model_validate _ = none
