-- ===== src/Permissions/Dsl/RoundTrip.antt =====
-- schemas/permissions.py: what `model_dump` stores, `model_validate` reads back.
use tenant_intelligence_plat.Base.{◌≡◌, refl, String, true, Option, none, some, List, [], ◌∷◌}
use tenant_intelligence_plat.Identity.Models.{Uuid}
use tenant_intelligence_plat.Permissions.Dsl.{
  str, get, RowOperator, eq, neq, in_set, not_in, gt, gte, lt, lte, is_null, is_not_null,
  operator_text, Source, literal, context, RowFilterValue, RowFilterClause, RowFilterDsl,
  validate_dsl, dump_value, dump_clause, dump_clauses, model_dump,
}
use tenant_intelligence_plat.Permissions.Dsl.Validate.{
  parse_operator, parse_value, parse_clause, parse_clauses, model_validate,
}

parse_operator-text : (op : RowOperator) → parse_operator (str (operator_text op)) ≡ some op
unfolding operator_text
parse_operator-text eq = refl
parse_operator-text neq = refl
parse_operator-text in_set = refl
parse_operator-text not_in = refl
parse_operator-text gt = refl
parse_operator-text gte = refl
parse_operator-text lt = refl
parse_operator-text lte = refl
parse_operator-text is_null = refl
parse_operator-text is_not_null = refl

module _ (show_uuid : Uuid → String) (parse_uuid : String → Option Uuid) where
  parse_value-dump :
      (v : Option RowFilterValue) → parse_value (some (dump_value show_uuid v)) ≡ some v
  unfolding get
  parse_value-dump none = refl
  parse_value-dump (some v) = go v.source refl
    where
      go :
          (s : Source)
          → v.source ≡ s
          → parse_value (some (dump_value show_uuid (some v))) ≡ some (some v)
      go literal e = rw e refl
      go context e = rw e refl

  parse_clause-dump :
      (c : RowFilterClause)
      → parse_uuid (show_uuid c.column_id) ≡ some c.column_id
      → parse_clause parse_uuid (dump_clause show_uuid c) ≡ some c
  unfolding get
  parse_clause-dump c e = rw (e, parse_operator-text c.operator, parse_value-dump c.value) refl

  parse_clauses-dump :
      (cs : List RowFilterClause)
      → ((id : Uuid) → parse_uuid (show_uuid id) ≡ some id)
      → parse_clauses parse_uuid (dump_clauses show_uuid cs) ≡ some cs
  parse_clauses-dump [] h = refl
  parse_clauses-dump (c ∷ cs) h =
      rw (parse_clause-dump c (h c.column_id), parse_clauses-dump cs h) refl

  -- A valid filter that is dumped and validated again is the filter, if the text of an identifier
  -- is read back as the identifier.
  pub model_validate-model_dump :
      (filter : RowFilterDsl)
      → ((id : Uuid) → parse_uuid (show_uuid id) ≡ some id)
      → validate_dsl filter ≡ true
      → model_validate parse_uuid (model_dump show_uuid filter) ≡ some filter
  unfolding model_validate model_dump get
  model_validate-model_dump filter h valid = rw (parse_clauses-dump filter.all_of h, valid) refl
