-- ===== src/Permissions/Compiler/Clauses.antt =====
-- services/database/row_filter.py: one compiled clause means what the clause says.
use mathlib.Core.List.{append_assoc}
use tenant_intelligence_plat.Base.{
  ℕ, suc, ◌≡◌, refl, sym, ◌∙◌, String, Bool, true, false, Option, none, some, inl, inr, [], ◌∷◌,
  ◌++◌, str_eq, arith, not, if◌then◌else◌, Bool-cases,
}
use tenant_intelligence_plat.Identity.Models.{Uuid}
use tenant_intelligence_plat.Permissions.Dsl.{
  Json, str, arr, Items, nil, cons, get, RowOperator, is_null, is_not_null, in_set, not_in,
  operator_text, RowFilterValue, RowFilterClause, literal, context, Source, operator_value_ok,
  validate_context, validate_operator_value, dump_clause, Fields, field, end, dump_value,
  dump_source, set_value_ok,
}
use tenant_intelligence_plat.Permissions.Models.{DatabaseColumn}
use tenant_intelligence_plat.Permissions.Compiler.{
  Comparison, eq, neq, gt, gte, lt, lte, ColumnReference, Condition, RuntimeFilterContext,
  Parameters, CompiledFilter, item_names, item_parameters, Operation, is_null_test, membership,
  compares, operation_of_text, compile_clause, bound_value, parameter, negated_if,
  compiled_condition, null_test, in_list, comparison,
}
use tenant_intelligence_plat.Permissions.Compiler.Conditions.{
  Truth, any_equal, any_bound, evaluate, operand, operator_holds, dict_get, tri_not, is_null_value,
  equals_any, context_value,
}
use tenant_intelligence_plat.Permissions.Compiler.Names.{
  IsNumbering, Lacks, From, From-Lacks, item_parameters-From, item_parameters-Lacks, dict_get-here,
  Lacks-append,
}

abbrev operation_of : RowOperator → Operation
operation_of is_null = is_null_test false
operation_of is_not_null = is_null_test true
operation_of in_set = membership false
operation_of not_in = membership true
operation_of RowOperator.eq = compares eq
operation_of RowOperator.neq = compares neq
operation_of RowOperator.gt = compares gt
operation_of RowOperator.gte = compares gte
operation_of RowOperator.lt = compares lt
operation_of RowOperator.lte = compares lte

operation_of_text-operator :
    (op : RowOperator) → operation_of_text (operator_text op) ≡ some (operation_of op)
unfolding operation_of_text operator_text
operation_of_text-operator is_null = refl
operation_of_text-operator is_not_null = refl
operation_of_text-operator in_set = refl
operation_of_text-operator not_in = refl
operation_of_text-operator RowOperator.eq = refl
operation_of_text-operator RowOperator.neq = refl
operation_of_text-operator RowOperator.gt = refl
operation_of_text-operator RowOperator.gte = refl
operation_of_text-operator RowOperator.lt = refl
operation_of_text-operator RowOperator.lte = refl

-- What a valid clause holds beside its operator.
data ValueFor : Operation → Option RowFilterValue → Type 0 where
  no_value : (negated : Bool) → ValueFor (is_null_test negated) none
  items :
      (negated : Bool) (v : RowFilterValue) (w : Json) (ws : Items)
      → v.source ≡ literal
      → v.value ≡ arr (cons w ws)
      → ValueFor (membership negated) (some v)
  single : (c : Comparison) (v : RowFilterValue) → ValueFor (compares c) (some v)

set_value-ValueFor :
    (negated : Bool) (v : RowFilterValue)
    → set_value_ok v ≡ true
    → ValueFor (membership negated) (some v)
set_value-ValueFor negated v h = go v.source v.value refl refl h
  where
    go :
        (s : Source) (j : Json)
        → v.source ≡ s
        → v.value ≡ j
        → set_value_ok v ≡ true
        → ValueFor (membership negated) (some v)
    go literal (arr (cons w ws)) e f h = items negated v w ws e f
    go literal _ e f h = absurd (cc (rw (e, f) at h))
    go context j e f h = absurd (cc (rw e at h))

valid-ValueFor :
    (op : RowOperator) (value : Option RowFilterValue)
    → operator_value_ok op value ≡ true
    → ValueFor (operation_of op) value
unfolding validate_context
valid-ValueFor is_null none h = no_value false
valid-ValueFor is_not_null none h = no_value true
valid-ValueFor is_null (some v) h = absurd (cc)
valid-ValueFor is_not_null (some v) h = absurd (cc)
valid-ValueFor in_set (some v) h = set_value-ValueFor false v (ground arith)
valid-ValueFor not_in (some v) h = set_value-ValueFor true v (ground arith)
valid-ValueFor RowOperator.eq (some v) h = single eq v
valid-ValueFor RowOperator.neq (some v) h = single neq v
valid-ValueFor RowOperator.gt (some v) h = single gt v
valid-ValueFor RowOperator.gte (some v) h = single gte v
valid-ValueFor RowOperator.lt (some v) h = single lt v
valid-ValueFor RowOperator.lte (some v) h = single lte v
valid-ValueFor op none h = absurd (cc)

module _ (numbered : String → ℕ → String) (naming : IsNumbering numbered)
    (python_str : Json → String) (show_uuid : Uuid → String) (parse_uuid : String → Option Uuid)
    (columns : Uuid → Option DatabaseColumn) (table_alias : String) (ctx : RuntimeFilterContext)
    (compare_values : Comparison → Json → Json → Truth) (value_at : ColumnReference → Json) where
  -- A list's placeholders are bound to its items.
  any_bound-items :
      (name : String) (i : ℕ) (v : Json) (vs : Items) (ps qs : Parameters)
      → ((j : ℕ) → Lacks (numbered name j) qs)
      → any_bound compare_values value_at
          (ps ++ (item_parameters numbered name i vs ++ qs))
          v
          (item_names numbered name i vs)
        ≡ any_equal compare_values v vs
  unfolding any_bound any_equal item_names item_parameters dict_get
  any_bound-items name i v nil ps qs h = refl
  any_bound-items name i v (cons w ws) ps qs h =
      let here =
        dict_get-here (numbered name i) w ps (item_parameters numbered name (suc i) ws ++ qs) (
          Lacks-append (numbered name i) (item_parameters numbered name (suc i) ws) qs
            (item_parameters-Lacks numbered naming name i (suc i) ws (omega arith)) (h i)) in
      let rest = any_bound-items name (suc i) v ws (ps ++ (numbered name i, w) ∷ []) qs h in
      rw (here, sym rest, append_assoc ps ((numbered name i, w) ∷ [])) refl

  -- the value that a row has in a column
  abbrev pub cell_of : Option DatabaseColumn → Json
  cell_of none = Json.null
  cell_of (some column) = value_at (record { table = table_alias; name = column.column_name })

  abbrev pub cell : Uuid → Json
  cell id = cell_of (columns id)

  -- A compiled clause among entries before it and entries of later clauses.
  pub record Means (p : String) (i : ℕ) (c : RowFilterClause) (piece : CompiledFilter)
      : Type 0 where
    pub own_names : From numbered naming p i piece.parameters
    pub truth :
        (ps qs : Parameters)
        → From numbered naming p (suc i) qs
        → evaluate compare_values value_at (ps ++ (piece.parameters ++ qs)) piece.expression
          ≡ operator_holds compare_values show_uuid ctx c.operator
              (cell c.column_id)
              (operand compare_values show_uuid ctx c.value)

  abbrev clause_fields : Uuid → RowOperator → Option RowFilterValue → Fields
  clause_fields id op value =
      field "column_id" (str (show_uuid id))
        (field "operator" (str (operator_text op)) (field "value" (dump_value show_uuid value) end))

  abbrev operation_holds : Operation → Json → Option RowFilterValue → Truth
  operation_holds (is_null_test negated) v value =
      if negated then some (not (is_null_value v)) else some (is_null_value v)
  operation_holds (membership negated) v value =
      let any =
        equals_any compare_values show_uuid ctx v (operand compare_values show_uuid ctx value) in
      if negated then tri_not any else any
  operation_holds (compares c) v value =
      compare_values c v (operand compare_values show_uuid ctx value)

  operation_holds-operator :
      (op : RowOperator) (v : Json) (value : Option RowFilterValue)
      → operation_holds (operation_of op) v value
        ≡ operator_holds compare_values show_uuid ctx op v
            (operand compare_values show_uuid ctx value)
  operation_holds-operator is_null v value = refl
  operation_holds-operator is_not_null v value = refl
  operation_holds-operator in_set v value = refl
  operation_holds-operator not_in v value = refl
  operation_holds-operator RowOperator.eq v value = refl
  operation_holds-operator RowOperator.neq v value = refl
  operation_holds-operator RowOperator.gt v value = refl
  operation_holds-operator RowOperator.gte v value = refl
  operation_holds-operator RowOperator.lt v value = refl
  operation_holds-operator RowOperator.lte v value = refl

  abbrev spec_of : RowFilterValue → Fields
  spec_of v = field "source" (str (dump_source show_uuid v.source)) (field "value" v.value end)

  parameter-operand :
      (v : RowFilterValue)
      → parameter show_uuid (bound_value ctx (spec_of v))
        ≡ operand compare_values show_uuid ctx (some v)
  unfolding get
  parameter-operand v = go v.source refl
    where
      context_case :
          (j : Json)
          → parameter show_uuid
              (bound_value ctx (field "source" (str "context") (field "value" j end)))
            ≡ context_value compare_values show_uuid ctx j
      context_case (str t) = elim (Bool-cases (str_eq t "current_user_id")) [
        | inl e ↦ rw e refl
        | inr e ↦ rw e refl
      ]
      context_case _ = refl

      go :
          (s : Source)
          → v.source ≡ s
          → parameter show_uuid (bound_value ctx (spec_of v))
            ≡ operand compare_values show_uuid ctx (some v)
      go literal e = rw e refl
      go context e = rw e (context_case v.value)

  abbrev left_of : DatabaseColumn → ColumnReference
  left_of column = record { table = table_alias; name = column.column_name }

  -- What the condition of an operation becomes, and what it means among other entries.
  pub record MeansAt (p : String) (i : ℕ) (column : DatabaseColumn) (op : Operation)
      (value : Option RowFilterValue) (piece : Condition × Parameters) : Type 0 where
    pub own_names : From numbered naming p i piece.1
    pub truth :
        (ps qs : Parameters)
        → From numbered naming p (suc i) qs
        → evaluate compare_values value_at (ps ++ (piece.1 ++ qs)) piece.0
          ≡ operation_holds op (value_at (left_of column)) value

  evaluate-negated_if :
      (negated : Bool) (c : Condition) (ps : Parameters)
      → evaluate compare_values value_at ps (negated_if negated c) ≡ (
          if negated
          then tri_not (evaluate compare_values value_at ps c)
          else evaluate compare_values value_at ps c)
  unfolding evaluate
  evaluate-negated_if true c ps = refl
  evaluate-negated_if false c ps = refl

  condition-MeansAt :
      (p : String) (i : ℕ) (column : DatabaseColumn) (op : Operation) (id : Uuid)
      (operator : RowOperator) (value : Option RowFilterValue)
      → ValueFor op value
      → (piece : Condition × Parameters) × (compiled_condition numbered show_uuid ctx
            (left_of column)
            (numbered p i)
            op
            (clause_fields id operator value)
          ≡ some piece)
        × MeansAt p i column op value piece
  unfolding evaluate get
  condition-MeansAt p i column op id operator value (no_value negated) = (
    (negated_if negated (null_test (left_of column)), []),
    refl,
    record {
      own_names = tt;
      truth = λ ps qs later. evaluate-negated_if negated (null_test (left_of column)) (ps ++ qs);
    },
  )
  condition-MeansAt p i column op id operator value (items negated v w ws e f) =
      let name = numbered p i in
      let test = in_list (left_of column) (item_names numbered name 0 (cons w ws)) in
      let entries = item_parameters numbered name 0 (cons w ws) in
      (
        (negated_if negated test, entries),
        rw (e, f) refl,
        record {
          own_names = item_parameters-From numbered naming p i 0 (cons w ws);
          truth = λ ps qs later.
              evaluate-negated_if negated test (ps ++ (entries ++ qs))
              ∙ rw
                  (
                    any_bound-items name 0 (value_at (left_of column)) (cons w ws) ps qs (λ j.
                        From-Lacks numbered naming p (numbered name j) i qs (inr (j, refl)) later),
                    e,
                    f,
                  )
                  refl;
        },
      )
  condition-MeansAt p i column op id operator value (single c v) =
      let bound_to = parameter show_uuid (bound_value ctx (spec_of v)) in
      (
        (comparison c (left_of column) (numbered p i), (numbered p i, bound_to) ∷ []),
        refl,
        record {
          own_names = ((i, omega arith, inl refl), tt);
          truth = λ ps qs later.
              rw
                (
                  dict_get-here (numbered p i) bound_to ps qs
                      (From-Lacks numbered naming p (numbered p i) i qs (inl refl) later),
                  parameter-operand v,
                )
                refl;
        },
      )

  pub clause-Means :
      (p : String) (i : ℕ) (c : RowFilterClause) (column : DatabaseColumn)
      → columns c.column_id ≡ some column
      → parse_uuid (show_uuid c.column_id) ≡ some c.column_id
      → validate_operator_value c ≡ true
      → (piece : CompiledFilter) × (compile_clause numbered python_str show_uuid parse_uuid columns
            table_alias ctx p i
            (dump_clause show_uuid c)
          ≡ some piece)
        × Means p i c piece
  unfolding compile_clause get validate_operator_value
  clause-Means p i c column known read valid =
      let (piece, e, m) =
        condition-MeansAt p i column (operation_of c.operator) c.column_id c.operator c.value
          (valid-ValueFor c.operator c.value valid) in
      (
        record {
          expression = piece.0;
          parameters = piece.1;
          audit = (c.column_id, operator_text c.operator) ∷ [];
        },
        rw (read, known, operation_of_text-operator c.operator, e) refl,
        record {
          own_names = m.own_names;
          truth = λ ps qs later.
              m.truth ps qs later
              ∙ operation_holds-operator c.operator (value_at (left_of column)) c.value
              ∙ rw known refl;
        },
      )
