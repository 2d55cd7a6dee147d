-- ===== src/Permissions/Compiler/Meaning.antt =====
-- services/database/row_filter.py: a compiled filter means what its clauses say.
use mathlib.Core.List.{append_assoc, append-nil}
use mathlib.Core.Path.{subst}
use tenant_intelligence_plat.Base.{
  ℕ, suc, ◌≡◌, refl, sym, ◌∙◌, String, true, Option, some, inl, inr, List, [], ◌∷◌, ◌++◌, all,
  arith, Has, is_empty, false,
}
use tenant_intelligence_plat.Exec.{ok}
use tenant_intelligence_plat.Identity.Models.{Uuid}
use tenant_intelligence_plat.Permissions.Dsl.{
  Json, get, RowFilterClause, RowFilterDsl, validate_operator_value, validate_dsl, dump_clauses,
  model_dump,
}
use tenant_intelligence_plat.Permissions.Models.{DatabaseColumn}
use tenant_intelligence_plat.Permissions.Compiler.{
  Comparison, ColumnReference, RuntimeFilterContext, Parameters, CompiledFilter, compile_clauses,
  combined, compile_row_filter, compiled_filter,
}
use tenant_intelligence_plat.Permissions.Compiler.Conditions.{
  Truth, tri_and, tri_and_assoc, tri_and-true, evaluate, operand, operator_holds, filter_holds,
}
use tenant_intelligence_plat.Permissions.Compiler.Names.{
  IsNumbering, From, From-append, From-weaken,
}
use tenant_intelligence_plat.Permissions.Compiler.Clauses.{Means, cell, clause-Means}

module _ (numbered : String → ℕ → String) (naming : IsNumbering numbered)
    (python_str : Json → String) (show_uuid : Uuid → String) (parse_uuid : String → Option Uuid)
    (columns : Uuid → Option DatabaseColumn) (table_alias : String) (ctx : RuntimeFilterContext)
    (compare_values : Comparison → Json → Json → Truth) (value_at : ColumnReference → Json) where
  abbrev MeansClause : String → ℕ → RowFilterClause → CompiledFilter → Type 0
  MeansClause =
      Means numbered naming python_str show_uuid parse_uuid columns table_alias ctx compare_values
        value_at

  abbrev value : Uuid → Json
  value =
      cell numbered naming python_str show_uuid parse_uuid columns table_alias ctx compare_values
        value_at

  abbrev clause_holds : RowFilterClause → Truth
  clause_holds c =
      operator_holds compare_values show_uuid ctx c.operator (value c.column_id)
        (operand compare_values show_uuid ctx c.value)

  abbrev holds : List RowFilterClause → Truth
  holds cs = filter_holds compare_values show_uuid ctx value cs

  -- the pieces of clauses numbered from an index
  abbrev AllMean : String → ℕ → List RowFilterClause → List CompiledFilter → Type 0
  AllMean p i [] [] = Unit
  AllMean p i (c ∷ cs) (d ∷ ds) = MeansClause p i c d × AllMean p (suc i) cs ds
  AllMean p i [] (d ∷ ds) = ⊥
  AllMean p i (c ∷ cs) [] = ⊥

  abbrev Known : List RowFilterClause → Type 0
  Known cs =
      (c : RowFilterClause)
      → Has c cs
      → (column : DatabaseColumn) × (columns c.column_id ≡ some column)

  clauses-AllMean :
      (p : String) (i : ℕ) (cs : List RowFilterClause)
      → Known cs
      → ((id : Uuid) → parse_uuid (show_uuid id) ≡ some id)
      → all validate_operator_value cs ≡ true
      → (ds : List CompiledFilter) × (compile_clauses numbered python_str show_uuid parse_uuid
            columns table_alias ctx p i
            (dump_clauses show_uuid cs)
          ≡ some ds)
        × AllMean p i cs ds
  unfolding compile_clauses
  clauses-AllMean p i [] known read valid = ([], refl, tt)
  clauses-AllMean p i (c ∷ cs) known read valid =
      let (column, found) = known c (inl refl) in
      let (d, e, m) =
        clause-Means numbered naming python_str show_uuid parse_uuid columns table_alias ctx
          compare_values value_at p i c column found (read c.column_id) (ground arith) in
      let (ds, f, ms) = clauses-AllMean p (suc i) cs (λ x h. known x (inr h)) read (ground arith) in
      (d ∷ ds, rw (e, f) refl, (m, ms))

  -- The conjunction of what is collected and of the pieces that follow.
  combined-truth :
      (p : String) (i : ℕ) (t : Truth) (acc : CompiledFilter) (cs : List RowFilterClause)
      (ds : List CompiledFilter)
      → AllMean p i cs ds
      → ((qs : Parameters)
          → From numbered naming p i qs
          → evaluate compare_values value_at (acc.parameters ++ qs) acc.expression ≡ t)
      → evaluate compare_values value_at (combined acc ds).parameters (combined acc ds).expression
        ≡ tri_and t (holds cs)
  unfolding combined filter_holds evaluate
  combined-truth p i t acc [] [] m h =
      subst (λ ps. evaluate compare_values value_at ps acc.expression ≡ t)
        (append-nil acc.parameters) (h [] tt)
      ∙ sym (tri_and-true t)
  combined-truth p i t acc (c ∷ cs) (d ∷ ds) (m, ms) h =
      combined-truth p (suc i) (tri_and t (clause_holds c)) _ cs ds ms (λ qs later.
        let after =
          From-append numbered naming p i d.parameters qs m.own_names
            (From-weaken numbered naming p i qs later) in
        let left = h (d.parameters ++ qs) after in
        let right = m.truth acc.parameters qs later in
        subst
          (λ ps.
            tri_and (evaluate compare_values value_at ps acc.expression)
              (evaluate compare_values value_at ps d.expression)
            ≡ tri_and t (clause_holds c))
          (sym (append_assoc acc.parameters d.parameters qs)) (rw (left, right) refl))
      ∙ tri_and_assoc t (clause_holds c) (holds cs)
  combined-truth p i t acc [] (d ∷ ds) m h = absurd m
  combined-truth p i t acc (c ∷ cs) [] m h = absurd m

  pieces-meaning :
      (p : String) (c : RowFilterClause) (cs : List RowFilterClause) (d : CompiledFilter)
      (ds : List CompiledFilter)
      → AllMean p 0 (c ∷ cs) (d ∷ ds)
      → evaluate compare_values value_at (combined d ds).parameters (combined d ds).expression
        ≡ holds (c ∷ cs)
  unfolding filter_holds
  pieces-meaning p c cs d ds (m, ms) =
      combined-truth p 1 (clause_holds c) d cs ds ms (λ qs later. m.truth [] qs later)

  pieces_compiled :
      (p : String) (cs : List RowFilterClause) (ds : List CompiledFilter)
      (o : Option (List CompiledFilter))
      → is_empty cs ≡ false
      → o ≡ some ds
      → AllMean p 0 cs ds
      → (compiled : CompiledFilter) × (compiled_filter numbered python_str show_uuid parse_uuid
            columns table_alias ctx o
          ≡ ok (some compiled))
        × (evaluate compare_values value_at compiled.parameters compiled.expression ≡ holds cs)
  pieces_compiled p [] ds o filled e m = absurd (cc)
  pieces_compiled p (c ∷ cs) [] o filled e m = absurd m
  pieces_compiled p (c ∷ cs) (d ∷ ds) o filled e m =
      (combined d ds, rw e refl, pieces-meaning p c cs d ds m)

  -- A filter that the model validates, over columns that the table has, compiles under every prefix
  -- and every alias to one predicate, and on every row that predicate, with the compiled parameters
  -- in the place of its placeholders, has the truth value of the conjunction of the clauses, each
  -- on the value of its column, in three-valued logic, with the context's identifiers as values.
  -- The names of placeholders are told apart by prefix and number, and the text of an identifier
  -- is read back as the identifier.
  pub compile_row_filter-meaning :
      (f : RowFilterDsl) (parameter_prefix : String)
      → validate_dsl f ≡ true
      → ((id : Uuid) → parse_uuid (show_uuid id) ≡ some id)
      → Known f.all_of
      → (compiled : CompiledFilter) × (compile_row_filter numbered python_str show_uuid parse_uuid
            columns table_alias ctx parameter_prefix
            (model_dump show_uuid f)
          ≡ ok (some compiled))
        × (evaluate compare_values value_at compiled.parameters compiled.expression
            ≡ filter_holds compare_values show_uuid ctx value f.all_of)
  unfolding compile_row_filter model_dump validate_dsl get
  compile_row_filter-meaning f p valid read known =
      let (ds, e, m) = clauses-AllMean p 0 f.all_of known read (ground arith) in
      pieces_compiled p f.all_of ds _ (ground arith) e m
