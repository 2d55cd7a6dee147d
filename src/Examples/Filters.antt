-- ===== src/Examples/Filters.antt =====
-- A row filter of one clause, compiled and put around the customers of the example statement.
use Prim.Native.String.{String, [], ◌∷◌}
use tenant_intelligence_plat.Base.{
  ℕ, suc, ◌+◌, ◌≤◌, ◌≡◌, refl, sym, ap, ◌∙◌, true, false, Option, none, some, inl, inr, ◌++◌, Has,
  arith, put_all, if◌then◌else◌, ◌==◌,
}
use mathlib.Core.List.{List}
use tenant_intelligence_plat.Exec.{ok}
use tenant_intelligence_plat.Identity.Models.{Uuid}
use tenant_intelligence_plat.Permissions.Dsl.{
  Json, null, get, operator_text, RowOperator, RowFilterDsl, RowFilterClause, validate_dsl,
  validate_operator_value, validate_context, model_dump,
}
use tenant_intelligence_plat.Permissions.Models.{DatabaseColumn}
use tenant_intelligence_plat.Permissions.Resolver.{EffectiveTable, EffectiveSchema}
use tenant_intelligence_plat.Permissions.Compiler.{
  Comparison, ColumnReference, negation, null_test, RuntimeFilterContext, CompiledFilter,
  compile_row_filter, compile_clauses, compile_clause, combined, operation_of_text,
}
use tenant_intelligence_plat.Permissions.Compiler.Conditions.{Truth, evaluate, filter_holds}
use tenant_intelligence_plat.Permissions.Compiler.Names.{IsNumbering}
use tenant_intelligence_plat.Permissions.Compiler.Clauses.{cell}
use tenant_intelligence_plat.Permissions.Compiler.Meaning.{compile_row_filter-meaning}
use tenant_intelligence_plat.Queries.Lineage.{table_matches, table_by_qualified_name}
use tenant_intelligence_plat.Queries.Rewriter.{
  Replacement, filtered, Rewriting, start, transform, compile_filters, column_map, either_of,
  apply_limit, literal_limit,
}
use tenant_intelligence_plat.Queries.Rewriter.Filtered.{AllGuarded, transform-AllGuarded}
use tenant_intelligence_plat.Queries.Rewriter.Limit.{apply_limit-bound}
use tenant_intelligence_plat.Examples.Tokens.{
  put_number, take_number, take_number-put, crypto, crypto-IsCrypto,
}
use tenant_intelligence_plat.Examples.Catalogs.{
  email_column, effective, effective_customers, region_filter,
}
use tenant_intelligence_plat.Examples.Statements.{customers, sqlglot, same_text}

-- numbers are written in front, in unary
abbrev pub numbered : String → ℕ → String
numbered p i = put_number i p

abbrev read : ℕ → String → Option (ℕ × String)
read i p = some (i, p)

numbered-read : (p q : String) (i j : ℕ) → numbered p i ≡ numbered q j → read i p ≡ read j q
numbered-read p q i j h = sym (take_number-put i p) ∙ ap take_number h ∙ take_number-put j q

pair_injective : {i j : ℕ} {p q : String} → read i p ≡ read j q → (i ≡ j) × (p ≡ q)
pair_injective {i} {j} {p} {q} h = (cc, cc)

chars : String → ℕ
chars [] = 0
chars (c ∷ s) = suc (chars s)

chars-numbered : (p : String) (i : ℕ) → suc (chars p) ≤ chars (numbered p i)
unfolding chars
chars-numbered p ℕ.zero = omega arith
chars-numbered p (ℕ.suc i) = omega (arith, chars-numbered p i)

pub numbered-IsNumbering : IsNumbering numbered
numbered-IsNumbering = record {
  same_prefix = λ p q i j h. (pair_injective (numbered-read p q i j h)).1;
  same_index = λ p q i j h. (pair_injective (numbered-read p q i j h)).0;
  grows = λ p i h. omega (arith, chars-numbered p i, ap chars h);
}

abbrev pub context_of_ada : RuntimeFilterContext
context_of_ada = record { user_id = 10; tenant_id = 1 }

abbrev pub no_text : Json → String
no_text v = ""

abbrev columns : Uuid → Option DatabaseColumn
columns id = if id == 2 then some (record email_column { id = 2 }) else none

abbrev equal_only : Comparison → Json → Json → Truth
equal_only c v w = some true

abbrev all_null : ColumnReference → Json
all_null c = null

region-valid : validate_dsl region_filter ≡ true
unfolding validate_dsl validate_operator_value validate_context
region-valid = refl

known :
    (c : RowFilterClause)
    → Has c region_filter.all_of
    → (column : DatabaseColumn) × (columns c.column_id ≡ some column)
known c (inl e) = (record email_column { id = 2 }, rw e refl)
known c (inr never) = elim never [ ]

compile_row_filter-meaning_example :
    (compiled : CompiledFilter) × (compile_row_filter numbered no_text crypto.show_uuid
        crypto.parse_uuid columns "inner" context_of_ada "rf"
        (model_dump crypto.show_uuid region_filter)
      ≡ ok (some compiled))
    × (evaluate equal_only all_null compiled.parameters compiled.expression
        ≡ filter_holds equal_only crypto.show_uuid context_of_ada
            (cell numbered numbered-IsNumbering no_text crypto.show_uuid crypto.parse_uuid columns
              "inner" context_of_ada equal_only all_null)
            region_filter.all_of)
compile_row_filter-meaning_example =
    compile_row_filter-meaning numbered numbered-IsNumbering no_text crypto.show_uuid
      crypto.parse_uuid columns "inner" context_of_ada equal_only all_null region_filter "rf"
      region-valid crypto-IsCrypto.parse-show known

-- the customers whose email is not null
abbrev email_filter : RowFilterDsl
email_filter = record {
  all_of =
      List.◌∷◌ (record { column_id = 33; operator = RowOperator.is_not_null; value = none })
        List.[];
}

abbrev filtered_customers : EffectiveTable
filtered_customers = record effective_customers {
  row_filters = List.◌∷◌ (model_dump crypto.show_uuid email_filter) List.[];
}

abbrev filtered_schema : EffectiveSchema
filtered_schema = record effective { tables = List.◌∷◌ filtered_customers List.[] }

abbrev email_guard : Replacement
email_guard =
    filtered "customers" "public" "customers" (numbered "_authorized" 0)
      (negation (null_test (record { table = numbered "_authorized" 0; name = "email" })))

abbrev guarded : Rewriting
guarded = record {
  counter = 1;
  parameters = List.[];
  applied =
      List.◌∷◌ ("public.customers", List.◌∷◌ (List.◌∷◌ (33, "is_not_null") List.[]) List.[])
        List.[];
  replacements = List.◌∷◌ email_guard List.[];
}

abbrev first_text : String → ℕ → String
first_text t i = t

transform-guarded :
    transform sqlglot same_text numbered first_text no_text crypto.show_uuid crypto.parse_uuid
      filtered_schema context_of_ada
      (List.◌∷◌ customers List.[])
      start
    ≡ ok guarded
unfolding transform compile_filters column_map either_of table_matches table_by_qualified_name
    put_all compile_row_filter compile_clauses compile_clause combined operation_of_text get
    operator_text model_dump
transform-guarded = refl

transform-AllGuarded_example :
    (added : List Replacement) × (guarded.replacements ≡ start.replacements ++ added)
    × AllGuarded sqlglot same_text numbered first_text no_text crypto.show_uuid crypto.parse_uuid
        filtered_schema context_of_ada
        (List.◌∷◌ customers List.[])
        added
transform-AllGuarded_example =
    transform-AllGuarded sqlglot same_text numbered first_text no_text crypto.show_uuid
      crypto.parse_uuid filtered_schema context_of_ada (List.◌∷◌ customers List.[]) start guarded
      transform-guarded

capped : apply_limit 100 (literal_limit 500) ≡ ok (101, true)
unfolding apply_limit
capped = refl

apply_limit-bound_example : (101 ≤ 100 + 1) × (true ≡ false → literal_limit 500 ≡ literal_limit 101)
apply_limit-bound_example = apply_limit-bound 100 (literal_limit 500) 101 true capped
