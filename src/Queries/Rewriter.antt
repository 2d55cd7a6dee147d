-- ===== src/Queries/Rewriter.antt =====
-- services/database/query_rewriter.py: mandatory row filters and the limit of rows. The tree that
-- SQLGlot's `transform` rebuilds is read by the tables that it visits, in their order, each with
-- what takes its place; the limit by the node of the statement's LIMIT.
pub mod Filtered
pub mod Limit
use tenant_intelligence_plat.Base.{
  ℕ, suc, ◌+◌, String, Bool, true, false, Option, none, some, List, [], ◌∷◌, ◌++◌, map, str_eq, ltb,
  ◌==◌, if◌then◌else◌, str_append,
}
use tenant_intelligence_plat.Errors.{unexpected}
use tenant_intelligence_plat.Exec.{Result, ok, err}
use tenant_intelligence_plat.Identity.Models.{Uuid}
use tenant_intelligence_plat.Permissions.Dsl.{Json}
use tenant_intelligence_plat.Permissions.Models.{DatabaseColumn}
use tenant_intelligence_plat.Permissions.Resolver.{EffectiveColumn, EffectiveTable, EffectiveSchema}
use tenant_intelligence_plat.Permissions.Compiler.{
  Condition, disjunction, RuntimeFilterContext, Parameters, CompiledFilter, compile_row_filter,
}
use tenant_intelligence_plat.Queries.SqlGlot.{SqlGlot}
use tenant_intelligence_plat.Queries.Lineage.{one_table, table_matches, dotted}

-- what takes the place of a visited table: the table itself, or, under the alias,
-- `(SELECT * FROM schema.table AS inner WHERE predicate)`
pub data Replacement : Type 0 where
  kept : Replacement
  filtered : (alias schema table inner_alias : String) (predicate : Condition) → Replacement

-- `counter`, `parameters` and `applied`, with the replacements so far
pub record Rewriting : Type 0 where
  pub counter : ℕ
  pub parameters : Parameters
  pub applied : List (String × List (List (Uuid × String)))
  pub replacements : List Replacement

abbrev pub continue_with {ℓ κ} : {A : Type ℓ} {B : Type κ} → Result A → (A → Result B) → Result B
continue_with (ok a) f = f a
continue_with (err e) f = err e

-- `column_map`, where the last column of an identifier counts
unfoldable pub column_map : List EffectiveColumn → Uuid → Option DatabaseColumn
column_map [] id = none
column_map (c ∷ cs) id =
    let later = column_map cs id in
    elim later [ some d ↦ some d | none ↦ if c.metadata.id == id then some c.metadata else none ]

-- `exp.or_` over the filters
unfoldable pub either_of : Condition → List CompiledFilter → Condition
either_of predicate [] = predicate
either_of predicate (f ∷ fs) = either_of (disjunction predicate f.expression) fs

abbrev pub filter_audits : List CompiledFilter → List (List (Uuid × String))
filter_audits fs = map (λ (f : CompiledFilter). f.audit) fs

abbrev pub all_parameters : List CompiledFilter → Parameters
all_parameters [] = []
all_parameters (f ∷ fs) = f.parameters ++ all_parameters fs

abbrev pub with_filter : Option CompiledFilter → List CompiledFilter → List CompiledFilter
with_filter none fs = fs
with_filter (some f) fs = f ∷ fs

-- the statement's LIMIT: none, an integer literal, or another expression
pub data LimitClause : Type 0 where
  no_limit : LimitClause
  literal_limit : ℕ → LimitClause
  other_limit : LimitClause

-- `_apply_limit`: the limit after it, and whether it was set; an unsafe limit is a ValueError
unfoldable pub apply_limit : ℕ → LimitClause → Result (ℕ × Bool)
apply_limit max_rows no_limit = ok (max_rows + 1, true)
apply_limit max_rows (literal_limit n) =
    if ltb (max_rows + 1) n then ok (max_rows + 1, true) else ok (n, false)
apply_limit max_rows other_limit = err unexpected

abbrev pub start : Rewriting
start = record { counter = 0; parameters = []; applied = []; replacements = [] }

pub record RewrittenQuery : Type 0 where
  pub rewriting : Rewriting
  pub limit : ℕ
  pub truncated_limit : Bool

-- `numbered p i` is f"{p}_{i}", `marked t i` is f"{t}#{i}".
module _ {E : Type 0} (G : SqlGlot E) (casefold : String → String) (numbered : String → ℕ → String)
    (marked : String → ℕ → String) (python_str : Json → String) (show_uuid : Uuid → String)
    (parse_uuid : String → Option Uuid) (allowed : EffectiveSchema)
    (ctx : RuntimeFilterContext) where
  -- the loop over the row filters of a table
  unfoldable pub compile_filters : EffectiveTable → ℕ → ℕ → List Json → Result (List CompiledFilter)
  unfolding column_map
  compile_filters table counter index [] = ok []
  compile_filters table counter index (normalized ∷ rest) =
      let others = compile_filters table counter (suc index) rest in
      continue_with
        (compile_row_filter numbered python_str show_uuid parse_uuid (column_map table.columns)
          (numbered "_authorized" counter) ctx (numbered (numbered "rf" counter) index) normalized)
        (λ compiled. continue_with others (λ fs. ok (with_filter compiled fs)))

  abbrev pub keep : Rewriting → Rewriting
  keep r = record r { replacements = r.replacements ++ (kept ∷ []) }

  abbrev pub replace : E → EffectiveTable → Rewriting → List CompiledFilter → Rewriting
  replace node table r [] = keep r
  replace node table r (f ∷ fs) = record {
    counter = suc r.counter;
    parameters = r.parameters ++ all_parameters (f ∷ fs);
    applied =
        r.applied
        ++ ((
          marked (dotted table.schema.schema_name table.metadata.table_name) r.counter,
          filter_audits (f ∷ fs),
        )
            ∷ []);
    replacements =
        r.replacements
        ++ (filtered (G.alias_or_name node) table.schema.schema_name table.metadata.table_name
              (numbered "_authorized" r.counter) (either_of f.expression fs)
            ∷ []);
  }

  abbrev pub transform_table : E → Option EffectiveTable → Rewriting → Result Rewriting
  transform_table node none r = ok (keep r)
  transform_table node (some table) r =
      continue_with (compile_filters table r.counter 0 table.row_filters)
        (λ fs. ok (replace node table r fs))

  -- `transform`, on the tables that are visited; a table without filters has no filter to compile
  unfoldable pub transform : List E → Rewriting → Result Rewriting
  unfolding compile_filters either_of
  transform [] r = ok r
  transform (node ∷ nodes) r =
      continue_with
        (transform_table node (one_table (table_matches G casefold numbered allowed node)) r)
        (transform nodes)

  -- the tables that the transformation visits and the LIMIT of the statement
  unfoldable pub rewrite : ℕ → List E → LimitClause → Result RewrittenQuery
  unfolding transform apply_limit
  rewrite max_rows tables limit_clause = continue_with (transform tables start) (λ r.
      continue_with (apply_limit max_rows limit_clause)
        (λ l. ok (record { rewriting = r; limit = l.0; truncated_limit = l.1 })))
