-- ===== src/Queries/Lineage.antt =====
-- services/database/column_lineage.py: which base columns each output of a query reads, through
-- derived tables, common table expressions and set operations. The cache of scopes is left out: a
-- scope has the same outputs each time. `numbered p i` is the text f"{p}_{i}".
pub mod Flows
pub mod Covered
pub mod Bases
pub mod Sound
pub mod Masks
pub mod Sensitive
use tenant_intelligence_plat.Base.{
  ℕ, suc, ◌+◌, String, Bool, true, false, not, ◌&&◌, ◌||◌, Option, none, some, List, [], ◌∷◌, ◌++◌,
  map, str_eq, ltb, ◌==◌, if◌then◌else◌, is_empty, any, length, get_elem?, select, scalar, sort_by,
  str_leb, str_append, unique_by, dict_values,
}
use tenant_intelligence_plat.Identity.Models.{Uuid}
use tenant_intelligence_plat.Permissions.Models.{MaskType}
use tenant_intelligence_plat.Permissions.Resolver.{
  EffectiveColumn, EffectiveTable, EffectiveSchema, strongest,
}
use tenant_intelligence_plat.Queries.SqlGlot.{
  SqlGlot, Scope, Sources, Scopes, scope, no_sources, table_source, scope_source, no_scopes,
  and_scope, NodeClass,
}

-- the codes of `ColumnLineageError`
pub data LineageError : Type 0 where
  lineage_unresolved duplicate_output_column : LineageError

pub data Analysis {ℓ} (A : Type ℓ) : Type ℓ where
  found : A → Analysis A
  failed : LineageError → Analysis A

infixl 1 ◌>>=◌
abbrev pub ◌>>=◌ {ℓ κ} : {A : Type ℓ} {B : Type κ} → Analysis A → (A → Analysis B) → Analysis B
found a >>= f = f a
failed e >>= f = failed e

-- The list of what all succeed in, in their order; the first failure else.
abbrev pub gather {ℓ κ} :
    {A : Type ℓ} {B : Type κ} → (A → Analysis (List B)) → List A → Analysis (List B)
gather f [] = found []
gather f (x ∷ xs) = f x >>= λ ys. gather f xs >>= λ zs. found (ys ++ zs)

pub record BaseColumnProvenance : Type 0 where
  pub table_id : Uuid
  pub column_id : Uuid
  pub qualified_name : String
  pub mask_type : Option MaskType

pub record OutputColumnLineage : Type 0 where
  pub position : ℕ
  pub output_name : String
  pub sources : List BaseColumnProvenance
  pub mask_type : Option MaskType

abbrev pub same_column : BaseColumnProvenance → BaseColumnProvenance → Bool
same_column a b = a.table_id == b.table_id && a.column_id == b.column_id

-- `EffectiveSchema.table_by_qualified_name`, by its values
abbrev pub same_name : EffectiveTable → EffectiveTable → Bool
same_name a b =
    str_eq a.schema.schema_name b.schema.schema_name
    && str_eq a.metadata.table_name b.metadata.table_name

unfoldable pub table_by_qualified_name : EffectiveSchema → List EffectiveTable
table_by_qualified_name allowed = dict_values same_name allowed.tables

-- f"{schema}.{table}.{column}"
abbrev pub dotted : String → String → String
dotted a b = str_append a (str_append "." b)

abbrev pub provenance : EffectiveTable → EffectiveColumn → BaseColumnProvenance
provenance table column = record {
  table_id = table.metadata.id;
  column_id = column.metadata.id;
  qualified_name =
      dotted table.schema.schema_name
        (dotted table.metadata.table_name column.metadata.column_name);
  mask_type = column.mask_type;
}

-- `_merge_sources`
abbrev pub by_qualified_name : BaseColumnProvenance → BaseColumnProvenance → Bool
by_qualified_name a b = str_leb a.qualified_name b.qualified_name

unfoldable pub merge_sources : List BaseColumnProvenance → List BaseColumnProvenance
merge_sources sources = sort_by by_qualified_name (dict_values same_column sources)

unfoldable pub strongest_mask : List BaseColumnProvenance → Option MaskType
strongest_mask sources = strongest (map (λ (s : BaseColumnProvenance). s.mask_type) sources)

abbrev pub masking_plan : List OutputColumnLineage → List (Option MaskType)
masking_plan outputs = map (λ (o : OutputColumnLineage). o.mask_type) outputs

abbrev pub sources_of : Option OutputColumnLineage → List BaseColumnProvenance
sources_of none = []
sources_of (some o) = o.sources

abbrev pub sources_at : ℕ → List OutputColumnLineage → List BaseColumnProvenance
sources_at position outputs = sources_of (get_elem? outputs position)

-- the loop over the positions of the first branch, the sources of all branches at each
abbrev pub branch_sources : List (List OutputColumnLineage) → ℕ → List BaseColumnProvenance
branch_sources [] position = []
branch_sources (branch ∷ branches) position =
    sources_at position branch ++ branch_sources branches position

unfoldable pub merged_outputs :
    List (List OutputColumnLineage) → ℕ → List OutputColumnLineage → List OutputColumnLineage
unfolding merge_sources strongest_mask
merged_outputs branches position [] = []
merged_outputs branches position (o ∷ first) =
    let sources = merge_sources (branch_sources branches position) in
    record {
      position = position;
      output_name = o.output_name;
      sources = sources;
      mask_type = strongest_mask sources;
    }
    ∷ merged_outputs branches (suc position) first

unfoldable pub set_operation_outputs :
    List (List OutputColumnLineage) → Analysis (List OutputColumnLineage)
unfolding merged_outputs
set_operation_outputs [] = failed lineage_unresolved
set_operation_outputs (first ∷ rest) =
    if any (λ branch. not (length branch == length first)) (first ∷ rest)
    then failed lineage_unresolved
    else found (merged_outputs (first ∷ rest) 0 first)

-- A source as a column is looked up in it: a table, or the outputs of a scope, which may fail.
pub data View (E : Type 0) : Type 0 where
  base : E → View E
  derived : Analysis (List OutputColumnLineage) → View E

abbrev pub one_match : List OutputColumnLineage → Analysis (List BaseColumnProvenance)
one_match [] = found []
one_match (o ∷ []) = found o.sources
one_match (o ∷ p ∷ os) = failed lineage_unresolved

abbrev pub one_table : List EffectiveTable → Option EffectiveTable
one_table (t ∷ []) = some t
one_table _ = none

abbrev pub column_provenance : EffectiveTable → Option EffectiveColumn → List BaseColumnProvenance
column_provenance table none = []
column_provenance table (some c) = provenance table c ∷ []

module _ {E : Type 0} (G : SqlGlot E) (casefold : String → String) (numbered : String → ℕ → String)
    (allowed : EffectiveSchema) where
  abbrev pub same_folded : String → String → Bool
  same_folded a b = str_eq (casefold a) (casefold b)

  -- `matches` for a table, which the validator and the rewriter compute too
  unfoldable pub table_matches : E → List EffectiveTable
  unfolding table_by_qualified_name
  table_matches source =
      select
        (λ (t : EffectiveTable).
          str_eq t.metadata.table_name (G.name source)
          && (str_eq (G.db source) "" || str_eq t.schema.schema_name (G.db source)))
        (table_by_qualified_name allowed)

  abbrev pub readable_column : String → EffectiveTable → Option EffectiveColumn
  readable_column column_name table =
      scalar (λ (c : EffectiveColumn). c.readable && same_folded c.metadata.column_name column_name)
        table.columns

  abbrev pub table_column : Option EffectiveTable → String → List BaseColumnProvenance
  table_column none column_name = []
  table_column (some table) column_name =
      column_provenance table (readable_column column_name table)

  -- `_source_column`
  unfoldable pub source_column : String → View E → Analysis (List BaseColumnProvenance)
  unfolding table_matches
  source_column column_name (base source) =
      found (table_column (one_table (table_matches source)) column_name)
  source_column column_name (derived outputs) = do
    all_outputs ← outputs
    one_match
        (select (λ (o : OutputColumnLineage). same_folded o.output_name column_name) all_outputs)

  -- `scope.sources.get(alias)`, or all sources for a column without a table
  abbrev pub named_views : String → List (String × View E) → List (View E)
  named_views alias [] = []
  named_views alias ((a, v) ∷ views) = if str_eq a alias then v ∷ [] else named_views alias views

  abbrev pub candidate_views : E → List (String × View E) → List (View E)
  candidate_views column views =
      if str_eq (G.table_of column) ""
      then map (λ view. view.1) views
      else named_views (G.table_of column) views

  -- `_candidate_origins`
  abbrev pub has_column : Analysis (List BaseColumnProvenance) → Bool
  has_column (found sources) = not (is_empty sources)
  has_column (failed e) = false

  abbrev pub candidate_origins : E → List (String × View E) → ℕ
  candidate_origins column views = length (
      select (λ view. has_column (source_column (G.name column) view))
        (candidate_views column views))

  abbrev pub unique_sources : ℕ → List BaseColumnProvenance → Analysis (List BaseColumnProvenance)
  unique_sources origins unique =
      if is_empty unique || ltb 1 origins then failed lineage_unresolved else found unique

  unfoldable pub resolve_column : List (String × View E) → E → Analysis (List BaseColumnProvenance)
  unfolding source_column merge_sources
  resolve_column views column = do
    candidates ← gather (source_column (G.name column)) (candidate_views column views)
    unique_sources (candidate_origins column views) (merge_sources candidates)

  abbrev pub columns_below : E → List E
  columns_below expression = select (λ n. G.isinstance n NodeClass.column) (G.walk expression)

  abbrev pub first_text : String → String → String
  first_text a b = if str_eq a "" then b else a

  unfoldable pub projection_lineage : List (String × View E) → ℕ → E → Analysis OutputColumnLineage
  unfolding resolve_column merge_sources strongest_mask
  projection_lineage views position projection = do
    let expression = G.unalias projection
    resolved ← gather (resolve_column views) (columns_below expression)
    let sources = merge_sources resolved
    found (record {
      position = position;
      output_name =
          first_text (G.alias_or_name projection)
            (first_text (G.key expression) (numbered "column" (suc position)));
      sources = sources;
      mask_type = strongest_mask sources;
    })

  unfoldable pub projections :
      List (String × View E) → ℕ → List E → Analysis (List OutputColumnLineage)
  unfolding projection_lineage
  projections views position [] = found []
  projections views position (p ∷ ps) = do
    output ← projection_lineage views position p
    rest ← projections views (suc position) ps
    found (output ∷ rest)

  -- `_reject_duplicate_names`
  unfoldable pub reject_duplicate_names :
      List OutputColumnLineage → Analysis (List OutputColumnLineage)
  reject_duplicate_names outputs =
      if unique_by (λ (a b : OutputColumnLineage). same_folded a.output_name b.output_name) outputs
      then found outputs
      else failed duplicate_output_column

  abbrev pub is_set_operation : E → Bool
  is_set_operation e =
      G.isinstance e NodeClass.union
      || (G.isinstance e NodeClass.intersect || G.isinstance e NodeClass.except)

  -- the three cases of `_scope_outputs`, each computed from the sources or the branches
  abbrev pub outputs_of :
      E
      → List (String × View E)
      → Analysis (List (List OutputColumnLineage))
      → Analysis (List OutputColumnLineage)
  outputs_of e views branches =
      (if is_set_operation e
        then branches >>= set_operation_outputs
        else if G.isinstance e NodeClass.select
        then projections views 0 (G.expressions e)
        else failed lineage_unresolved)
      >>= reject_duplicate_names

  unfoldable mutual
    unfolding set_operation_outputs projections reject_duplicate_names

    pub scope_outputs : Scope E → Analysis (List OutputColumnLineage)
    scope_outputs (scope e sources columns branches) =
        outputs_of e (source_views sources) (branch_outputs branches)

    pub source_views : Sources E → List (String × View E)
    source_views no_sources = []
    source_views (table_source alias t rest) = (alias, base t) ∷ source_views rest
    source_views (scope_source alias s rest) =
        (alias, derived (scope_outputs s)) ∷ source_views rest

    pub branch_outputs : Scopes E → Analysis (List (List OutputColumnLineage))
    branch_outputs no_scopes = found []
    branch_outputs (and_scope s rest) =
        scope_outputs s >>= λ outputs. branch_outputs rest >>= λ others. found (outputs ∷ others)

  abbrev pub analyzed : Option (Scope E) → Analysis (List OutputColumnLineage)
  analyzed none = failed lineage_unresolved
  analyzed (some root) = scope_outputs root >>= reject_duplicate_names

  unfoldable pub analyze : E → Analysis (List OutputColumnLineage)
  analyze expression = analyzed (G.build_scope expression)
