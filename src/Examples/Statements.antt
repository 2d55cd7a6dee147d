-- ===== src/Examples/Statements.antt =====
-- The statement SELECT c.email FROM (SELECT email FROM customers) AS c over the example catalog.
use tenant_intelligence_plat.Base.{
  ℕ, ◌≡◌, refl, String, Bool, true, false, some, inl, inr, List, [], ◌∷◌, Has, sort_by, put_all,
  str_eq,
}
use tenant_intelligence_plat.Permissions.Models.{hash}
use tenant_intelligence_plat.Permissions.Resolver.{strongest, strongest_from, EffectiveColumn}
use tenant_intelligence_plat.Queries.SqlGlot.{
  NodeClass, SqlGlot, Scope, scope, no_sources, table_source, scope_source, no_scopes,
}
use tenant_intelligence_plat.Queries.Lineage.{
  found, BaseColumnProvenance, OutputColumnLineage, provenance, analyze, scope_outputs, projections,
  projection_lineage, resolve_column, source_column, table_matches, table_by_qualified_name,
  merge_sources, strongest_mask, reject_duplicate_names,
}
use tenant_intelligence_plat.Queries.Lineage.Flows.{Flows, Named}
use tenant_intelligence_plat.Examples.Catalogs.{effective, effective_customers, effective_email}

pub data Node : Type 0 where
  outer_select outer_column subquery inner_select inner_column customers : Node

abbrev is_a : Node → NodeClass → Bool
is_a outer_select NodeClass.select = true
is_a inner_select NodeClass.select = true
is_a outer_column NodeClass.column = true
is_a inner_column NodeClass.column = true
is_a subquery NodeClass.subquery = true
is_a customers NodeClass.table = true
is_a _ _ = false

abbrev below : Node → List Node
below outer_select =
    outer_select ∷ outer_column ∷ subquery ∷ inner_select ∷ inner_column ∷ customers ∷ []
below subquery = subquery ∷ inner_select ∷ inner_column ∷ customers ∷ []
below inner_select = inner_select ∷ inner_column ∷ customers ∷ []
below n = n ∷ []

abbrev above : Node → List Node
above outer_select = []
above outer_column = outer_select ∷ []
above subquery = outer_select ∷ []
above inner_select = subquery ∷ outer_select ∷ []
above _ = inner_select ∷ subquery ∷ outer_select ∷ []

abbrev same_node : Node → Node → Bool
same_node outer_select outer_select = true
same_node inner_select inner_select = true
same_node _ _ = false

abbrev selected : Node → List Node
selected outer_select = outer_column ∷ []
selected inner_select = inner_column ∷ []
selected _ = []

abbrev name_of : Node → String
name_of outer_column = "email"
name_of inner_column = "email"
name_of customers = "customers"
name_of _ = ""

abbrev alias_named : Node → String
alias_named outer_column = "c"
alias_named _ = ""

abbrev pub inner_scope : Scope Node
inner_scope =
    scope inner_select (table_source "customers" customers no_sources) (inner_column ∷ []) no_scopes

abbrev pub outer_scope : Scope Node
outer_scope =
    scope outer_select (scope_source "c" inner_scope no_sources) (outer_column ∷ []) no_scopes

abbrev pub sqlglot : SqlGlot Node
sqlglot = record {
  parse = λ s. some (some outer_select ∷ []);
  sql = λ n. "SELECT c.email FROM (SELECT email FROM customers) AS c";
  isinstance = is_a;
  walk = below;
  has_comments = λ n. false;
  ancestors = above;
  is_node = same_node;
  expressions = selected;
  unalias = λ n. n;
  alias_or_name = name_of;
  key = λ n. "column";
  name = name_of;
  table_of = alias_named;
  db = λ n. "";
  sql_name = λ n. "";
  column_aliases = λ n. [];
  build_scope = λ n. some outer_scope;
  traverse_scope = λ n. inner_scope ∷ outer_scope ∷ [];
}

abbrev pub same_text : String → String
same_text s = s

abbrev pub joined : String → ℕ → String
joined p i = p

abbrev pub email_source : BaseColumnProvenance
email_source = provenance effective_customers effective_email

abbrev pub email_output : OutputColumnLineage
email_output = record {
  position = 0;
  output_name = "email";
  sources = email_source ∷ [];
  mask_type = some hash;
}

pub email_outputs :
    analyze sqlglot same_text joined effective outer_select ≡ found (email_output ∷ [])
unfolding analyze scope_outputs projections projection_lineage resolve_column source_column
    table_matches table_by_qualified_name merge_sources strongest_mask reject_duplicate_names
    strongest strongest_from sort_by put_all
email_outputs = refl

email_only :
    (d : EffectiveColumn)
    → Has d effective_customers.columns
    → str_eq d.metadata.column_name "email" ≡ true
    → d ≡ effective_email
email_only d (inl same) e = same
email_only d (inr never) e = elim never [ ]

pub email-Flows : Flows sqlglot same_text joined effective outer_scope 0 email_source
unfolding Flows Named table_matches table_by_qualified_name put_all
email-Flows = inr (
  refl,
  (
    outer_column,
    refl,
    outer_column,
    inl refl,
    inl refl,
    refl,
    inl (
      refl,
      refl,
      (
        0,
        inr (refl, (inner_column, refl, refl, refl)),
        inr (
          refl,
          (
            inner_column,
            refl,
            inner_column,
            inl refl,
            inl refl,
            refl,
            inl (
              refl,
              refl,
              record {
                table = effective_customers;
                column = effective_email;
                is_table = refl;
                in_table = inl refl;
                is_readable = refl;
                named = refl;
                only_one = email_only;
                is_provenance = refl;
              },
            ),
          ),
        ),
      ),
    ),
  ),
)
