-- ===== src/Queries/SqlGlot.antt =====
-- What services/database/*.py read of SQLGlot, a third-party library: its parser, its scope builder
-- and the attributes of its expressions, over any type of expressions.
use tenant_intelligence_plat.Base.{String, Bool, Option, List}

-- the classes that the code tests with `isinstance` and `find_all`
pub data NodeClass : Type 0 where
  select union intersect except star table column join cte subquery where_clause having agg_func :
      NodeClass
  func binary case_of if_of anonymous literal limit insert update delete merge create drop :
      NodeClass
  alter command copy grant revoke lock into : NodeClass

-- `Scope`: its expression, the sources by alias, the columns and the branches of a set operation
mutual
  pub data Scope (E : Type 0) : Type 0 where
    scope : E → Sources E → List E → Scopes E → Scope E

  -- `scope.sources`, each a table or a scope
  pub data Sources (E : Type 0) : Type 0 where
    no_sources : Sources E
    table_source : String → E → Sources E → Sources E
    scope_source : String → Scope E → Sources E → Sources E

  pub data Scopes (E : Type 0) : Type 0 where
    no_scopes : Scopes E
    and_scope : Scope E → Scopes E → Scopes E

pub record SqlGlot (E : Type 0) : Type 0 where
  -- `sqlglot.parse(sql, read="postgres")`; `none` is ParseError
  pub parse : String → Option (List (Option E))
  -- `expression.sql(dialect="postgres", pretty=False)`
  pub sql : E → String
  pub isinstance : E → NodeClass → Bool
  -- the node and all below it
  pub walk : E → List E
  pub has_comments : E → Bool
  -- `node.parent`, its parent and so on
  pub ancestors : E → List E
  -- `a is b`
  pub is_node : E → E → Bool
  -- the projections of a SELECT
  pub expressions : E → List E
  pub unalias : E → E
  pub alias_or_name : E → String
  pub key : E → String
  pub name : E → String
  -- `column.table`, and `table.db`
  pub table_of : E → String
  pub db : E → String
  pub sql_name : E → String
  -- the columns in the alias of a table, or of the subquery or CTE that a statement stands in, as in
  -- `AS c(name, email)`
  pub column_aliases : E → List String
  pub build_scope : E → Option (Scope E)
  pub traverse_scope : E → List (Scope E)
