-- ===== src/Queries/Lineage/Sensitive.antt =====
-- services/database/column_lineage.py over a resolved schema: sensitive columns reach no unmasked
-- output.
use tenant_intelligence_plat.Base.{ℕ, String, List}
use tenant_intelligence_plat.Identity.Models.{Uuid}
use tenant_intelligence_plat.Permissions.Models.{Catalog}
use tenant_intelligence_plat.Permissions.Resolver.{EffectiveSchema, resolve}
use tenant_intelligence_plat.Queries.SqlGlot.{SqlGlot}
use tenant_intelligence_plat.Queries.Lineage.Flows.{Flows}

module _ {E : Type 0} (G : SqlGlot E) (casefold : String → String) (numbered : String → ℕ → String)
    (tenant_id user_id : Uuid) (role_ids : List Uuid) (connection_id : Uuid) (db : Catalog) where
  abbrev pub resolved : EffectiveSchema
  resolved = resolve tenant_id user_id role_ids connection_id db
