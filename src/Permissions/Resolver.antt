-- ===== src/Permissions/Resolver.antt =====
-- services/database/permission_resolver.py: what a user may read of a connection.
pub mod Merge
pub mod Access
pub mod Masks
use tenant_intelligence_plat.Base.{
  ℕ, String, Bool, true, false, not, ◌&&◌, ◌||◌, Option, none, some, List, [], ◌∷◌, ◌++◌, map,
  str_eq, ◌==◌, is_id, leb, ltb, if◌then◌else◌, is_empty, any, select, scalar, sort_by, str_leb,
  join,
}
use tenant_intelligence_plat.Identity.Models.{Uuid}
use tenant_intelligence_plat.Permissions.Dsl.{Json, is_falsy}
use tenant_intelligence_plat.Permissions.Models.{
  MaskType, mask_strength, DatabaseConnection, DatabaseSchema, DatabaseTable, DatabaseColumn,
  TablePermission, ColumnPermission, Catalog,
}
use tenant_intelligence_plat.Permissions.Repository.{
  has_role, effective_permissions, table_columns, columns,
}

pub record EffectiveColumn : Type 0 where
  pub metadata : DatabaseColumn
  pub readable : Bool
  pub filterable : Bool
  pub aggregatable : Bool
  pub mask_type : Option MaskType

pub record EffectiveTable : Type 0 where
  pub metadata : DatabaseTable
  pub schema : DatabaseSchema
  pub columns : List EffectiveColumn
  pub row_filters : List Json

pub record EffectiveSchema : Type 0 where
  pub connection_id : Uuid
  pub tables : List EffectiveTable

-- the tuple that `_merge_columns` collects
pub record Grant : Type 0 where
  pub read : Bool
  pub filter : Bool
  pub aggregate : Bool
  pub mask : Option MaskType

abbrev pub grant_of : ColumnPermission → Grant
grant_of p = record {
  read = p.can_read;
  filter = p.can_filter;
  aggregate = p.can_aggregate;
  mask = p.mask_type;
}

abbrev pub full_grant : Grant
full_grant = record { read = true; filter = true; aggregate = true; mask = none }

-- `next((row for row in explicit if row.column_id == column.id), None)`
abbrev pub explicit_grant : Option ColumnPermission → List Grant
explicit_grant none = []
explicit_grant (some p) = grant_of p ∷ []

-- what one permission grants on a column: its rows, or all if it has none and nothing is sensitive
abbrev pub grants_of : DatabaseColumn → List ColumnPermission → List Grant
grants_of column [] = if column.is_sensitive then [] else full_grant ∷ []
grants_of column (p ∷ ps) = explicit_grant (scalar (λ r. r.column_id == column.id) (p ∷ ps))

-- `max(masks, key=MASK_STRENGTH)`: the first of the strongest
abbrev pub stronger : Option MaskType → Option MaskType → Option MaskType
stronger a b = if ltb (mask_strength a) (mask_strength b) then b else a

unfoldable pub strongest_from : Option MaskType → List (Option MaskType) → Option MaskType
strongest_from best [] = best
strongest_from best (m ∷ ms) = strongest_from (stronger best m) ms

unfoldable pub strongest : List (Option MaskType) → Option MaskType
unfolding strongest_from
strongest [] = none
strongest (m ∷ ms) = strongest_from m ms

abbrev pub readable_masks : List Grant → List (Option MaskType)
readable_masks gs = map (λ (g : Grant). g.mask) (select (λ (g : Grant). g.read) gs)

abbrev pub merge_grants : DatabaseColumn → List Grant → EffectiveColumn
merge_grants column gs = record {
  metadata = column;
  readable = any (λ (g : Grant). g.read) gs;
  filterable = any (λ (g : Grant). g.filter) gs;
  aggregatable = any (λ (g : Grant). g.aggregate) gs;
  mask_type = strongest (readable_masks gs);
}

-- all grants on a column, permission by permission
abbrev pub column_grants :
    DatabaseColumn → List TablePermission → (TablePermission → List ColumnPermission) → List Grant
column_grants column permissions by_permission =
    join permissions (λ p. grants_of column (by_permission p))

unfoldable pub merge_columns :
    List DatabaseColumn
    → List TablePermission
    → (TablePermission → List ColumnPermission)
    → List EffectiveColumn
merge_columns metadata permissions by_permission =
    map (λ c. merge_grants c (column_grants c permissions by_permission)) metadata

-- One permission with no filter lifts them all.
unfoldable pub merge_filters : List TablePermission → List Json
merge_filters permissions =
    if any (λ (p : TablePermission). is_falsy p.row_filter) permissions
    then []
    else map (λ (p : TablePermission). p.row_filter) permissions

-- `by_table`: the permissions of each table, tables in the order of their first permission
abbrev pub table_ids : List TablePermission → List Uuid
table_ids [] = []
table_ids (p ∷ ps) = p.table_id ∷ select (λ id. not (id == p.table_id)) (table_ids ps)

abbrev pub candidates_of : Uuid → List TablePermission → List TablePermission
candidates_of table_id permissions =
    select (λ (p : TablePermission). p.table_id == table_id) permissions

-- Direct permissions take the place of those of the roles; then only those that can read count.
unfoldable pub selected : Uuid → List Uuid → List TablePermission → List TablePermission
selected user_id role_ids candidates =
    let direct = select (λ (p : TablePermission). is_id p.user_id user_id) candidates in
    select (λ (p : TablePermission). p.can_read)
      (if is_empty direct then select (has_role role_ids) candidates else direct)

-- the row of the join of tables and schemas
unfoldable pub table_row : Uuid → Uuid → Uuid → Catalog → Option (DatabaseTable × DatabaseSchema)
table_row tenant_id connection_id table_id db =
    scalar
      (λ row.
        row.0.tenant_id == tenant_id
        && (row.0.connection_id == connection_id
            && (row.0.id == table_id && (row.0.is_enabled && row.1.tenant_id == tenant_id))))
      (join db.tables
        (λ t. map (λ s. (t, s)) (select (λ (s : DatabaseSchema). s.id == t.schema_id) db.schemas)))

module _ (tenant_id user_id : Uuid) (role_ids : List Uuid) (connection_id : Uuid)
    (db : Catalog) where
  abbrev pub effective_columns : DatabaseTable → List TablePermission → List EffectiveColumn
  effective_columns table chosen =
      merge_columns (table_columns tenant_id table.id db) chosen (λ p. columns tenant_id p.id db)

  abbrev pub effective_row :
      List TablePermission → Option (DatabaseTable × DatabaseSchema) → List EffectiveTable
  effective_row chosen none = []
  effective_row chosen (some (table, schema)) =
      let merged = effective_columns table chosen in
      if any (λ (c : EffectiveColumn). c.readable) merged
      then record {
        metadata = table;
        schema = schema;
        columns = merged;
        row_filters = merge_filters chosen;
      }
        ∷ []
      else []

  -- one turn of the loop over `by_table`
  abbrev pub effective_table : List TablePermission → Uuid → List EffectiveTable
  effective_table permissions table_id =
      let chosen = selected user_id role_ids (candidates_of table_id permissions) in
      if is_empty chosen
      then []
      else effective_row chosen (table_row tenant_id connection_id table_id db)

  abbrev pub table_order : EffectiveTable → EffectiveTable → Bool
  table_order a b =
      if str_eq a.schema.schema_name b.schema.schema_name
      then str_leb a.metadata.table_name b.metadata.table_name
      else str_leb a.schema.schema_name b.schema.schema_name

  abbrev pub is_connected : Bool
  is_connected =
      any (λ c. c.tenant_id == tenant_id && (c.id == connection_id && c.is_active)) db.connections

  unfoldable pub resolve : EffectiveSchema
  resolve =
      let permissions = effective_permissions tenant_id connection_id user_id role_ids db in
      record {
        connection_id = connection_id;
        tables =
            if is_connected
            then sort_by table_order (join (table_ids permissions) (effective_table permissions))
            else [];
      }
