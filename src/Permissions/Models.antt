-- ===== src/Permissions/Models.antt =====
-- models/permission.py, models/database_schema.py and models/database_connection.py: the rows, less
-- the columns that no authorization reads (descriptions, statistics, credentials, timestamps).
use tenant_intelligence_plat.Base.{ℕ, String, Bool, true, false, Option, none, some, List}
use tenant_intelligence_plat.Identity.Models.{Uuid, Store}
use tenant_intelligence_plat.Permissions.Dsl.{Json}

-- `MASK_TYPES`
pub data MaskType : Type 0 where
  redact partial hash null_mask : MaskType

-- `MASK_STRENGTH`, over a mask or its absence
abbrev pub mask_strength : Option MaskType → ℕ
mask_strength none = 0
mask_strength (some partial) = 1
mask_strength (some hash) = 2
mask_strength (some redact) = 3
mask_strength (some null_mask) = 4

abbrev pub is_unmasked : Option MaskType → Bool
is_unmasked none = true
is_unmasked (some m) = false

pub record DatabaseConnection : Type 0 where
  pub id : Uuid
  pub tenant_id : Uuid
  pub is_active : Bool

pub record DatabaseSchema : Type 0 where
  pub id : Uuid
  pub tenant_id : Uuid
  pub connection_id : Uuid
  pub schema_name : String

pub record DatabaseTable : Type 0 where
  pub id : Uuid
  pub tenant_id : Uuid
  pub connection_id : Uuid
  pub schema_id : Uuid
  pub table_name : String
  pub table_type : String
  pub is_enabled : Bool

pub record DatabaseColumn : Type 0 where
  pub id : Uuid
  pub tenant_id : Uuid
  pub table_id : Uuid
  pub column_name : String
  pub data_type : String
  pub is_primary_key : Bool
  pub is_foreign_key : Bool
  pub is_sensitive : Bool
  pub referenced_schema : Option String
  pub referenced_table : Option String
  pub referenced_column : Option String

pub record TablePermission : Type 0 where
  pub id : Uuid
  pub tenant_id : Uuid
  pub role_id : Option Uuid
  pub user_id : Option Uuid
  pub connection_id : Uuid
  pub table_id : Uuid
  pub can_read : Bool
  pub can_insert : Bool
  pub can_update : Bool
  pub can_delete : Bool
  pub row_filter : Json

pub record ColumnPermission : Type 0 where
  pub id : Uuid
  pub tenant_id : Uuid
  pub table_id : Uuid
  pub table_permission_id : Uuid
  pub column_id : Uuid
  pub can_read : Bool
  pub can_filter : Bool
  pub can_aggregate : Bool
  pub mask_type : Option MaskType

-- The tables that authorization reads: the identities, the cached metadata and the permissions.
pub record Catalog : Type 0 where
  pub identity : Store
  pub connections : List DatabaseConnection
  pub schemas : List DatabaseSchema
  pub tables : List DatabaseTable
  pub columns : List DatabaseColumn
  pub table_permissions : List TablePermission
  pub column_permissions : List ColumnPermission
