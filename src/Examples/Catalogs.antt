-- ===== src/Examples/Catalogs.antt =====
-- A connection with a sensitive column, and a role that may read it hashed.
use tenant_intelligence_plat.Base.{
  ◌≡◌, refl, true, false, none, some, inl, inr, List, [], ◌∷◌, Has, sort_by,
}
use tenant_intelligence_plat.Permissions.Dsl.{
  num, end, obj, RowOperator, RowFilterDsl, validate_dsl, validate_operator_value, validate_context,
  model_dump, is_falsy, literal,
}
use tenant_intelligence_plat.Permissions.Dsl.Validate.{model_validate}
use tenant_intelligence_plat.Permissions.Dsl.RoundTrip.{model_validate-model_dump}
use tenant_intelligence_plat.Permissions.Models.{
  hash, DatabaseConnection, DatabaseSchema, DatabaseTable, DatabaseColumn, TablePermission,
  ColumnPermission, Catalog, is_unmasked,
}
use tenant_intelligence_plat.Permissions.Repository.{effective_permissions, table_columns, columns}
use tenant_intelligence_plat.Permissions.Resolver.{
  EffectiveColumn, EffectiveTable, EffectiveSchema, merge_columns, merge_filters, selected,
  table_row, resolve, strongest, strongest_from,
}
use tenant_intelligence_plat.Permissions.Resolver.Access.{Grants, Granted, resolve-Granted}
use tenant_intelligence_plat.Permissions.Resolver.Masks.{resolve-masked, resolve-unfiltered}
use tenant_intelligence_plat.Permissions.Service.{ColumnPermissionItem}
use tenant_intelligence_plat.Permissions.Requests.{
  PermissionRequest, replace_request, delete_request, serve_permissions,
}
use tenant_intelligence_plat.Permissions.Masking.{IsMasked, serve_permissions-IsMasked}
use tenant_intelligence_plat.Permissions.AllowedSchema.{
  AllowedColumnResponse, AllowedTableResponse, Shown, allowed_schema_response,
  allowed_schema_response-Shown, reference_visible,
}
use tenant_intelligence_plat.Examples.Tokens.{crypto, crypto-IsCrypto}
use tenant_intelligence_plat.Examples.Identities.{store}

abbrev connection : DatabaseConnection
connection = record { id = 30; tenant_id = 1; is_active = true }

abbrev sales_schema : DatabaseSchema
sales_schema = record { id = 31; tenant_id = 1; connection_id = 30; schema_name = "public" }

abbrev customers : DatabaseTable
customers = record {
  id = 32;
  tenant_id = 1;
  connection_id = 30;
  schema_id = 31;
  table_name = "customers";
  table_type = "BASE TABLE";
  is_enabled = true;
}

abbrev pub email_column : DatabaseColumn
email_column = record {
  id = 33;
  tenant_id = 1;
  table_id = 32;
  column_name = "email";
  data_type = "text";
  is_primary_key = false;
  is_foreign_key = false;
  is_sensitive = true;
  referenced_schema = none;
  referenced_table = none;
  referenced_column = none;
}

abbrev role_permission : TablePermission
role_permission = record {
  id = 34;
  tenant_id = 1;
  role_id = some 20;
  user_id = none;
  connection_id = 30;
  table_id = 32;
  can_read = true;
  can_insert = false;
  can_update = false;
  can_delete = false;
  row_filter = obj end;
}

abbrev hashed_email : ColumnPermission
hashed_email = record {
  id = 35;
  tenant_id = 1;
  table_id = 32;
  table_permission_id = 34;
  column_id = 33;
  can_read = true;
  can_filter = false;
  can_aggregate = false;
  mask_type = some hash;
}

abbrev pub catalog : Catalog
catalog = record {
  identity = store;
  connections = connection ∷ [];
  schemas = sales_schema ∷ [];
  tables = customers ∷ [];
  columns = email_column ∷ [];
  table_permissions = role_permission ∷ [];
  column_permissions = hashed_email ∷ [];
}

abbrev pub effective_email : EffectiveColumn
effective_email = record {
  metadata = email_column;
  readable = true;
  filterable = false;
  aggregatable = false;
  mask_type = some hash;
}

abbrev pub effective_customers : EffectiveTable
effective_customers = record {
  metadata = customers;
  schema = sales_schema;
  columns = effective_email ∷ [];
  row_filters = [];
}

abbrev pub effective : EffectiveSchema
effective = record { connection_id = 30; tables = effective_customers ∷ [] }

pub resolution : resolve 1 10 (20 ∷ []) 30 catalog ≡ effective
unfolding resolve sort_by effective_permissions selected table_row merge_columns merge_filters
    table_columns columns strongest strongest_from
resolution = refl

pub in_resolution : Has effective_customers (resolve 1 10 (20 ∷ []) 30 catalog).tables
in_resolution = rw (resolution) (inl refl)

pub catalog-IsMasked : IsMasked catalog
catalog-IsMasked r c (inl e) hc same sensitive reads = rw e refl
catalog-IsMasked r c (inr never) hc same sensitive reads = elim never [ ]

resolve-Granted_example : Granted 1 10 (20 ∷ []) 30 catalog effective_customers
resolve-Granted_example =
    resolve-Granted 1 10 (20 ∷ []) 30 catalog effective_customers in_resolution

resolve-masked_example : is_unmasked (some hash) ≡ false
resolve-masked_example =
    resolve-masked 1 10 (20 ∷ []) 30 catalog effective_customers effective_email catalog-IsMasked
      in_resolution (inl refl) refl refl

resolve-unfiltered_example :
    (p : TablePermission) × Grants 1 10 (20 ∷ []) 30 catalog 32 p × (is_falsy p.row_filter ≡ true)
resolve-unfiltered_example =
    resolve-unfiltered 1 10 (20 ∷ []) 30 catalog effective_customers in_resolution refl

abbrev shown_email : ColumnPermissionItem
shown_email = record {
  column_id = 33;
  can_read = true;
  can_filter = true;
  can_aggregate = true;
  mask_type = none;
}

abbrev hidden_email : ColumnPermissionItem
hidden_email = record shown_email { mask_type = some hash }

abbrev permission_requests : List PermissionRequest
permission_requests =
    replace_request 1 34 (λ id. 40) (shown_email ∷ [])
    ∷ replace_request 1 34 (λ id. 41) (hidden_email ∷ [])
    ∷ delete_request 1 34
    ∷ []

serve_permissions-IsMasked_example :
    IsMasked
      (serve_permissions (λ s. s) crypto.show_uuid crypto.parse_uuid permission_requests catalog)
serve_permissions-IsMasked_example =
    serve_permissions-IsMasked (λ s. s) crypto.show_uuid crypto.parse_uuid permission_requests
      catalog catalog-IsMasked

abbrev shown_column : AllowedColumnResponse
shown_column = record {
  id = 33;
  name = "email";
  data_type = "text";
  readable = true;
  filterable = false;
  aggregatable = false;
  mask_type = some hash;
  is_primary_key = false;
  is_foreign_key = false;
  referenced_schema = none;
  referenced_table = none;
  referenced_column = none;
}

abbrev shown_customers : AllowedTableResponse
shown_customers = record {
  id = 32;
  schema_name = "public";
  table_name = "customers";
  table_type = "BASE TABLE";
  columns = shown_column ∷ [];
}

in_response : Has shown_customers (allowed_schema_response effective).tables
unfolding allowed_schema_response reference_visible
in_response = inl refl

allowed_schema_response-Shown_example : Shown effective shown_customers shown_column
allowed_schema_response-Shown_example =
    allowed_schema_response-Shown effective shown_customers shown_column in_response (inl refl)

abbrev pub region_filter : RowFilterDsl
region_filter = record {
  all_of =
      record {
        column_id = 2;
        operator = RowOperator.gte;
        value = some (record { source = literal; value = num 5 });
      }
      ∷ [];
}

region_filter-valid : validate_dsl region_filter ≡ true
unfolding validate_dsl validate_operator_value validate_context
region_filter-valid = refl

model_validate-model_dump_example :
    model_validate crypto.parse_uuid (model_dump crypto.show_uuid region_filter)
    ≡ some region_filter
model_validate-model_dump_example =
    model_validate-model_dump crypto.show_uuid crypto.parse_uuid region_filter
      crypto-IsCrypto.parse-show region_filter-valid
