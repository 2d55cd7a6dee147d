-- ===== src/Permissions/Service.antt =====
-- services/permission_service.py: the administration of permissions. `show_uuid` and `parse_uuid`
-- are `str` and `UUID`; `uuid4_of` gives the new identifier of the row of an item.
use tenant_intelligence_plat.Base.{
  ℕ, ◌-◌, ◌*◌, String, Bool, true, false, not, ◌&&◌, Option, none, some, List, [], ◌∷◌, ◌++◌, map,
  ◌==◌, if◌then◌else◌, any, unique_by, update_where, delete_where,
}
use tenant_intelligence_plat.Errors.{
  resource_not_found, conflict, invalid_permission, integrity, unexpected,
}
use tenant_intelligence_plat.Exec.{
  Result, ok, err, Exec, pure, gets, or_raise, commit, ◌>>=◌, ◌>>◌, raise_if,
}
use tenant_intelligence_plat.Identity.Models.{Uuid}
use tenant_intelligence_plat.Identity.Repository.{get_user, get_role}
use tenant_intelligence_plat.Permissions.Dsl.{Json, is_falsy, RowFilterDsl}
use tenant_intelligence_plat.Permissions.Dsl.Validate.{model_validate}
use tenant_intelligence_plat.Permissions.Models.{
  MaskType, is_unmasked, DatabaseColumn, TablePermission, ColumnPermission, Catalog,
}
use tenant_intelligence_plat.Permissions.RowFilter.{column_by_id, validate_row_filter}
use tenant_intelligence_plat.Permissions.Repository.{
  get_table, get_permission, list_permissions, columns, table_columns, replace_columns,
}
use tenant_intelligence_plat.Permissions.Constraints.{is_some, permissions_hold}

pub record TablePermissionCreateRequest : Type 0 where
  pub role_id : Option Uuid
  pub user_id : Option Uuid
  pub connection_id : Uuid
  pub table_id : Uuid
  pub can_read : Bool
  pub row_filter : Option RowFilterDsl

-- `exactly_one_subject`
abbrev pub exactly_one_subject : TablePermissionCreateRequest → Bool
exactly_one_subject payload =
    if is_some payload.role_id then not (is_some payload.user_id) else is_some payload.user_id

-- A field that the request does not set is `none`; `row_filter` set to null is `some none`.
pub record TablePermissionUpdateRequest : Type 0 where
  pub can_read : Option Bool
  pub row_filter : Option (Option RowFilterDsl)

pub record ColumnPermissionItem : Type 0 where
  pub column_id : Uuid
  pub can_read : Bool
  pub can_filter : Bool
  pub can_aggregate : Bool
  pub mask_type : Option MaskType

-- `unique_columns`
abbrev pub unique_columns : List ColumnPermissionItem → Bool
unique_columns items = unique_by (λ a b. a.column_id == b.column_id) items

pub record TablePermissionResponse : Type 0 where
  pub id : Uuid
  pub role_id : Option Uuid
  pub user_id : Option Uuid
  pub connection_id : Uuid
  pub table_id : Uuid
  pub can_read : Bool
  pub can_insert : Bool
  pub can_update : Bool
  pub can_delete : Bool
  pub row_filter : Json

pub record ColumnPermissionResponse : Type 0 where
  pub id : Uuid
  pub column_id : Uuid
  pub can_read : Bool
  pub can_filter : Bool
  pub can_aggregate : Bool
  pub mask_type : Option MaskType

abbrev pub permission_response : TablePermission → TablePermissionResponse
permission_response p = record {
  id = p.id;
  role_id = p.role_id;
  user_id = p.user_id;
  connection_id = p.connection_id;
  table_id = p.table_id;
  can_read = p.can_read;
  can_insert = p.can_insert;
  can_update = p.can_update;
  can_delete = p.can_delete;
  row_filter = p.row_filter;
}

abbrev pub column_response : ColumnPermission → ColumnPermissionResponse
column_response c = record {
  id = c.id;
  column_id = c.column_id;
  can_read = c.can_read;
  can_filter = c.can_filter;
  can_aggregate = c.can_aggregate;
  mask_type = c.mask_type;
}

-- `value is not None and found is None`
abbrev pub is_unknown : {A : Type 0} → Option Uuid → (Uuid → Option A) → Bool
is_unknown none find = false
is_unknown (some id) find = elim (find id) [ none ↦ true | some a ↦ false ]

-- a call that touches no row: its result, or its exception
abbrev pub lift : {A : Type 0} → Result A → Exec Catalog A
lift r db = (r, db)

abbrev pub insert_permission : TablePermission → Catalog → Catalog
insert_permission p db = record db { table_permissions = db.table_permissions ++ p ∷ [] }

abbrev pub set_permission : TablePermission → Catalog → Catalog
set_permission changed db = record db {
  table_permissions = update_where (λ p. p.id == changed.id) (λ p. changed) db.table_permissions;
}

-- `session.delete`, with the rows that `ON DELETE CASCADE` removes
abbrev pub delete_permission : TablePermission → Catalog → Catalog
delete_permission permission db = record db {
  table_permissions = delete_where (λ p. p.id == permission.id) db.table_permissions;
  column_permissions =
      delete_where (λ (c : ColumnPermission). c.table_permission_id == permission.id)
        db.column_permissions;
}

abbrev pub set_can_read : Option Bool → TablePermission → TablePermission
set_can_read none p = p
set_can_read (some b) p = record p { can_read = b }

-- an item that would show a sensitive column unmasked; `metadata_by_id[item.column_id]`
abbrev pub shows_sensitive : List DatabaseColumn → ColumnPermissionItem → Bool
shows_sensitive metadata item = elim (column_by_id item.column_id metadata) [
  | none ↦ false
  | some column ↦ column.is_sensitive && (item.can_read && is_unmasked item.mask_type)
]

abbrev pub is_foreign : List DatabaseColumn → ColumnPermissionItem → Bool
is_foreign metadata item = not (any (λ (c : DatabaseColumn). c.id == item.column_id) metadata)

module _ (casefold : String → String) (show_uuid : Uuid → String)
    (parse_uuid : String → Option Uuid) (tenant_id : Uuid) where
  abbrev pub permission_of : Uuid → Exec Catalog TablePermission
  permission_of permission_id = do
    found ← gets (get_permission tenant_id permission_id)
    or_raise found resource_not_found

  abbrev pub new_permission : Uuid → TablePermissionCreateRequest → Json → TablePermission
  new_permission new_id payload normalized_filter = record {
    id = new_id;
    tenant_id = tenant_id;
    role_id = payload.role_id;
    user_id = payload.user_id;
    connection_id = payload.connection_id;
    table_id = payload.table_id;
    can_read = payload.can_read;
    can_insert = false;
    can_update = false;
    can_delete = false;
    row_filter = normalized_filter;
  }

  unfoldable pub create : Uuid → TablePermissionCreateRequest → Exec Catalog TablePermissionResponse
  create new_id payload = do
    no_user ← gets (λ db. is_unknown payload.user_id (λ id. get_user tenant_id id db.identity))
    raise_if no_user resource_not_found
    no_role ← gets (λ db. is_unknown payload.role_id (λ id. get_role tenant_id id db.identity))
    raise_if no_role resource_not_found
    found ← gets (get_table tenant_id payload.connection_id payload.table_id)
    table ← or_raise found resource_not_found
    metadata ← gets (table_columns tenant_id table.id)
    normalized_filter ← lift (validate_row_filter casefold show_uuid payload.row_filter metadata [])
    let permission = new_permission new_id payload normalized_filter
    commit permissions_hold conflict (insert_permission permission) (permission_response permission)

  unfoldable pub get_response : Uuid → Exec Catalog TablePermissionResponse
  get_response permission_id = do
    permission ← permission_of permission_id
    pure (permission_response permission)

  unfoldable pub list_page :
      ℕ
      → ℕ
      → Option Uuid
      → Option Uuid
      → Option Uuid
      → Option Uuid
      → Exec Catalog (List TablePermissionResponse × ℕ)
  list_page page page_size connection_id table_id user_id role_id = do
    listed ← gets (
        list_permissions tenant_id ((page - 1) * page_size) page_size connection_id table_id user_id
          role_id)
    pure (map permission_response listed.0, listed.1)

  -- the part of `update` on `row_filter`
  abbrev pub set_row_filter :
      Option (Option RowFilterDsl) → TablePermission → Exec Catalog TablePermission
  set_row_filter none permission = pure permission
  set_row_filter (some filter) permission = do
    metadata ← gets (table_columns tenant_id permission.table_id)
    explicit ← gets (columns tenant_id permission.id)
    normalized_filter ← lift (validate_row_filter casefold show_uuid filter metadata explicit)
    pure (record permission { row_filter = normalized_filter })

  unfoldable pub update : Uuid → TablePermissionUpdateRequest → Exec Catalog TablePermissionResponse
  update permission_id payload = do
    permission ← permission_of permission_id
    changed ← set_row_filter payload.row_filter (set_can_read payload.can_read permission)
    commit permissions_hold integrity (set_permission changed) (permission_response changed)

  unfoldable pub delete : Uuid → Exec Catalog Unit
  delete permission_id = do
    permission ← permission_of permission_id
    commit permissions_hold integrity (delete_permission permission) tt

  abbrev pub row_of : TablePermission → (Uuid → Uuid) → ColumnPermissionItem → ColumnPermission
  row_of permission uuid4_of item = record {
    id = uuid4_of item.column_id;
    tenant_id = tenant_id;
    table_id = permission.table_id;
    table_permission_id = permission.id;
    column_id = item.column_id;
    can_read = item.can_read;
    can_filter = item.can_filter;
    can_aggregate = item.can_aggregate;
    mask_type = item.mask_type;
  }

  -- `if permission.row_filter:` the stored filter is validated against the new rows
  abbrev pub recheck_filter : Json → List DatabaseColumn → List ColumnPermission → Result Json
  recheck_filter stored metadata rows =
      if is_falsy stored then ok stored else elim (model_validate parse_uuid stored) [
        | none ↦ err unexpected
        | some filter ↦ validate_row_filter casefold show_uuid (some filter) metadata rows
      ]

  unfoldable pub replace_column_permissions :
      Uuid
      → (Uuid → Uuid)
      → List ColumnPermissionItem
      → Exec Catalog (List ColumnPermissionResponse)
  replace_column_permissions permission_id uuid4_of items = do
    permission ← permission_of permission_id
    metadata ← gets (table_columns tenant_id permission.table_id)
    raise_if (any (is_foreign metadata) items) resource_not_found
    raise_if (any (shows_sensitive metadata) items) invalid_permission
    let rows = map (row_of permission uuid4_of) items
    checked ← lift (recheck_filter permission.row_filter metadata rows)
    commit permissions_hold conflict (replace_columns permission rows) (map column_response rows)

  unfoldable pub column_permissions_of : Uuid → Exec Catalog (List ColumnPermissionResponse)
  column_permissions_of permission_id = do
    permission ← permission_of permission_id
    rows ← gets (columns tenant_id permission.id)
    pure (map column_response rows)
