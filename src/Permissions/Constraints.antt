-- ===== src/Permissions/Constraints.antt =====
-- models/permission.py, `__table_args__`: the constraints of the permission tables, which a commit
-- enforces.
use tenant_intelligence_plat.Base.{
  Bool, true, false, not, ◌&&◌, ◌||◌, Option, none, some, ◌==◌, is_id, any, all, unique_by,
}
use tenant_intelligence_plat.Identity.Models.{Uuid}
use tenant_intelligence_plat.Permissions.Models.{
  DatabaseColumn, TablePermission, ColumnPermission, Catalog,
}

abbrev pub is_some : Option Uuid → Bool
is_some none = false
is_some (some id) = true

abbrev pub same_permission_id : TablePermission → TablePermission → Bool
same_permission_id a b = a.id == b.id

-- `uq_table_permissions_user_table` and `uq_table_permissions_role_table`: a NULL equals nothing
abbrev pub same_user_table : TablePermission → TablePermission → Bool
same_user_table a b = elim a.user_id [
  | none ↦ false
  | some u ↦ is_id b.user_id u && a.table_id == b.table_id
]

abbrev pub same_role_table : TablePermission → TablePermission → Bool
same_role_table a b = elim a.role_id [
  | none ↦ false
  | some r ↦ is_id b.role_id r && a.table_id == b.table_id
]

abbrev pub subject_exactly_one : TablePermission → Bool
subject_exactly_one p =
    (is_some p.role_id && not (is_some p.user_id)) || (not (is_some p.role_id) && is_some p.user_id)

abbrev pub chat_read_only : TablePermission → Bool
chat_read_only p = not p.can_insert && (not p.can_update && not p.can_delete)

abbrev pub subject_refers : Catalog → TablePermission → Bool
subject_refers db p =
    elim p.role_id [
      | none ↦ true
      | some r ↦ any (λ x. x.id == r && x.tenant_id == p.tenant_id) db.identity.roles
    ]
    && elim p.user_id [
      | none ↦ true
      | some u ↦ any (λ x. x.id == u && x.tenant_id == p.tenant_id) db.identity.users
    ]

abbrev pub table_refers : Catalog → TablePermission → Bool
table_refers db p =
    any (λ x. x.id == p.tenant_id) db.identity.tenants
    && (any (λ x. x.id == p.connection_id && x.tenant_id == p.tenant_id) db.connections
        && any
            (λ x.
              x.id == p.table_id
              && (x.connection_id == p.connection_id && x.tenant_id == p.tenant_id))
            db.tables)

unfoldable pub table_permissions_hold : Catalog → Bool
table_permissions_hold db =
    unique_by same_permission_id db.table_permissions
    && (unique_by same_user_table db.table_permissions
        && (unique_by same_role_table db.table_permissions
            && (all subject_exactly_one db.table_permissions
                && (all chat_read_only db.table_permissions
                    && (all (subject_refers db) db.table_permissions
                        && all (table_refers db) db.table_permissions)))))

abbrev pub same_column_permission_id : ColumnPermission → ColumnPermission → Bool
same_column_permission_id a b = a.id == b.id

abbrev pub same_permission_column : ColumnPermission → ColumnPermission → Bool
same_permission_column a b =
    a.table_permission_id == b.table_permission_id && a.column_id == b.column_id

abbrev pub column_refers : Catalog → ColumnPermission → Bool
column_refers db c =
    any
      (λ p.
        p.id == c.table_permission_id && (p.table_id == c.table_id && p.tenant_id == c.tenant_id))
      db.table_permissions
    && any (λ x. x.id == c.column_id && (x.table_id == c.table_id && x.tenant_id == c.tenant_id))
        db.columns

unfoldable pub column_permissions_hold : Catalog → Bool
column_permissions_hold db =
    unique_by same_column_permission_id db.column_permissions
    && (unique_by same_permission_column db.column_permissions
        && all (column_refers db) db.column_permissions)

abbrev pub same_column_id : DatabaseColumn → DatabaseColumn → Bool
same_column_id a b = a.id == b.id

-- the constraints of both tables, and the primary key of the columns that they refer to
unfoldable pub permissions_hold : Catalog → Bool
permissions_hold db =
    unique_by same_column_id db.columns && (table_permissions_hold db && column_permissions_hold db)
