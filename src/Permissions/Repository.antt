-- ===== src/Permissions/Repository.antt =====
-- repositories/permissions.py: the statements on permissions and cached metadata. Identifiers are
-- unique, so a join by identifier is a condition on one row.
use tenant_intelligence_plat.Base.{
  ℕ, Bool, true, false, ◌&&◌, ◌||◌, Option, none, some, List, ◌++◌, ◌==◌, is_id, leb, any, length,
  take, drop, select, scalar, delete_where, sort_by,
}
use tenant_intelligence_plat.Identity.Models.{Uuid}
use tenant_intelligence_plat.Identity.Repository.{is_in}
use tenant_intelligence_plat.Permissions.Models.{
  DatabaseTable, DatabaseColumn, TablePermission, ColumnPermission, Catalog,
}

unfoldable pub get_table : Uuid → Uuid → Uuid → Catalog → Option DatabaseTable
get_table tenant_id connection_id table_id db =
    scalar
      (λ t.
        (t.tenant_id == tenant_id && (t.connection_id == connection_id && t.id == table_id))
        && any (λ c. c.id == t.connection_id && (c.tenant_id == tenant_id && c.is_active))
            db.connections)
      db.tables

unfoldable pub get_permission : Uuid → Uuid → Catalog → Option TablePermission
get_permission tenant_id permission_id db =
    scalar (λ p. p.tenant_id == tenant_id && p.id == permission_id) db.table_permissions

-- `if value is not None: filters.append(field == value)`
abbrev pub matches_filter : Option Uuid → Option Uuid → Bool
matches_filter field none = true
matches_filter none (some value) = false
matches_filter (some id) (some value) = id == value

-- a page and the number of all; `created_at` is not modelled, so rows stand in insertion order
unfoldable pub list_permissions :
    Uuid
    → ℕ
    → ℕ
    → Option Uuid
    → Option Uuid
    → Option Uuid
    → Option Uuid
    → Catalog
    → List TablePermission × ℕ
list_permissions tenant_id offset limit connection_id table_id user_id role_id db =
    let rows =
      select
        (λ (p : TablePermission).
          p.tenant_id == tenant_id
          && (matches_filter (some p.connection_id) connection_id
              && (matches_filter (some p.table_id) table_id
                  && (matches_filter p.user_id user_id && matches_filter p.role_id role_id))))
        db.table_permissions in
    (take limit (drop offset rows), length rows)

unfoldable pub columns : Uuid → Uuid → Catalog → List ColumnPermission
columns tenant_id table_permission_id db =
    sort_by (λ a b. leb a.column_id b.column_id)
      (select (λ p. p.tenant_id == tenant_id && p.table_permission_id == table_permission_id)
        db.column_permissions)

unfoldable pub table_columns : Uuid → Uuid → Catalog → List DatabaseColumn
table_columns tenant_id table_id db =
    select (λ c. c.tenant_id == tenant_id && c.table_id == table_id) db.columns

unfoldable pub replace_columns : TablePermission → List ColumnPermission → Catalog → Catalog
replace_columns permission rows db = record db {
  column_permissions =
      delete_where
        (λ p. p.tenant_id == permission.tenant_id && p.table_permission_id == permission.id)
        db.column_permissions
      ++ rows;
}

-- `TablePermission.role_id.in_(role_ids)`: a NULL is in no list
abbrev pub has_role : List Uuid → TablePermission → Bool
has_role role_ids p = elim p.role_id [ none ↦ false | some r ↦ is_in role_ids r ]

-- With no roles the second disjunct is false, as where the source leaves it out.
unfoldable pub effective_permissions :
    Uuid → Uuid → Uuid → List Uuid → Catalog → List TablePermission
effective_permissions tenant_id connection_id user_id role_ids db =
    select
      (λ p.
        p.tenant_id == tenant_id
        && (p.connection_id == connection_id && (is_id p.user_id user_id || has_role role_ids p)))
      db.table_permissions
