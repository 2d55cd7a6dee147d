-- ===== src/Permissions/Requests.antt =====
-- api/routes/permissions.py: the requests of tenant administrators that change permissions, with
-- the validators of their payloads. A payload that a validator refuses reaches no service.
use tenant_intelligence_plat.Base.{
  ◌≡◌, refl, String, Bool, true, false, ◌&&◌, Option, none, some, List, [], ◌∷◌, map, if◌then◌else◌,
  leb, length, any,
}
use tenant_intelligence_plat.Errors.{resource_not_found, conflict, invalid_permission, integrity}
use tenant_intelligence_plat.Exec.{Result, ok, err, Exec, ◌>>=◌, commit}
use tenant_intelligence_plat.Exec.Leaves.{leaves-raise_if, leaves-or_raise, leaves-commit}
use tenant_intelligence_plat.Identity.Models.{Uuid}
use tenant_intelligence_plat.Identity.Repository.{get_user, get_role}
use tenant_intelligence_plat.Permissions.Dsl.{Json, RowFilterDsl, validate_dsl}
use tenant_intelligence_plat.Permissions.Models.{TablePermission, Catalog}
use tenant_intelligence_plat.Permissions.Repository.{
  get_table, get_permission, columns, table_columns, replace_columns,
}
use tenant_intelligence_plat.Permissions.RowFilter.{validate_row_filter}
use tenant_intelligence_plat.Permissions.Constraints.{permissions_hold}
use tenant_intelligence_plat.Permissions.Service.{
  TablePermissionCreateRequest, exactly_one_subject, TablePermissionUpdateRequest,
  ColumnPermissionItem, unique_columns, permission_response, column_response, is_unknown, lift,
  insert_permission, set_permission, delete_permission, set_can_read, shows_sensitive, is_foreign,
  new_permission, create, set_row_filter, update, delete, row_of, recheck_filter,
  replace_column_permissions,
}

pub data PermissionRequest : Type 0 where
  create_request : Uuid → Uuid → TablePermissionCreateRequest → PermissionRequest
  update_request : Uuid → Uuid → TablePermissionUpdateRequest → PermissionRequest
  delete_request : Uuid → Uuid → PermissionRequest
  replace_request : Uuid → Uuid → (Uuid → Uuid) → List ColumnPermissionItem → PermissionRequest

abbrev pub valid_filter : Option RowFilterDsl → Bool
valid_filter none = true
valid_filter (some f) = validate_dsl f

abbrev pub valid_update_filter : Option (Option RowFilterDsl) → Bool
valid_update_filter none = true
valid_update_filter (some f) = valid_filter f

module _ (casefold : String → String) (show_uuid : Uuid → String)
    (parse_uuid : String → Option Uuid) where
  -- The store after a request; the first identifier is the tenant of the verified context.
  unfoldable pub serve_permission : PermissionRequest → Catalog → Catalog
  serve_permission (create_request tenant id payload) db =
      if exactly_one_subject payload && valid_filter payload.row_filter
      then (create casefold show_uuid parse_uuid tenant id payload db).1
      else db
  serve_permission (update_request tenant id payload) db =
      if valid_update_filter payload.row_filter
      then (update casefold show_uuid parse_uuid tenant id payload db).1
      else db
  serve_permission (delete_request tenant id) db =
      (delete casefold show_uuid parse_uuid tenant id db).1
  serve_permission (replace_request tenant id uuid4_of items) db =
      if leb (length items) 200 && unique_columns items
      then (replace_column_permissions casefold show_uuid parse_uuid tenant id uuid4_of items db).1
      else db

  unfoldable pub serve_permissions : List PermissionRequest → Catalog → Catalog
  serve_permissions [] db = db
  serve_permissions (r ∷ rs) db = serve_permissions rs (serve_permission r db)

  module _ (P : Catalog → Type 0) (tenant_id : Uuid) (db : Catalog) (here : P db) where
    leaves-lift :
        {A B : Type 0} (r : Result A) (k : A → Exec Catalog B)
        → ((a : A) → r ≡ ok a → P (k a db).1)
        → P ((lift r >>= k) db).1
    leaves-lift (ok a) k h = h a refl
    leaves-lift (err e) k h = here

    pub leaves-create :
        (new_id : Uuid) (payload : TablePermissionCreateRequest)
        → ((p : TablePermission)
            → permissions_hold (insert_permission p db) ≡ true
            → P (insert_permission p db))
        → P (create casefold show_uuid parse_uuid tenant_id new_id payload db).1
    unfolding create
    leaves-create new_id payload h =
        leaves-raise_if P db here
          (is_unknown payload.user_id (λ id. get_user tenant_id id db.identity)) resource_not_found
          _
          λ _.
            leaves-raise_if P db here
              (is_unknown payload.role_id (λ id. get_role tenant_id id db.identity))
              resource_not_found _
              λ _.
                leaves-or_raise P db here
                  (get_table tenant_id payload.connection_id payload.table_id db) resource_not_found
                  _
                  λ table found.
                    leaves-lift
                      (validate_row_filter casefold show_uuid payload.row_filter
                        (table_columns tenant_id table.id db) [])
                      _
                      λ filter valid.
                        let p =
                          new_permission casefold show_uuid parse_uuid tenant_id new_id payload
                            filter in
                        leaves-commit P db here permissions_hold conflict (insert_permission p)
                          (permission_response p) (h p)

    pub leaves-update :
        (id : Uuid) (payload : TablePermissionUpdateRequest)
        → ((p : TablePermission)
            → permissions_hold (set_permission p db) ≡ true
            → P (set_permission p db))
        → P (update casefold show_uuid parse_uuid tenant_id id payload db).1
    unfolding update
    leaves-update id payload h =
        leaves-or_raise P db here (get_permission tenant_id id db) resource_not_found _
          λ p found. filtered payload.row_filter (set_can_read payload.can_read p)
      where
        written :
            (p : TablePermission)
            → P (commit permissions_hold integrity (set_permission p) (permission_response p) db).1
        written p =
            leaves-commit P db here permissions_hold integrity (set_permission p)
              (permission_response p) (h p)

        filtered :
            (o : Option (Option RowFilterDsl)) (p : TablePermission)
            → P
                ((set_row_filter casefold show_uuid parse_uuid tenant_id o p >>= λ c.
                    commit permissions_hold integrity (set_permission c) (permission_response c))
                  db).1
        filtered none p = written p
        filtered (some f) p =
            checked f p
              (validate_row_filter casefold show_uuid f (table_columns tenant_id p.table_id db)
                (columns tenant_id p.id db))
              refl
          where
            checked :
                (f : Option RowFilterDsl) (p : TablePermission) (r : Result Json)
                → validate_row_filter casefold show_uuid f
                    (table_columns tenant_id p.table_id db)
                    (columns tenant_id p.id db)
                  ≡ r
                → P
                    ((set_row_filter casefold show_uuid parse_uuid tenant_id (some f) p >>= λ c.
                        commit permissions_hold integrity
                          (set_permission c)
                          (permission_response c))
                      db).1
            checked f p (ok v) e = rw e (written (record p { row_filter = v }))
            checked f p (err x) e = rw e here

    pub leaves-delete :
        (id : Uuid)
        → ((p : TablePermission)
            → permissions_hold (delete_permission p db) ≡ true
            → P (delete_permission p db))
        → P (delete casefold show_uuid parse_uuid tenant_id id db).1
    unfolding delete
    leaves-delete id h =
        leaves-or_raise P db here (get_permission tenant_id id db) resource_not_found _ λ p found.
          leaves-commit P db here permissions_hold integrity (delete_permission p) tt (h p)

    pub leaves-replace :
        (id : Uuid) (uuid4_of : Uuid → Uuid) (items : List ColumnPermissionItem)
        → ((p : TablePermission)
            → get_permission tenant_id id db ≡ some p
            → any (is_foreign (table_columns tenant_id p.table_id db)) items ≡ false
            → any (shows_sensitive (table_columns tenant_id p.table_id db)) items ≡ false
            → permissions_hold (
                replace_columns p
                  (map (row_of casefold show_uuid parse_uuid tenant_id p uuid4_of) items)
                  db)
              ≡ true
            → P (
                replace_columns p
                  (map (row_of casefold show_uuid parse_uuid tenant_id p uuid4_of) items)
                  db))
        → P
            (replace_column_permissions casefold show_uuid parse_uuid tenant_id id uuid4_of items
              db).1
    unfolding replace_column_permissions
    leaves-replace id uuid4_of items h =
        leaves-or_raise P db here (get_permission tenant_id id db) resource_not_found _ λ p found.
          let metadata = table_columns tenant_id p.table_id db in
          let rows = map (row_of casefold show_uuid parse_uuid tenant_id p uuid4_of) items in
          leaves-raise_if P db here (any (is_foreign metadata) items) resource_not_found _ λ own.
            leaves-raise_if P db here (any (shows_sensitive metadata) items) invalid_permission _
              λ hidden.
                leaves-lift
                  (recheck_filter casefold show_uuid parse_uuid tenant_id p.row_filter metadata
                    rows)
                  _
                  λ _ _.
                    leaves-commit P db here permissions_hold conflict (replace_columns p rows)
                      (map column_response rows) (h p found own hidden)
