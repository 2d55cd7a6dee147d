-- ===== src/Permissions/Masking.antt =====
-- services/permission_service.py: no sequence of requests stores a permission that shows a sensitive
-- column unmasked.
use tenant_intelligence_plat.Base.{
  ◌≡◌, ap, ◌∙◌, String, true, false, not, ◌&&◌, Option, some, inl, inr, List, [], ◌∷◌, map, leb,
  length, ◌==◌, any, arith, unique_by, unique_by-eq, Has, Has-append, Has-map, Has-select,
  Has-delete_where, any-Has, any-witness, scalar-Has, scalar-holds, scalar-none, Bool-cases,
  Option-cases,
}
use tenant_intelligence_plat.Identity.Models.{Uuid}
use tenant_intelligence_plat.Permissions.Models.{
  is_unmasked, DatabaseColumn, TablePermission, ColumnPermission, Catalog,
}
use tenant_intelligence_plat.Permissions.Repository.{table_columns, replace_columns}
use tenant_intelligence_plat.Permissions.RowFilter.{column_by_id}
use tenant_intelligence_plat.Permissions.Constraints.{same_column_id, permissions_hold}
use tenant_intelligence_plat.Permissions.Service.{
  exactly_one_subject, ColumnPermissionItem, unique_columns, shows_sensitive, is_foreign, row_of,
}
use tenant_intelligence_plat.Permissions.Requests.{
  PermissionRequest, create_request, update_request, delete_request, replace_request, valid_filter,
  valid_update_filter, serve_permission, serve_permissions, leaves-create, leaves-update,
  leaves-delete, leaves-replace,
}

-- Every stored row that reads a sensitive column has a mask.
abbrev pub IsMasked : Catalog → Type 0
IsMasked db =
    (r : ColumnPermission) (c : DatabaseColumn)
    → Has r db.column_permissions
    → Has c db.columns
    → c.id ≡ r.column_id
    → c.is_sensitive ≡ true
    → r.can_read ≡ true
    → is_unmasked r.mask_type ≡ false

-- An item for a column of the table finds that column.
column_by_id-found :
    (id : Uuid) (c : DatabaseColumn) (metadata all_columns : List DatabaseColumn)
    → unique_by same_column_id all_columns ≡ true
    → ((x : DatabaseColumn) → Has x metadata → Has x all_columns)
    → Has c all_columns
    → c.id ≡ id
    → any (λ (x : DatabaseColumn). x.id == id) metadata ≡ true
    → column_by_id id metadata ≡ some c
column_by_id-found id c metadata all_columns u within hc e own =
    elim (Option-cases (column_by_id id metadata)) [
      | inl missing ↦
          let (x, hx, q) = any-witness (λ (x : DatabaseColumn). x.id == id) metadata own in
          absurd (
            ground
              (arith, scalar-none (λ (x : DatabaseColumn). x.id == id) x metadata missing hx, q))
      | inr (x, found) ↦
          let hx = within x (scalar-Has (λ (x : DatabaseColumn). x.id == id) x metadata found) in
          let at = scalar-holds (λ (x : DatabaseColumn). x.id == id) metadata x found in
          found
          ∙ ap some (
              unique_by-eq same_column_id (λ a b q. ground (arith, q)) x c all_columns u hx hc
                (ground (arith, at, e)))
    ]

module _ (casefold : String → String) (show_uuid : Uuid → String)
    (parse_uuid : String → Option Uuid) where
  -- A new row of a request that the guards let pass is masked.
  row_of-masked :
      (tenant_id : Uuid) (p : TablePermission) (uuid4_of : Uuid → Uuid)
      (items : List ColumnPermissionItem) (db : Catalog) (item : ColumnPermissionItem)
      (c : DatabaseColumn)
      → unique_by same_column_id db.columns ≡ true
      → any (is_foreign (table_columns tenant_id p.table_id db)) items ≡ false
      → any (shows_sensitive (table_columns tenant_id p.table_id db)) items ≡ false
      → Has item items
      → Has c db.columns
      → c.id ≡ item.column_id
      → c.is_sensitive ≡ true
      → item.can_read ≡ true
      → is_unmasked item.mask_type ≡ false
  unfolding table_columns
  row_of-masked tenant_id p uuid4_of items db item c u own hidden hi hc e sensitive reads =
      elim (Bool-cases (shows_sensitive metadata item)) [
        | inl shown ↦
            absurd (ground (arith, any-Has (shows_sensitive metadata) item items hi shown))
        | inr safe ↦ ground (arith, rw (found, shows_sensitive) at safe)
      ]
    where
      metadata : List DatabaseColumn
      metadata = table_columns tenant_id p.table_id db

      present : any (λ (x : DatabaseColumn). x.id == item.column_id) metadata ≡ true
      present = elim (Bool-cases (any (λ (x : DatabaseColumn). x.id == item.column_id) metadata)) [
        | inl here ↦ here
        | inr away ↦
            absurd (ground (arith, any-Has (is_foreign metadata) item items hi (ap not away)))
      ]

      found : column_by_id item.column_id metadata ≡ some c
      found =
          column_by_id-found item.column_id c metadata db.columns u
            (λ x h. (Has-select _ x db.columns h).0) hc e present

  serve_permission-IsMasked :
      (r : PermissionRequest) (db : Catalog)
      → IsMasked db
      → IsMasked (serve_permission casefold show_uuid parse_uuid r db)
  unfolding serve_permission replace_columns permissions_hold
  serve_permission-IsMasked (create_request tenant id payload) db here =
      elim (Bool-cases (exactly_one_subject payload && valid_filter payload.row_filter)) [
        | inr refused ↦ rw refused here
        | inl valid ↦ rw valid (
            leaves-create casefold show_uuid parse_uuid IsMasked tenant db here id payload
              (λ p accepted. here))
      ]
  serve_permission-IsMasked (update_request tenant id payload) db here =
      elim (Bool-cases (valid_update_filter payload.row_filter)) [
        | inr refused ↦ rw refused here
        | inl valid ↦ rw valid (
            leaves-update casefold show_uuid parse_uuid IsMasked tenant db here id payload
              (λ p accepted. here))
      ]
  serve_permission-IsMasked (delete_request tenant id) db here =
      leaves-delete casefold show_uuid parse_uuid IsMasked tenant db here id
        (λ p accepted r c hr. here r c (Has-delete_where _ r db.column_permissions hr).0)
  serve_permission-IsMasked (replace_request tenant id uuid4_of items) db here =
      elim (Bool-cases (leb (length items) 200 && unique_columns items)) [
        | inr refused ↦ rw refused here
        | inl valid ↦ rw valid (
            leaves-replace casefold show_uuid parse_uuid IsMasked tenant db here id uuid4_of items
              (λ p found own hidden accepted r c hr hc e sensitive reads.
                replaced p own hidden accepted r c hr hc e sensitive reads))
      ]
    where
      replaced :
          (p : TablePermission)
          → any (is_foreign (table_columns tenant p.table_id db)) items ≡ false
          → any (shows_sensitive (table_columns tenant p.table_id db)) items ≡ false
          → permissions_hold (
              replace_columns p
                (map (row_of casefold show_uuid parse_uuid tenant p uuid4_of) items)
                db)
            ≡ true
          → IsMasked (
              replace_columns p
                (map (row_of casefold show_uuid parse_uuid tenant p uuid4_of) items)
                db)
      replaced p own hidden accepted r c hr hc e sensitive reads =
          elim (Has-append r _ (map (row_of casefold show_uuid parse_uuid tenant p uuid4_of) items)
            hr) [
              | inl old ↦
                  here r c (Has-delete_where _ r db.column_permissions old).0 hc e sensitive reads
              | inr new ↦
                  let (item, hi, q) =
                    Has-map (row_of casefold show_uuid parse_uuid tenant p uuid4_of) r items new in
                  rw q (
                    row_of-masked tenant p uuid4_of items db item c (ground arith) own hidden hi hc
                      (rw q at e) sensitive (rw q at reads))
            ]

  -- After any sequence of requests, every stored row that reads a sensitive column has a mask, if
  -- that held before.
  pub serve_permissions-IsMasked :
      (rs : List PermissionRequest) (db : Catalog)
      → IsMasked db
      → IsMasked (serve_permissions casefold show_uuid parse_uuid rs db)
  unfolding serve_permissions
  serve_permissions-IsMasked [] db here = here
  serve_permissions-IsMasked (r ∷ rs) db here =
      serve_permissions-IsMasked rs (serve_permission casefold show_uuid parse_uuid r db)
        (serve_permission-IsMasked r db here)
