-- ===== src/Permissions/Resolver/Masks.antt =====
-- services/database/permission_resolver.py: the masks of the columns that a resolved schema shows,
-- over a store whose permissions are masked.
use tenant_intelligence_plat.Base.{
  ◌≡◌, sym, ap, ◌∙◌, true, false, List, [], ◌∷◌, arith, leb, any, Has, any-witness, is_empty,
  Has-select, Has-sort_by, inl, inr, Bool-cases,
}
use tenant_intelligence_plat.Identity.Models.{Uuid}
use tenant_intelligence_plat.Permissions.Dsl.{is_falsy}
use tenant_intelligence_plat.Permissions.Models.{
  is_unmasked, DatabaseColumn, TablePermission, ColumnPermission, Catalog,
}
use tenant_intelligence_plat.Permissions.Repository.{columns, table_columns}
use tenant_intelligence_plat.Permissions.Masking.{IsMasked}
use tenant_intelligence_plat.Permissions.Resolver.{
  EffectiveColumn, EffectiveTable, merge_filters, resolve,
}
use tenant_intelligence_plat.Permissions.Resolver.Merge.{
  Has-merge_columns, sensitive_row, unmasked_of_strength, strength_of_masked,
}
use tenant_intelligence_plat.Permissions.Resolver.Access.{Grants, resolve-Granted}

module _ (tenant_id user_id : Uuid) (role_ids : List Uuid) (connection_id : Uuid)
    (db : Catalog) where
  columns-Has :
      (p : TablePermission) (r : ColumnPermission)
      → Has r (columns tenant_id p.id db)
      → Has r db.column_permissions
  unfolding columns
  columns-Has p r h =
      (Has-select _ r db.column_permissions
        (Has-sort_by (λ (a b : ColumnPermission). leb a.column_id b.column_id) r _ h)).0

  table_columns-Has :
      (id : Uuid) (c : DatabaseColumn) → Has c (table_columns tenant_id id db) → Has c db.columns
  unfolding table_columns
  table_columns-Has id c h = (Has-select _ c db.columns h).0

  -- Every readable sensitive column of a resolved schema has a mask, if the stored permissions have
  -- one on each sensitive column that they read.
  pub resolve-masked :
      (t : EffectiveTable) (c : EffectiveColumn)
      → IsMasked db
      → Has t (resolve tenant_id user_id role_ids connection_id db).tables
      → Has c t.columns
      → c.readable ≡ true
      → c.metadata.is_sensitive ≡ true
      → is_unmasked c.mask_type ≡ false
  resolve-masked t c stored ht hc readable sensitive =
      let g = resolve-Granted tenant_id user_id role_ids connection_id db t ht in
      let metadata = table_columns tenant_id t.metadata.id db in
      let by : TablePermission → List ColumnPermission = λ p. columns tenant_id p.id db in
      let k = rw g.merged at hc in
      let (m, e) = Has-merge_columns metadata g.chosen by c k in
      let (p, r, hp, hr, same, reads, bound) =
        sensitive_row metadata g.chosen by c k readable sensitive in
      let masked =
        stored r c.metadata (columns-Has p r hr) (table_columns-Has t.metadata.id c.metadata m)
          (sym same) sensitive reads in
      unmasked_of_strength c.mask_type (omega (arith, strength_of_masked r.mask_type masked, bound))

  nothing_filtered :
      (chosen : List TablePermission)
      → is_empty chosen ≡ false
      → merge_filters chosen ≡ []
      → any (λ (p : TablePermission). is_falsy p.row_filter) chosen ≡ true
  unfolding merge_filters
  nothing_filtered [] filled e = absurd (cc)
  nothing_filtered (p ∷ ps) filled e =
      elim (Bool-cases (any (λ (p : TablePermission). is_falsy p.row_filter) (p ∷ ps))) [
        | inl lifted ↦ lifted
        | inr kept ↦ absurd (cc (sym (ap is_empty (rw kept at e))))
      ]

  -- A table of a resolved schema is without row filters only if one of the permissions that count
  -- for the user on it has none.
  pub resolve-unfiltered :
      (t : EffectiveTable)
      → Has t (resolve tenant_id user_id role_ids connection_id db).tables
      → t.row_filters ≡ []
      → (p : TablePermission) × Grants tenant_id user_id role_ids connection_id db t.metadata.id p
        × (is_falsy p.row_filter ≡ true)
  resolve-unfiltered t h e =
      let g = resolve-Granted tenant_id user_id role_ids connection_id db t h in
      let (p, hp, lifted) =
        any-witness (λ (p : TablePermission). is_falsy p.row_filter) g.chosen
          (nothing_filtered g.chosen g.some_chosen (sym g.filters ∙ e)) in
      (p, g.all_grant p hp, lifted)
