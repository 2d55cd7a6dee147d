-- ===== src/Permissions/Resolver/Access.antt =====
-- services/database/permission_resolver.py: access is denied unless a permission grants it.
use tenant_intelligence_plat.Base.{
  ◌≡◌, refl, ap, Bool, true, false, ◌&&◌, ◌||◌, Option, none, some, inl, inr, List, [], ◌∷◌, map,
  arith, if◌then◌else◌, any, is_empty, is_id, select, join, Has, Has-map, Has-select, select-Has,
  Has-join, Has-sort_by, Bool-cases, scalar-Has, scalar-holds, ◌==◌, any-witness,
}
use tenant_intelligence_plat.Identity.Models.{Uuid}
use tenant_intelligence_plat.Permissions.Models.{
  DatabaseSchema, DatabaseTable, TablePermission, Catalog, DatabaseConnection,
}
use tenant_intelligence_plat.Permissions.Repository.{
  has_role, effective_permissions, columns, table_columns,
}
use tenant_intelligence_plat.Permissions.Resolver.{
  EffectiveColumn, EffectiveTable, merge_columns, merge_filters, selected, candidates_of, table_ids,
  table_row, effective_columns, effective_row, effective_table, is_connected, table_order, resolve,
}

abbrev pub is_of : Uuid → Uuid → Uuid → TablePermission → Bool
is_of tenant_id connection_id table_id p =
    p.tenant_id == tenant_id && (p.connection_id == connection_id && p.table_id == table_id)

module _ (tenant_id user_id : Uuid) (role_ids : List Uuid) (connection_id : Uuid)
    (db : Catalog) where
  -- A permission that counts for the user on a table.
  pub record Grants (table_id : Uuid) (p : TablePermission) : Type 0 where
    pub stored : Has p db.table_permissions
    pub scope : is_of tenant_id connection_id table_id p ≡ true
    pub reads : p.can_read ≡ true
    pub subject : (is_id p.user_id user_id || has_role role_ids p) ≡ true
    -- a permission of the user on the table, if there is one, excludes those of the roles
    pub direct_first :
        (q : TablePermission)
        → Has q db.table_permissions
        → is_of tenant_id connection_id table_id q ≡ true
        → is_id q.user_id user_id ≡ true
        → is_id p.user_id user_id ≡ true

  pub record Granted (t : EffectiveTable) : Type 0 where
    pub connection : DatabaseConnection
    pub connection_stored : Has connection db.connections
    pub connection_tenant : connection.tenant_id ≡ tenant_id
    pub connection_named : connection.id ≡ connection_id
    pub connection_active : connection.is_active ≡ true
    pub listed : Has t.metadata db.tables
    pub of_tenant : t.metadata.tenant_id ≡ tenant_id
    pub of_connection : t.metadata.connection_id ≡ connection_id
    pub enabled : t.metadata.is_enabled ≡ true
    pub chosen : List TablePermission
    pub some_chosen : is_empty chosen ≡ false
    pub all_grant : (p : TablePermission) → Has p chosen → Grants t.metadata.id p
    pub merged :
        t.columns
        ≡ merge_columns
            (table_columns tenant_id t.metadata.id db)
            chosen
            (λ p. columns tenant_id p.id db)
    pub filters : t.row_filters ≡ merge_filters chosen
    pub some_readable : any (λ (c : EffectiveColumn). c.readable) t.columns ≡ true

  abbrev candidates : Uuid → List TablePermission
  candidates table_id =
      candidates_of table_id (effective_permissions tenant_id connection_id user_id role_ids db)

  permitted : TablePermission → Bool
  permitted p =
      p.tenant_id == tenant_id
      && (p.connection_id == connection_id && (is_id p.user_id user_id || has_role role_ids p))

  Has-candidates :
      (table_id : Uuid) (p : TablePermission)
      → Has p (candidates table_id)
      → Has p db.table_permissions
        × (is_of tenant_id connection_id table_id p ≡ true)
        × ((is_id p.user_id user_id || has_role role_ids p) ≡ true)
  unfolding effective_permissions permitted
  Has-candidates table_id p h =
      let (k, at) = Has-select (λ (p : TablePermission). p.table_id == table_id) p _ h in
      let (m, e) = Has-select permitted p db.table_permissions k in
      (m, ground (arith, e, at), ground (arith, e))

  candidates-Has :
      (table_id : Uuid) (p : TablePermission)
      → Has p db.table_permissions
      → is_of tenant_id connection_id table_id p ≡ true
      → is_id p.user_id user_id ≡ true
      → Has p (candidates table_id)
  unfolding effective_permissions permitted
  candidates-Has table_id p h of direct =
      select-Has (λ (p : TablePermission). p.table_id == table_id) p _
        (select-Has permitted p db.table_permissions h (ground (arith, of, direct)))
        (ground (arith, of))

  empty-absurd : {A : Type 0} (a : A) (xs : List A) → is_empty xs ≡ true → Has a xs → ⊥
  empty-absurd a [] e h = elim h [ ]
  empty-absurd a (x ∷ xs) e h = cc

  selected-Grants :
      (table_id : Uuid) (p : TablePermission)
      → Has p (selected user_id role_ids (candidates table_id))
      → Grants table_id p
  unfolding selected
  selected-Grants table_id p h =
      let (m, reads) =
        Has-select (λ (p : TablePermission). p.can_read) p
          (if is_empty direct then select (has_role role_ids) (candidates table_id) else direct)
          h in
      elim (Bool-cases (is_empty direct)) [
        | inl none_direct ↦
            let (k, r) =
              Has-select (has_role role_ids) p (candidates table_id) (rw none_direct at m) in
            let (stored, of, subject) = Has-candidates table_id p k in
            record {
              stored = stored;
              scope = of;
              reads = reads;
              subject = subject;
              direct_first = λ q hq ofq dq. absurd (
                  empty-absurd q direct none_direct (
                    select-Has is_direct q (candidates table_id)
                      (candidates-Has table_id q hq ofq dq) dq));
            }
        | inr some_direct ↦
            let (k, d) = Has-select is_direct p (candidates table_id) (rw some_direct at m) in
            let (stored, of, subject) = Has-candidates table_id p k in
            record {
              stored = stored;
              scope = of;
              reads = reads;
              subject = subject;
              direct_first = λ q hq ofq dq. d;
            }
      ]
    where
      is_direct : TablePermission → Bool
      is_direct p = is_id p.user_id user_id

      direct : List TablePermission
      direct = select is_direct (candidates table_id)

  table_row_facts :
      (table_id : Uuid) (table : DatabaseTable) (schema : DatabaseSchema)
      → table_row tenant_id connection_id table_id db ≡ some (table, schema)
      → Has table db.tables
        × ((table.tenant_id == tenant_id
              && (table.connection_id == connection_id
                  && (table.id == table_id && table.is_enabled)))
            ≡ true)
  unfolding table_row
  table_row_facts table_id table schema h =
      let rows : DatabaseTable → List (DatabaseTable × DatabaseSchema) =
        λ t. map (λ s. (t, s)) (select (λ (s : DatabaseSchema). s.id == t.schema_id) db.schemas) in
      let holds = scalar-holds _ (join db.tables rows) (table, schema) h in
      let (t, ht, k) =
        Has-join rows (table, schema) db.tables
          (scalar-Has _ (table, schema) (join db.tables rows) h) in
      let (s, hs, e) =
        Has-map (λ s. (t, s)) (table, schema)
          (select (λ (s : DatabaseSchema). s.id == t.schema_id) db.schemas) k in
      (rw (ap (λ (x : DatabaseTable × DatabaseSchema). x.0) e) ht, ground (arith, holds))

  -- A connection row of the tenant that is active.
  abbrev Connected : Type 0
  Connected =
      (c : DatabaseConnection) × Has c db.connections
      × (c.tenant_id ≡ tenant_id)
      × (c.id ≡ connection_id)
      × (c.is_active ≡ true)

  is_connected-Connected :
      is_connected tenant_id user_id role_ids connection_id db ≡ true → Connected
  is_connected-Connected h =
      let (c, m, e) = any-witness _ db.connections h in
      (c, m, ground (arith, e), ground (arith, e), ground (arith, e))

  row-Granted :
      (t : EffectiveTable) (table_id : Uuid) (row : Option (DatabaseTable × DatabaseSchema))
      → is_connected tenant_id user_id role_ids connection_id db ≡ true
      → is_empty (selected user_id role_ids (candidates table_id)) ≡ false
      → table_row tenant_id connection_id table_id db ≡ row
      → Has t (
          effective_row tenant_id user_id role_ids connection_id db
            (selected user_id role_ids (candidates table_id))
            row)
      → Granted t
  row-Granted t table_id none connected filled e h = elim h [ ]
  row-Granted t table_id (some (table, schema)) connected filled e h =
      elim (Bool-cases (any (λ (c : EffectiveColumn). c.readable) merged)) [
        | inr hidden ↦ elim (rw hidden at h) [ ]
        | inl shown ↦ built shown (rw shown at h)
      ]
    where
      chosen : List TablePermission
      chosen = selected user_id role_ids (candidates table_id)

      merged : List EffectiveColumn
      merged = effective_columns tenant_id user_id role_ids connection_id db table chosen

      row : EffectiveTable
      row = record {
        metadata = table;
        schema = schema;
        columns = merged;
        row_filters = merge_filters chosen;
      }

      facts :
          Has table db.tables
          × ((table.tenant_id == tenant_id
                && (table.connection_id == connection_id
                    && (table.id == table_id && table.is_enabled)))
              ≡ true)
      facts = table_row_facts table_id table schema e

      same : table.id ≡ table_id
      same = ground (arith, facts.1)

      built : any (λ (c : EffectiveColumn). c.readable) merged ≡ true → Has t (row ∷ []) → Granted t
      built shown (inr k) = elim k [ ]
      built shown (inl k) =
          let (row_on, stored, of_tenant, named, active) = is_connected-Connected connected in
          rw k (record {
            connection = row_on;
            connection_stored = stored;
            connection_tenant = of_tenant;
            connection_named = named;
            connection_active = active;
            listed = facts.0;
            of_tenant = ground (arith, facts.1);
            of_connection = ground (arith, facts.1);
            enabled = ground (arith, facts.1);
            chosen = chosen;
            some_chosen = filled;
            all_grant = λ p m. rw same (selected-Grants table_id p m);
            merged = refl;
            filters = refl;
            some_readable = shown;
          })

  -- Every table of a resolved schema is an enabled table of the tenant's active connection, with
  -- some readable column, and the permissions merged into its columns and filters, at least one,
  -- are readable ones of the user or, only where the user has none of its own on the table, of
  -- the user's roles.
  pub resolve-Granted :
      (t : EffectiveTable)
      → Has t (resolve tenant_id user_id role_ids connection_id db).tables
      → Granted t
  unfolding resolve
  resolve-Granted t h =
      elim (Bool-cases (is_connected tenant_id user_id role_ids connection_id db)) [
        | inr off ↦ elim (rw off at h) [ ]
        | inl on ↦
            let ps = effective_permissions tenant_id connection_id user_id role_ids db in
            let (table_id, hid, k) =
              Has-join (effective_table tenant_id user_id role_ids connection_id db ps) t
                (table_ids ps)
                (Has-sort_by (table_order tenant_id user_id role_ids connection_id db) t _
                  (rw on at h)) in
            elim (Bool-cases (is_empty (selected user_id role_ids (candidates table_id)))) [
              | inl nothing ↦ elim (rw nothing at k) [ ]
              | inr filled ↦
                  row-Granted t table_id (table_row tenant_id connection_id table_id db) on filled
                    refl (rw filled at k)
            ]
      ]
