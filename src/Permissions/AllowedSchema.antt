-- ===== src/Permissions/AllowedSchema.antt =====
-- services/database/allowed_schema.py and the responses of schemas/permissions.py: the part of a
-- resolved schema that a user is shown.
use tenant_intelligence_plat.Base.{
  ◌≡◌, refl, ap, String, Bool, true, false, ◌&&◌, Option, none, some, inl, inr, List, [], ◌∷◌, map,
  str_eq, if◌then◌else◌, any, is_empty, select, join, Has, Has-join, Has-map, Has-select,
  any-witness, Bool-cases, arith, ◌⊎◌, eq_iff,
}
use tenant_intelligence_plat.Identity.Models.{Uuid}
use tenant_intelligence_plat.Permissions.Models.{MaskType, DatabaseColumn}
use tenant_intelligence_plat.Permissions.Resolver.{EffectiveColumn, EffectiveTable, EffectiveSchema}

pub record AllowedColumnResponse : Type 0 where
  pub id : Uuid
  pub name : String
  pub data_type : String
  pub readable : Bool
  pub filterable : Bool
  pub aggregatable : Bool
  pub mask_type : Option MaskType
  pub is_primary_key : Bool
  pub is_foreign_key : Bool
  pub referenced_schema : Option String
  pub referenced_table : Option String
  pub referenced_column : Option String

pub record AllowedTableResponse : Type 0 where
  pub id : Uuid
  pub schema_name : String
  pub table_name : String
  pub table_type : String
  pub columns : List AllowedColumnResponse

pub record AllowedSchemaResponse : Type 0 where
  pub connection_id : Uuid
  pub tables : List AllowedTableResponse

abbrev pub names : Option String → String → Bool
names none s = false
names (some r) s = str_eq r s

abbrev pub readable_columns : EffectiveTable → List EffectiveColumn
readable_columns table = select (λ (c : EffectiveColumn). c.readable) table.columns

-- `reference in visible_columns`
unfoldable pub reference_visible : EffectiveSchema → DatabaseColumn → Bool
reference_visible schema column =
    any
      (λ (t : EffectiveTable).
        names column.referenced_schema t.schema.schema_name
        && (names column.referenced_table t.metadata.table_name
            && any (λ (c : EffectiveColumn). names column.referenced_column c.metadata.column_name)
                (readable_columns t)))
      schema.tables

abbrev pub shown_if : Bool → Option String → Option String
shown_if true o = o
shown_if false o = none

abbrev pub column_shown : EffectiveSchema → EffectiveColumn → AllowedColumnResponse
column_shown schema column =
    let visible = reference_visible schema column.metadata in
    record {
      id = column.metadata.id;
      name = column.metadata.column_name;
      data_type = column.metadata.data_type;
      readable = true;
      filterable = column.filterable;
      aggregatable = column.aggregatable;
      mask_type = column.mask_type;
      is_primary_key = column.metadata.is_primary_key;
      is_foreign_key = column.metadata.is_foreign_key && visible;
      referenced_schema = shown_if visible column.metadata.referenced_schema;
      referenced_table = shown_if visible column.metadata.referenced_table;
      referenced_column = shown_if visible column.metadata.referenced_column;
    }

-- A table with no readable column is left out; each table of the schema is in `visible_tables`.
abbrev pub table_shown : EffectiveSchema → EffectiveTable → List AllowedTableResponse
table_shown schema table =
    if is_empty (readable_columns table)
    then []
    else record {
      id = table.metadata.id;
      schema_name = table.schema.schema_name;
      table_name = table.metadata.table_name;
      table_type = table.metadata.table_type;
      columns = map (column_shown schema) (readable_columns table);
    }
      ∷ []

unfoldable pub allowed_schema_response : EffectiveSchema → AllowedSchemaResponse
allowed_schema_response schema = record {
  connection_id = schema.connection_id;
  tables = join schema.tables (table_shown schema);
}

-- Nothing of a reference is shown.
pub record Hidden (c : AllowedColumnResponse) : Type 0 where
  pub no_schema : c.referenced_schema ≡ none
  pub no_table : c.referenced_table ≡ none
  pub no_column : c.referenced_column ≡ none
  pub no_key : c.is_foreign_key ≡ false

-- A reference is shown to a readable column of the schema, under its table's names.
pub record Refers (schema : EffectiveSchema) (c : AllowedColumnResponse) : Type 0 where
  pub target_table : EffectiveTable
  pub target : EffectiveColumn
  pub table_listed : Has target_table schema.tables
  pub column_listed : Has target target_table.columns
  pub target_readable : target.readable ≡ true
  pub shown_schema : c.referenced_schema ≡ some target_table.schema.schema_name
  pub shown_table : c.referenced_table ≡ some target_table.metadata.table_name
  pub shown_column : c.referenced_column ≡ some target.metadata.column_name

-- A column of the response stands for a readable column, and a reference that it shows is to a
-- readable column of the schema.
pub record Shown (schema : EffectiveSchema) (table : AllowedTableResponse)
    (c : AllowedColumnResponse) : Type 0 where
  pub origin_table : EffectiveTable
  pub origin : EffectiveColumn
  pub in_schema : Has origin_table schema.tables
  pub in_table : Has origin origin_table.columns
  pub is_readable : origin.readable ≡ true
  pub same_table : table.id ≡ origin_table.metadata.id
  pub same_column : c.id ≡ origin.metadata.id
  pub same_name : c.name ≡ origin.metadata.column_name
  pub same_mask : c.mask_type ≡ origin.mask_type
  pub reference : Hidden c ⊎ Refers schema c

names-eq : (o : Option String) (s : String) → names o s ≡ true → o ≡ some s
names-eq none s h = absurd (ground arith)
names-eq (some r) s h = ap some ((eq_iff r s).0 h)

reference-shown :
    (schema : EffectiveSchema) (column : EffectiveColumn) (visible : Bool)
    → reference_visible schema column.metadata ≡ visible
    → Hidden (column_shown schema column) ⊎ Refers schema (column_shown schema column)
unfolding reference_visible
reference-shown schema column false e = inl (record {
  no_schema = rw e refl;
  no_table = rw e refl;
  no_column = rw e refl;
  no_key = ground (arith, e);
})
reference-shown schema column true e =
    let m = column.metadata in
    let (t, ht, k) = any-witness _ schema.tables e in
    let (d, hd, q) =
      any-witness (λ (c : EffectiveColumn). names m.referenced_column c.metadata.column_name)
        (readable_columns t) (ground (arith, k)) in
    let (listed, readable) = Has-select (λ (c : EffectiveColumn). c.readable) d t.columns hd in
    inr (record {
      target_table = t;
      target = d;
      table_listed = ht;
      column_listed = listed;
      target_readable = readable;
      shown_schema = rw e (names-eq m.referenced_schema t.schema.schema_name (ground (arith, k)));
      shown_table = rw e (names-eq m.referenced_table t.metadata.table_name (ground (arith, k)));
      shown_column = rw e (names-eq m.referenced_column d.metadata.column_name q);
    })

-- Each column that the response shows is a readable column of the schema, under its name and mask,
-- and either nothing of its reference is shown, or the reference names a readable column of the
-- schema with its table and schema.
pub allowed_schema_response-Shown :
    (schema : EffectiveSchema) (table : AllowedTableResponse) (c : AllowedColumnResponse)
    → Has table (allowed_schema_response schema).tables
    → Has c table.columns
    → Shown schema table c
unfolding allowed_schema_response
allowed_schema_response-Shown schema table c ht hc =
    let (origin_table, in_schema, k) = Has-join (table_shown schema) table schema.tables ht in
    elim (Bool-cases (is_empty (readable_columns origin_table))) [
      | inl hidden ↦ elim (rw hidden at k) [ ]
      | inr shown ↦ from origin_table in_schema (rw shown at k)
    ]
  where
    shown_table : EffectiveTable → AllowedTableResponse
    shown_table t = record {
      id = t.metadata.id;
      schema_name = t.schema.schema_name;
      table_name = t.metadata.table_name;
      table_type = t.metadata.table_type;
      columns = map (column_shown schema) (readable_columns t);
    }

    from :
        (t : EffectiveTable)
        → Has t schema.tables
        → Has table (shown_table t ∷ [])
        → Shown schema table c
    from t m (inr never) = elim never [ ]
    from t m (inl e) =
        let (origin, ho, q) =
          Has-map (column_shown schema) c (readable_columns t)
            (rw (ap (λ (x : AllowedTableResponse). x.columns) e) at hc) in
        let (in_table, readable) =
          Has-select (λ (c : EffectiveColumn). c.readable) origin t.columns ho in
        record {
          origin_table = t;
          origin = origin;
          in_schema = m;
          in_table = in_table;
          is_readable = readable;
          same_table = ap (λ (x : AllowedTableResponse). x.id) e;
          same_column = ap (λ (x : AllowedColumnResponse). x.id) q;
          same_mask = ap (λ (x : AllowedColumnResponse). x.mask_type) q;
          same_name = ap (λ (x : AllowedColumnResponse). x.name) q;
          reference =
              rw q (reference-shown schema origin (reference_visible schema origin.metadata) refl);
        }
