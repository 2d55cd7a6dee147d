-- ===== src/Queries/Validator/Capabilities.antt =====
-- services/database/query_validator.py: the tables and columns that an accepted statement uses.
use tenant_intelligence_plat.Base.{
  ℕ, ◌≡◌, ◌⊎◌, refl, sym, ap, ◌∙◌, String, Bool, true, false, not, ◌&&◌, Option, none, some, inl,
  inr, List, [], ◌∷◌, map, str_eq, is_empty, select, scalar-Has, scalar-holds, Has, Never,
  Has-append, Has-append_right, Has-join, Has-map, Has-select, some_injective, arith, Bool-cases,
  Option-cases, eq_iff, ◌||◌,
}
use tenant_intelligence_plat.Permissions.Resolver.{EffectiveColumn, EffectiveTable, EffectiveSchema}
use tenant_intelligence_plat.Queries.SqlGlot.{
  NodeClass, SqlGlot, Sources, Scopes, scope, no_sources, table_source, scope_source,
}
use tenant_intelligence_plat.Queries.Lineage.{one_table, table_matches}
use tenant_intelligence_plat.Queries.Lineage.Bases.{table_matches-Has, one_table-Has}
use tenant_intelligence_plat.Queries.Validator.{
  QuerySettings, target, found_column, sole_candidate, exact_column, is_system_schema, source_table,
  source_error, source_errors, aliased, scope_aliases, alias_of, candidates, column_target,
  scope_ancestor, filter_classes, target_errors, validate_scope, statement_parts, statement_errors,
  error_if, column_not_filterable, column_not_aggregatable, is_any, is_one_of,
}
use tenant_intelligence_plat.Queries.Validator.Statement.{
  append-empty, join-empty, parts-empty, error_if-empty, accepted-errors, accepts, errors_of,
}

-- A table is the source of an alias of a scope.
abbrev pub HasTable : {E : Type 0} → String → E → Sources E → Type 0
HasTable alias t no_sources = Never
HasTable alias t (table_source a u rest) = ((alias ≡ a) × (t ≡ u)) ⊎ HasTable alias t rest
HasTable alias t (scope_source a s rest) = HasTable alias t rest

Has-filled : {A : Type 0} (a : A) (xs : List A) → Has a xs → is_empty xs ≡ false
Has-filled a [] h = elim h [ ]
Has-filled a (x ∷ xs) h = refl

module _ {E : Type 0} (G : SqlGlot E) (casefold upper : String → String)
    (starts_with : String → String → Bool) (numbered : String → ℕ → String)
    (settings : QuerySettings) (allowed : EffectiveSchema) where
  abbrev pub aliases_of : Sources E → List (String × EffectiveTable)
  aliases_of = scope_aliases G casefold upper starts_with numbered settings allowed

  abbrev ancestor_of : List NodeClass → E → E → Bool
  ancestor_of kinds boundary column =
      scope_ancestor G casefold upper starts_with numbered settings allowed kinds boundary
        (G.ancestors column)

  -- A table has the name that a node writes, and the schema if it writes one.
  pub record Names (source : E) (t : EffectiveTable) : Type 0 where
    pub same_table : t.metadata.table_name ≡ G.name source
    pub same_schema : (G.db source ≡ "") ⊎ (t.schema.schema_name ≡ G.db source)

  -- An allowed table that a source of a scope stands for, outside the system schemas.
  pub record SafeTable (alias : String) (source : E) (given : Sources E) (t : EffectiveTable)
      : Type 0 where
    pub not_catalog : str_eq (casefold (G.db source)) "pg_catalog" ≡ false
    pub not_information : str_eq (casefold (G.db source)) "information_schema" ≡ false
    pub not_toast : str_eq (casefold (G.db source)) "pg_toast" ≡ false
    pub not_system : starts_with (casefold (G.db source)) "pg_" ≡ false
    pub names : Names source t
    pub only_match : one_table (table_matches G casefold numbered allowed source) ≡ some t
    pub is_allowed : Has t allowed.tables
    pub is_alias : Has (alias, t) (aliases_of given)

  -- A node among the ancestors of another, up to the boundary.
  abbrev pub Within : E → E → List E → Type 0
  Within boundary a [] = Never
  Within boundary a (x ∷ xs) = (a ≡ x) ⊎ ((G.is_node x boundary ≡ false) × Within boundary a xs)

  -- the clauses whose columns are filters
  abbrev pub Filters : E → Type 0
  Filters a =
      (G.isinstance a NodeClass.where_clause ≡ true)
      ⊎ ((G.isinstance a NodeClass.join ≡ true) ⊎ (G.isinstance a NodeClass.having ≡ true))

  -- The table of a source of the scope, which has the alias that the column writes, if it writes one.
  pub record Serves (given : Sources E) (column : E) (t : EffectiveTable) : Type 0 where
    pub alias : String
    pub source : E
    pub listed : HasTable alias source given
    pub names : Names source t
    pub is_allowed : Has t allowed.tables
    pub of_alias : (G.table_of column ≡ "") ⊎ (alias ≡ G.table_of column)

  -- A column of an allowed table that may be used where a column node stands in a scope.
  pub record Permitted (boundary : E) (given : Sources E) (column : E) (t : EffectiveTable)
      (c : EffectiveColumn) : Type 0 where
    pub serves : Serves given column t
    pub in_table : Has c t.columns
    pub named : c.metadata.column_name ≡ G.name column
    pub readable : c.readable ≡ true
    pub filterable :
        (a : E) → Within boundary a (G.ancestors column) → Filters a → c.filterable ≡ true
    pub aggregatable :
        (a : E)
        → Within boundary a (G.ancestors column)
        → G.isinstance a NodeClass.agg_func ≡ true
        → c.aggregatable ≡ true

  -- An ancestor of one of the kinds is found.
  Within-scope_ancestor :
      (kinds : List NodeClass) (boundary a : E) (xs : List E)
      → Within boundary a xs
      → is_any G casefold upper starts_with numbered settings allowed kinds a ≡ true
      → scope_ancestor G casefold upper starts_with numbered settings allowed kinds boundary xs
        ≡ true
  unfolding scope_ancestor
  Within-scope_ancestor kinds boundary a [] h k = elim h [ ]
  Within-scope_ancestor kinds boundary a (x ∷ xs) (inl e) k = rw (rw e at k) refl
  Within-scope_ancestor kinds boundary a (x ∷ xs) (inr (below, h)) k =
      let above = Within-scope_ancestor kinds boundary a xs h k in ground (arith, above, below)

  one_table-Names :
      (source : E) (t : EffectiveTable)
      → one_table (table_matches G casefold numbered allowed source) ≡ some t
      → Names source t
  unfolding table_matches
  one_table-Names source t h =
      let (m, e) =
        Has-select
          (λ (t : EffectiveTable).
            str_eq t.metadata.table_name (G.name source)
            && (str_eq (G.db source) "" || str_eq t.schema.schema_name (G.db source)))
          t _ (one_table-Has G casefold numbered allowed t _ h) in
      record {
        same_table = (eq_iff t.metadata.table_name (G.name source)).0 (ground (arith, e));
        same_schema = elim (Bool-cases (str_eq (G.db source) "")) [
          | inl empty ↦ inl ((eq_iff (G.db source) "").0 empty)
          | inr filled ↦
              inr ((eq_iff t.schema.schema_name (G.db source)).0 (ground (arith, e, filled)))
        ];
      }

  source_error-safe :
      (source : E)
      → source_error G casefold upper starts_with numbered settings allowed source ≡ []
      → (is_system_schema G casefold upper starts_with numbered settings allowed (G.db source)
          ≡ false)
        × ((t : EffectiveTable) × (one_table (table_matches G casefold numbered allowed source)
              ≡ some t))
  source_error-safe source h =
      elim (Bool-cases
        (is_system_schema G casefold upper starts_with numbered settings allowed (G.db source))) [
          | inl system ↦ absurd (cc (rw system at h))
          | inr own ↦
              elim (Option-cases (one_table (table_matches G casefold numbered allowed source))) [
                | inl nothing ↦ absurd (cc (rw (own, nothing) at h))
                | inr (t, e) ↦ (own, (t, e))
              ]
        ]

  sources-SafeTable :
      (alias : String) (source : E) (given : Sources E)
      → source_errors G casefold upper starts_with numbered settings allowed given ≡ []
      → HasTable alias source given
      → (t : EffectiveTable) × SafeTable alias source given t
  unfolding source_errors scope_aliases source_table is_one_of
  sources-SafeTable alias source no_sources h m = elim m [ ]
  sources-SafeTable alias source (table_source a u rest) h (inl (ea, eu)) =
      let (own, (t, e)) = source_error-safe u (append-empty _ _ h).0 in
      rw (ea, eu)
        (
          t,
          record {
            not_catalog = ground (arith, own);
            not_information = ground (arith, own);
            not_toast = ground (arith, own);
            not_system = ground (arith, own);
            names = one_table-Names u t e;
            only_match = e;
            is_allowed =
                table_matches-Has G casefold numbered allowed u t
                  (one_table-Has G casefold numbered allowed t _ e);
            is_alias = rw (own, e) (inl refl);
          },
        )
  sources-SafeTable alias source (table_source a u rest) h (inr m) =
      let (t, safe) = sources-SafeTable alias source rest (append-empty _ _ h).1 m in
      (
        t,
        record {
          not_catalog = safe.not_catalog;
          not_information = safe.not_information;
          not_toast = safe.not_toast;
          not_system = safe.not_system;
          names = safe.names;
          only_match = safe.only_match;
          is_allowed = safe.is_allowed;
          is_alias =
              Has-append_right (alias, t)
                (aliased G casefold upper starts_with numbered settings allowed a
                  (source_table G casefold upper starts_with numbered settings allowed u))
                (aliases_of rest) safe.is_alias;
        },
      )
  sources-SafeTable alias source (scope_source a s rest) h m =
      let (t, safe) = sources-SafeTable alias source rest h m in
      (
        t,
        record {
          not_catalog = safe.not_catalog;
          not_information = safe.not_information;
          not_toast = safe.not_toast;
          not_system = safe.not_system;
          names = safe.names;
          only_match = safe.only_match;
          is_allowed = safe.is_allowed;
          is_alias = safe.is_alias;
        },
      )

  scope-clean :
      (e : E) (given : Sources E) (columns : List E) (branches : Scopes E) (statement : E)
      → errors_of G casefold upper starts_with numbered settings allowed statement ≡ []
      → Has (scope e given columns branches) (G.traverse_scope statement)
      → (source_errors G casefold upper starts_with numbered settings allowed given ≡ [])
        × ((c : E)
            → Has c columns
            → target_errors G casefold upper starts_with numbered settings allowed e c (
                column_target G casefold upper starts_with numbered settings allowed
                  (aliases_of given)
                  c)
              ≡ [])
  unfolding statement_errors validate_scope
  scope-clean e given columns branches statement h m =
      let parts =
        parts-empty
          (statement_parts G casefold upper starts_with numbered settings allowed statement) h in
      let clean =
        join-empty
          (λ s. (validate_scope G casefold upper starts_with numbered settings allowed s).errors)
          (scope e given columns branches) (G.traverse_scope statement) parts.1.1.1.1.1.0 m in
      let (tables, of_columns) = append-empty _ _ clean in
      (tables, λ c k. join-empty _ c columns of_columns k)

  statement-clean :
      (sql : String) (statement : E)
      → (accepts G casefold upper starts_with numbered settings allowed sql).accepted ≡ true
      → (accepts G casefold upper starts_with numbered settings allowed sql).expression
        ≡ some statement
      → errors_of G casefold upper starts_with numbered settings allowed statement ≡ []
  statement-clean sql statement h carried =
      let (e, parsed, same, clean) =
        accepted-errors G casefold upper starts_with numbered settings allowed sql h in
      rw (some_injective (sym same ∙ carried)) at clean

  -- Each table that a scope of an accepted statement selects from stands for an allowed table, which
  -- has its name and, where it writes a schema, that schema; the schema that it writes is none of
  -- the system's.
  pub validate-SafeTable :
      (sql : String) (statement e source : E) (alias : String) (given : Sources E)
      (columns : List E) (branches : Scopes E)
      → (accepts G casefold upper starts_with numbered settings allowed sql).accepted ≡ true
      → (accepts G casefold upper starts_with numbered settings allowed sql).expression
        ≡ some statement
      → Has (scope e given columns branches) (G.traverse_scope statement)
      → HasTable alias source given
      → (t : EffectiveTable) × SafeTable alias source given t
  validate-SafeTable sql statement e source alias given columns branches h carried m t =
      sources-SafeTable alias source given
        (scope-clean e given columns branches statement (statement-clean sql statement h carried)
          m).0
        t

  -- A column node of a scope that means a base table: with the alias of one, or without an alias in
  -- a scope that has one.
  abbrev pub MeansBase : Sources E → E → Type 0
  MeansBase given column =
      (str_eq (G.name column) "" ≡ false)
      × (((str_eq (G.table_of column) "" ≡ false)
            × ((source : E) × HasTable (G.table_of column) source given))
          ⊎ ((str_eq (G.table_of column) "" ≡ true)
              × ((alias : String) × (source : E) × HasTable alias source given)))

  alias_of-found :
      (alias : String) (t : EffectiveTable) (aliases : List (String × EffectiveTable))
      → Has (alias, t) aliases
      → (u : EffectiveTable) × (alias_of G casefold upper starts_with numbered settings allowed
            alias aliases
          ≡ some u)
        × Has (alias, u) aliases
  alias_of-found alias t [] h = elim h [ ]
  alias_of-found alias t ((a, u) ∷ rest) h = elim (Bool-cases (str_eq a alias)) [
    | inl e ↦ (u, rw e refl, inl (ap (λ b. (b, u)) (sym ((eq_iff a alias).0 e))))
    | inr e ↦ elim h [
      | inl same ↦
          absurd
            (cc (sym e ∙ (eq_iff a alias).1 (sym (ap (λ (x : String × EffectiveTable). x.0) same))))
      | inr m ↦ let (v, found, k) = alias_of-found alias t rest m in (v, rw e found, inr k)
    ]
  ]

  -- An alias stands for a source of the scope and the allowed table of its name.
  abbrev Sourced : String → EffectiveTable → Sources E → Type 0
  Sourced a t given = (source : E) × HasTable a source given × Names source t × Has t allowed.tables

  aliases-Sourced :
      (a : String) (t : EffectiveTable) (given : Sources E)
      → Has (a, t) (aliases_of given)
      → Sourced a t given
  unfolding scope_aliases source_table
  aliases-Sourced a t no_sources h = elim h [ ]
  aliases-Sourced a t (scope_source b s rest) h = aliases-Sourced a t rest h
  aliases-Sourced a t (table_source b u rest) h =
      elim (Has-append (a, t)
        (aliased G casefold upper starts_with numbered settings allowed b
          (source_table G casefold upper starts_with numbered settings allowed u))
        (aliases_of rest) h) [
          | inr m ↦
              let (source, listed, named, own) = aliases-Sourced a t rest m in
              (source, inr listed, named, own)
          | inl m ↦
              go (source_table G casefold upper starts_with numbered settings allowed u) refl m
        ]
    where
      go :
          (o : Option EffectiveTable)
          → source_table G casefold upper starts_with numbered settings allowed u ≡ o
          → Has (a, t) (aliased G casefold upper starts_with numbered settings allowed b o)
          → Sourced a t (table_source b u rest)
      go none e m = elim m [ ]
      go (some x) e (inr m) = elim m [ ]
      go (some x) e (inl m) =
          elim (Bool-cases
            (is_system_schema G casefold upper starts_with numbered settings allowed (G.db u))) [
              | inl system ↦ absurd (cc (rw system at e))
              | inr own ↦
                  let only = rw own at e in
                  let same : t ≡ x = ap (λ (y : String × EffectiveTable). y.1) m in
                  (
                    u,
                    inl (ap (λ (y : String × EffectiveTable). y.0) m, refl),
                    rw same (one_table-Names u x only),
                    rw same (
                        table_matches-Has G casefold numbered allowed u x
                          (one_table-Has G casefold numbered allowed x _ only)),
                  )
            ]

  Filters-is_any :
      (a : E)
      → Filters a
      → is_any G casefold upper starts_with numbered settings allowed filter_classes a ≡ true
  Filters-is_any a (inl e) = ground (arith, e)
  Filters-is_any a (inr (inl e)) = ground (arith, e)
  Filters-is_any a (inr (inr e)) = ground (arith, e)

  -- A target without errors may be used.
  target-Permitted :
      (boundary : E) (given : Sources E) (column : E) (t : EffectiveTable) (c : EffectiveColumn)
      → Serves given column t
      → Has c t.columns
      → str_eq c.metadata.column_name (G.name column) ≡ true
      → target_errors G casefold upper starts_with numbered settings allowed boundary column
          (target t c)
        ≡ []
      → Permitted boundary given column t c
  target-Permitted boundary given column t c serves hc named h = elim (Bool-cases c.readable) [
    | inr hidden ↦ absurd (cc (rw hidden at h))
    | inl readable ↦
        let (f, a) =
          append-empty
            (error_if (ancestor_of filter_classes boundary column && not c.filterable)
              column_not_filterable)
            (error_if (ancestor_of (NodeClass.agg_func ∷ []) boundary column && not c.aggregatable)
              column_not_aggregatable)
            (rw readable at h) in
        let ff =
          error_if-empty (ancestor_of filter_classes boundary column && not c.filterable)
            column_not_filterable f in
        let aa =
          error_if-empty
            (ancestor_of (NodeClass.agg_func ∷ []) boundary column && not c.aggregatable)
            column_not_aggregatable a in
        record {
          serves = serves;
          in_table = hc;
          named = (eq_iff c.metadata.column_name (G.name column)).0 named;
          readable = readable;
          filterable = λ a m filters.
              let e =
                Within-scope_ancestor filter_classes boundary a (G.ancestors column) m
                  (Filters-is_any a filters) in
              ground (arith, ff, e);
          aggregatable = λ a m agg.
              let e =
                Within-scope_ancestor (NodeClass.agg_func ∷ []) boundary a (G.ancestors column) m
                  (rw agg refl) in
              ground (arith, aa, e);
        }
  ]

  exact-Permitted :
      (boundary : E) (given : Sources E) (column : E) (t : EffectiveTable)
      → Serves given column t
      → target_errors G casefold upper starts_with numbered settings allowed boundary column
          (found_column t (exact_column (G.name column) t))
        ≡ []
      → (c : EffectiveColumn) × Permitted boundary given column t c
  exact-Permitted boundary given column t ht h =
      elim (Option-cases (exact_column (G.name column) t)) [
        | inl missing ↦ absurd (cc (rw missing at h))
        | inr (c, found) ↦ (
          c,
          target-Permitted boundary given column t c ht (scalar-Has test c t.columns found)
              (scalar-holds test t.columns c found) (rw found at h),
        )
      ]
    where
      test : EffectiveColumn → Bool
      test c = str_eq c.metadata.column_name (G.name column)

  sole-Permitted :
      (boundary : E) (given : Sources E) (column : E) (aliases : List (String × EffectiveTable))
      → ((a : String) (t : EffectiveTable) → Has (a, t) aliases → Serves given column t)
      → (pairs : List (EffectiveTable × EffectiveColumn))
      → candidates G casefold upper starts_with numbered settings allowed (G.name column) aliases
        ≡ pairs
      → target_errors G casefold upper starts_with numbered settings allowed boundary column
          (sole_candidate true pairs)
        ≡ []
      → (t : EffectiveTable) × (c : EffectiveColumn) × Permitted boundary given column t c
  sole-Permitted boundary given column aliases own [] e h = absurd (cc)
  sole-Permitted boundary given column aliases own (p ∷ q ∷ rest) e h = absurd (cc)
  sole-Permitted boundary given column aliases own ((t, c) ∷ []) e h =
      let pick : String × EffectiveTable → List (EffectiveTable × EffectiveColumn) =
        λ a. map (λ c. (a.1, c)) (select test a.1.columns) in
      let (a, ha, k) = Has-join pick (t, c) aliases (rw e (inl refl)) in
      let (d, hd, q) = Has-map (λ c. (a.1, c)) (t, c) (select test a.1.columns) k in
      let (in_table, named) = Has-select test d a.1.columns hd in
      let same_t : t ≡ a.1 = ap (λ (x : EffectiveTable × EffectiveColumn). x.0) q in
      let same_c : c ≡ d = ap (λ (x : EffectiveTable × EffectiveColumn). x.1) q in
      (
        t,
        c,
        target-Permitted boundary given column t c (rw same_t (own a.0 a.1 ha))
            (rw (same_t, same_c) in_table) (rw same_c named) h,
      )
    where
      test : EffectiveColumn → Bool
      test c = str_eq c.metadata.column_name (G.name column)

  -- In an accepted statement, a column node of a scope that means a base table is a readable column
  -- of that name of an allowed table, the table of a source of the scope, whose alias the node
  -- writes if it writes one. Under WHERE, a join or HAVING, within the scope, the column is
  -- filterable, and under an aggregate function it is aggregatable.
  pub validate-Permitted :
      (sql : String) (statement e column : E) (given : Sources E) (columns : List E)
      (branches : Scopes E)
      → (accepts G casefold upper starts_with numbered settings allowed sql).accepted ≡ true
      → (accepts G casefold upper starts_with numbered settings allowed sql).expression
        ≡ some statement
      → Has (scope e given columns branches) (G.traverse_scope statement)
      → Has column columns
      → MeansBase given column
      → (t : EffectiveTable) × (c : EffectiveColumn) × Permitted e given column t c
  unfolding column_target
  validate-Permitted sql statement e column given columns branches h carried m hc
        (named, inl (qualified, (source, listed))) =
      let (tables, clean) =
        scope-clean e given columns branches statement (statement-clean sql statement h carried)
          m in
      let fine = clean column hc in
      let (u, safe) = sources-SafeTable (G.table_of column) source given tables listed in
      let (t, found, ha) = alias_of-found (G.table_of column) u (aliases_of given) safe.is_alias in
      let (origin, at, names, own) = aliases-Sourced (G.table_of column) t given ha in
      let (c, permitted) =
        exact-Permitted e given column t
          (record {
            alias = G.table_of column;
            source = origin;
            listed = at;
            names = names;
            is_allowed = own;
            of_alias = inr refl;
          })
          (rw (named, qualified, found) at fine) in
      (t, c, permitted)
  validate-Permitted sql statement e column given columns branches h carried m hc
        (named, inr (unqualified, (alias, source, listed))) =
      let (tables, clean) =
        scope-clean e given columns branches statement (statement-clean sql statement h carried)
          m in
      let fine = clean column hc in
      let (u, safe) = sources-SafeTable alias source given tables listed in
      let some_base = Has-filled (alias, u) (aliases_of given) safe.is_alias in
      sole-Permitted e given column (aliases_of given)
        (λ a t ha.
          let (origin, at, names, own) = aliases-Sourced a t given ha in
          record {
            alias = a;
            source = origin;
            listed = at;
            names = names;
            is_allowed = own;
            of_alias = inl ((eq_iff (G.table_of column) "").0 unqualified);
          })
        _ refl (rw (named, unqualified, some_base) at fine)
