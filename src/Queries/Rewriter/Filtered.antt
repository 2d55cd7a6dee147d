-- ===== src/Queries/Rewriter/Filtered.antt =====
-- services/database/query_rewriter.py: no visited table with row filters is left unfiltered.
use tenant_intelligence_plat.Base.{
  ℕ, suc, ◌≡◌, ◌⊎◌, refl, sym, ap, ◌∙◌, String, true, false, Option, none, some, inl, inr, List, [],
  ◌∷◌, ◌++◌, is_empty, all, arith, Has, not, Bool-cases, some_injective,
}
use mathlib.Core.List.{append_assoc, append-nil}
use tenant_intelligence_plat.Exec.{Result, ok, err}
use tenant_intelligence_plat.Identity.Models.{Uuid}
use tenant_intelligence_plat.Permissions.Dsl.{
  Json, Fields, is_falsy, get, arr, null, bool, num, str, obj,
}
use tenant_intelligence_plat.Permissions.Resolver.{EffectiveTable, EffectiveSchema}
use tenant_intelligence_plat.Permissions.Compiler.{
  Comparison, ColumnReference, Condition, RuntimeFilterContext, Parameters, CompiledFilter,
  compile_row_filter, compiled_filter, as_object, or_null, compiled_list, compiled_json, is_one,
}
use tenant_intelligence_plat.Permissions.Compiler.Conditions.{Truth, tri_or, evaluate}
use tenant_intelligence_plat.Queries.SqlGlot.{SqlGlot}
use tenant_intelligence_plat.Queries.Lineage.{one_table, table_matches}
use tenant_intelligence_plat.Queries.Rewriter.{
  Replacement, kept, filtered, Rewriting, continue_with, column_map, either_of, with_filter,
  compile_filters, replace, transform_table, transform,
}

pub ok_injective : {A : Type 0} {a b : A} → ok a ≡ ok b → a ≡ b
ok_injective {a} {b} h = cc

pub continue_with-ok :
    {A B : Type 0} (m : Result A) (f : A → Result B) (b : B)
    → continue_with m f ≡ ok b
    → (a : A) × (m ≡ ok a) × (f a ≡ ok b)
continue_with-ok (ok a) f b h = (a, refl, h)
continue_with-ok (err e) f b h = absurd (cc)

tri_or-true : (p q : Truth) → tri_or p q ≡ some true → (p ≡ some true) ⊎ (q ≡ some true)
tri_or-true (some true) q h = inl refl
tri_or-true (some false) q h = inr h
tri_or-true none (some true) h = inr refl
tri_or-true none (some false) h = absurd (cc)
tri_or-true none none h = absurd (cc)

module _ (compare_values : Comparison → Json → Json → Truth) (value_at : ColumnReference → Json)
    (ps : Parameters) where
  abbrev Holds : Condition → Type 0
  Holds c = evaluate compare_values value_at ps c ≡ some true

  -- A row that a disjunction lets through satisfies one of its filters.
  either_of-Holds :
      (c : Condition) (fs : List CompiledFilter)
      → Holds (either_of c fs)
      → Holds c ⊎ ((f : CompiledFilter) × Has f fs × Holds f.expression)
  unfolding either_of evaluate
  either_of-Holds c [] h = inl h
  either_of-Holds c (f ∷ fs) h = elim (either_of-Holds _ fs h) [
    | inr (g, m, k) ↦ inr (g, inr m, k)
    | inl k ↦ elim (tri_or-true _ _ k) [ inl l ↦ inl l | inr r ↦ inr (f, inl refl, r) ]
  ]

module _ {E : Type 0} (G : SqlGlot E) (casefold : String → String) (numbered : String → ℕ → String)
    (marked : String → ℕ → String) (python_str : Json → String) (show_uuid : Uuid → String)
    (parse_uuid : String → Option Uuid) (allowed : EffectiveSchema)
    (ctx : RuntimeFilterContext) where
  abbrev compiled : EffectiveTable → ℕ → ℕ → Json → Result (Option CompiledFilter)
  compiled table counter index normalized =
      compile_row_filter numbered python_str show_uuid parse_uuid (column_map table.columns)
        (numbered "_authorized" counter) ctx (numbered (numbered "rf" counter) index) normalized

  compiled_filter-some :
      (table : EffectiveTable) (counter : ℕ) (o : Option (List CompiledFilter))
      → compiled_filter numbered python_str show_uuid parse_uuid
          (column_map table.columns)
          (numbered "_authorized" counter)
          ctx
          o
        ≡ ok none
      → ⊥
  compiled_filter-some table counter none h = cc
  compiled_filter-some table counter (some []) h = cc
  compiled_filter-some table counter (some (c ∷ cs)) h = cc

  list-compiled :
      (table : EffectiveTable) (counter : ℕ) (p : String) (clauses : Json)
      → compiled_list numbered python_str show_uuid parse_uuid
          (column_map table.columns)
          (numbered "_authorized" counter)
          ctx
          p
          clauses
        ≡ ok none
      → ⊥
  list-compiled table counter p (arr clauses) h = compiled_filter-some table counter _ h
  list-compiled table counter p null h = cc
  list-compiled table counter p (bool b) h = cc
  list-compiled table counter p (num n) h = cc
  list-compiled table counter p (str t) h = cc
  list-compiled table counter p (obj fs) h = cc

  json-compiled :
      (table : EffectiveTable) (counter : ℕ) (p : String) (o : Option Fields)
      → compiled_json numbered python_str show_uuid parse_uuid
          (column_map table.columns)
          (numbered "_authorized" counter)
          ctx
          p
          o
        ≡ ok none
      → ⊥
  json-compiled table counter p none h = cc
  json-compiled table counter p (some fs) h =
      elim (Bool-cases (is_one (or_null (get "version" fs)))) [
        | inl one ↦ list-compiled table counter p (or_null (get "all" fs)) (rw one at h)
        | inr other ↦ cc (rw other at h)
      ]

  -- A filter that is not empty is compiled to a predicate, or refused.
  truthy-compiled :
      (table : EffectiveTable) (counter index : ℕ) (normalized : Json)
      → is_falsy normalized ≡ false
      → compiled table counter index normalized ≡ ok none
      → ⊥
  unfolding compile_row_filter
  truthy-compiled table counter index normalized truthy h =
      json-compiled table counter (numbered (numbered "rf" counter) index) (as_object normalized)
        (rw truthy at h)

  -- where a compiled filter of a table comes from
  pub record CompiledFrom (table : EffectiveTable) (counter : ℕ) (filters : List Json)
      (f : CompiledFilter) : Type 0 where
    pub normalized : Json
    pub index : ℕ
    pub in_filters : Has normalized filters
    pub is_compiled : compiled table counter index normalized ≡ ok (some f)

  compile_filters-from :
      (table : EffectiveTable) (counter index : ℕ) (filters : List Json) (fs : List CompiledFilter)
      → compile_filters G casefold numbered marked python_str show_uuid parse_uuid allowed ctx table
          counter index filters
        ≡ ok fs
      → (f : CompiledFilter) → Has f fs
      → CompiledFrom table counter filters f
  unfolding compile_filters
  compile_filters-from table counter index [] fs h f m = elim (rw (sym (ok_injective h)) at m) [ ]
  compile_filters-from table counter index (x ∷ rest) fs h f m =
      let (o, p, k) = continue_with-ok (compiled table counter index x) _ fs h in
      let (gs, q, r) =
        continue_with-ok
          (compile_filters G casefold numbered marked python_str show_uuid parse_uuid allowed ctx
            table counter (suc index) rest)
          _ fs k in
      go o p gs q (rw (sym (ok_injective r)) at m)
        (λ n. compile_filters-from table counter (suc index) rest gs q f n)
    where
      later : CompiledFrom table counter rest f → CompiledFrom table counter (x ∷ rest) f
      later c = record {
        normalized = c.normalized;
        index = c.index;
        in_filters = inr c.in_filters;
        is_compiled = c.is_compiled;
      }

      go :
          (o : Option CompiledFilter)
          → compiled table counter index x ≡ ok o
          → (gs : List CompiledFilter)
          → compile_filters G casefold numbered marked python_str show_uuid parse_uuid allowed ctx
              table counter
              (suc index)
              rest
            ≡ ok gs
          → Has f (with_filter o gs)
          → (Has f gs → CompiledFrom table counter rest f)
          → CompiledFrom table counter (x ∷ rest) f
      go none p gs q n k = later (k n)
      go (some g) p gs q (inr n) k = later (k n)
      go (some g) p gs q (inl e) k = record {
        normalized = x;
        index = index;
        in_filters = inl refl;
        is_compiled = rw e p;
      }

  compile_filters-filled :
      (table : EffectiveTable) (counter index : ℕ) (x : Json) (rest : List Json)
      (fs : List CompiledFilter)
      → is_falsy x ≡ false
      → compile_filters G casefold numbered marked python_str show_uuid parse_uuid allowed ctx table
          counter index
          (x ∷ rest)
        ≡ ok fs
      → is_empty fs ≡ false
  unfolding compile_filters
  compile_filters-filled table counter index x rest fs truthy h =
      let (o, p, k) = continue_with-ok (compiled table counter index x) _ fs h in
      let (gs, q, r) =
        continue_with-ok
          (compile_filters G casefold numbered marked python_str show_uuid parse_uuid allowed ctx
            table counter (suc index) rest)
          _ fs k in
      rw (sym (ok_injective r)) (go o p gs)
    where
      go :
          (o : Option CompiledFilter)
          → compiled table counter index x ≡ ok o
          → (gs : List CompiledFilter) → is_empty (with_filter o gs) ≡ false
      go none p gs = absurd (truthy-compiled table counter index x truthy p)
      go (some g) p gs = refl

  -- What takes the place of a visited table with row filters: a selection from that table, under
  -- the alias of the node, each row of which satisfies one of the table's compiled filters.
  abbrev pub Guarded : E → Replacement → Type 0
  Guarded node r =
      (table : EffectiveTable)
      → one_table (table_matches G casefold numbered allowed node) ≡ some table
      → is_empty table.row_filters ≡ false
      → all (λ f. not (is_falsy f)) table.row_filters ≡ true
      → (counter : ℕ) × (predicate : Condition) × (r
          ≡ filtered (G.alias_or_name node) table.schema.schema_name table.metadata.table_name
              (numbered "_authorized" counter) predicate)
        × ((compare_values : Comparison → Json → Json → Truth) (value_at : ColumnReference → Json)
              (ps : Parameters)
            → evaluate compare_values value_at ps predicate ≡ some true
            → (f : CompiledFilter) × CompiledFrom table counter table.row_filters f
              × (evaluate compare_values value_at ps f.expression ≡ some true))

  -- each visited table with its replacement
  abbrev pub AllGuarded : List E → List Replacement → Type 0
  AllGuarded [] [] = Unit
  AllGuarded (n ∷ ns) (r ∷ rs) = Guarded n r × AllGuarded ns rs
  AllGuarded [] (r ∷ rs) = ⊥
  AllGuarded (n ∷ ns) [] = ⊥

  nothing-compiled :
      (table : EffectiveTable) (counter : ℕ) (filters : List Json)
      → compile_filters G casefold numbered marked python_str show_uuid parse_uuid allowed ctx table
          counter 0 filters
        ≡ ok []
      → is_empty filters ≡ false
      → all (λ f. not (is_falsy f)) filters ≡ true
      → ⊥
  nothing-compiled table counter [] h filled truthy = cc
  nothing-compiled table counter (x ∷ rest) h filled truthy =
      cc (compile_filters-filled table counter 0 x rest [] (ground arith) h)

  replaced-Guarded :
      (node : E) (r s : Rewriting) (table : EffectiveTable) (fs : List CompiledFilter)
      → one_table (table_matches G casefold numbered allowed node) ≡ some table
      → compile_filters G casefold numbered marked python_str show_uuid parse_uuid allowed ctx table
          r.counter 0 table.row_filters
        ≡ ok fs
      → replace G casefold numbered marked python_str show_uuid parse_uuid allowed ctx node table r
          fs
        ≡ s
      → (p : Replacement) × (s.replacements ≡ r.replacements ++ (p ∷ [])) × Guarded node p
  replaced-Guarded node r s table [] e p q = (
    kept,
    ap (λ (x : Rewriting). x.replacements) (sym q),
    λ other found filled truthy.
        let same : other ≡ table = some_injective (sym found ∙ e) in
        absurd (
          nothing-compiled table r.counter table.row_filters p (rw same at filled)
            (rw same at truthy)),
  )
  replaced-Guarded node r s table (f ∷ fs) e p q = (
    filtered (G.alias_or_name node) table.schema.schema_name table.metadata.table_name
        (numbered "_authorized" r.counter) (either_of f.expression fs),
    ap (λ (x : Rewriting). x.replacements) (sym q),
    λ other found filled truthy.
        let same : other ≡ table = some_injective (sym found ∙ e) in
        rw same (
          r.counter,
          either_of f.expression fs,
          refl,
          λ compare_values value_at ps h.
              elim (either_of-Holds compare_values value_at ps f.expression fs h) [
                | inl k ↦ (
                  f,
                  compile_filters-from table r.counter 0 table.row_filters (f ∷ fs) p f (inl refl),
                  k,
                )
                | inr (g, m, k) ↦ (
                  g,
                  compile_filters-from table r.counter 0 table.row_filters (f ∷ fs) p g (inr m),
                  k,
                )
              ],
        ),
  )

  table-Guarded :
      (node : E) (r s : Rewriting) (o : Option EffectiveTable)
      → one_table (table_matches G casefold numbered allowed node) ≡ o
      → transform_table G casefold numbered marked python_str show_uuid parse_uuid allowed ctx node
          o r
        ≡ ok s
      → (p : Replacement) × (s.replacements ≡ r.replacements ++ (p ∷ [])) × Guarded node p
  table-Guarded node r s none e k = (
    kept,
    ap (λ (x : Rewriting). x.replacements) (sym (ok_injective k)),
    λ table found filled truthy. absurd (cc (sym e ∙ found)),
  )
  table-Guarded node r s (some table) e k =
      let (fs, p, q) =
        continue_with-ok
          (compile_filters G casefold numbered marked python_str show_uuid parse_uuid allowed ctx
            table r.counter 0 table.row_filters)
          _ s k in
      replaced-Guarded node r s table fs e p (ok_injective q)

  -- If the transformation of a tree succeeds, it adds one replacement for each table that it
  -- visits, and where the table is the only match of an allowed table with row filters, none of
  -- them empty, that replacement selects from the allowed table under the node's alias, and each row
  -- that its predicate holds of satisfies one of the compiled row filters of that table.
  pub transform-AllGuarded :
      (nodes : List E) (r s : Rewriting)
      → transform G casefold numbered marked python_str show_uuid parse_uuid allowed ctx nodes r
        ≡ ok s
      → (added : List Replacement) × (s.replacements ≡ r.replacements ++ added)
        × AllGuarded nodes added
  unfolding transform
  transform-AllGuarded [] r s h = (
    [],
    ap (λ (x : Rewriting). x.replacements) (sym (ok_injective h)) ∙ sym (append-nil r.replacements),
    tt,
  )
  transform-AllGuarded (node ∷ nodes) r s h =
      let (t, p, q) =
        continue_with-ok
          (transform_table G casefold numbered marked python_str show_uuid parse_uuid allowed ctx
            node (one_table (table_matches G casefold numbered allowed node)) r)
          (transform G casefold numbered marked python_str show_uuid parse_uuid allowed ctx nodes) s
          h in
      let (first, e, guarded) =
        table-Guarded node r t (one_table (table_matches G casefold numbered allowed node)) refl
          p in
      let (rest, f, all_guarded) = transform-AllGuarded nodes t s q in
      (
        first ∷ rest,
        f ∙ ap (λ xs. xs ++ rest) e ∙ append_assoc r.replacements (first ∷ []) rest,
        (guarded, all_guarded),
      )
