-- ===== src/Queries/Lineage/Covered.antt =====
-- services/database/column_lineage.py: every base column that flows into an output is among the
-- sources of the output.
use mathlib.Core.Path.{subst}
use tenant_intelligence_plat.Base.{
  ℕ, zero, suc, ◌≡◌, refl, sym, ◌∙◌, String, Bool, true, false, ◌||◌, some, inl, inr, List, [], ◌∷◌,
  map, str_eq, get_elem?, select, unique_by, Has, select-Has, Bool-cases, arith, is_empty, ltb,
  some_injective, get_elem?-Has, scalar, scalar-none, scalar-Has, scalar-holds, Option-cases,
  eq_iff, ◌&&◌, ap,
}
use tenant_intelligence_plat.Permissions.Resolver.{EffectiveSchema, EffectiveColumn}
use tenant_intelligence_plat.Queries.SqlGlot.{
  SqlGlot, Scope, Sources, Scopes, scope, no_sources, table_source, scope_source, no_scopes,
  and_scope, NodeClass,
}
use tenant_intelligence_plat.Queries.Lineage.{
  found, gather, BaseColumnProvenance, OutputColumnLineage, merge_sources, set_operation_outputs,
  View, base, derived, one_match, source_column, same_folded, candidate_views, named_views,
  candidate_origins, resolve_column, columns_below, projection_lineage, projections,
  reject_duplicate_names, scope_outputs, source_views, branch_outputs, analyze,
}
use tenant_intelligence_plat.Queries.Lineage.Flows.{
  found_injective, bind-found, gather-Has, Covers, Covers-subset, merge_sources-Covers, CoversAt,
  set_operation-CoversAt, refers, is_named, Named, NamedFirst, ReadsColumn, set_operation_name,
  Flows, FlowsSources, FlowsBranches,
}

module _ {E : Type 0} (G : SqlGlot E) (casefold : String → String) (numbered : String → ℕ → String)
    (allowed : EffectiveSchema) where
  -- What a lookup in a view finds, it finds with the base column.
  abbrev Provides : View E → String → BaseColumnProvenance → Type 0
  Provides view name b =
      (zs : List BaseColumnProvenance)
      → source_column G casefold numbered allowed name view ≡ found zs
      → Covers b zs

  record InViews (k : E) (views : List (String × View E)) (b : BaseColumnProvenance) : Type 0 where
    view : View E
    provides : Provides view (G.name k) b
    among_all : str_eq (G.table_of k) "" ≡ true → Has view (map (λ v. v.1) views)
    among_named :
        str_eq (G.table_of k) "" ≡ false
        → Has view (named_views G casefold numbered allowed (G.table_of k) views)

  first_view :
      (k : E) (alias : String) (view : View E) (views : List (String × View E))
      (b : BaseColumnProvenance)
      → refers G casefold numbered allowed k alias ≡ true
      → Provides view (G.name k) b
      → InViews k ((alias, view) ∷ views) b
  first_view k alias view views b r h = record {
    view = view;
    provides = h;
    among_all = λ e. inl refl;
    among_named = λ e. rw (refers_named e) (inl refl);
  }
    where
      refers_named : str_eq (G.table_of k) "" ≡ false → str_eq alias (G.table_of k) ≡ true
      refers_named e = ground (arith, r, e)

  later_view :
      (k : E) (alias : String) (view : View E) (views : List (String × View E))
      (b : BaseColumnProvenance)
      → is_named G casefold numbered allowed k alias ≡ false
      → InViews k views b
      → InViews k ((alias, view) ∷ views) b
  later_view k alias view views b r v = record {
    view = v.view;
    provides = v.provides;
    among_all = λ e. inr (v.among_all e);
    among_named = λ e. rw (passed e) (v.among_named e);
  }
    where
      passed : str_eq (G.table_of k) "" ≡ false → str_eq alias (G.table_of k) ≡ false
      passed e = ground (arith, r, e)

  candidate :
      (k : E) (views : List (String × View E)) (b : BaseColumnProvenance)
      → (v : InViews k views b) → Has v.view (candidate_views G casefold numbered allowed k views)
  candidate k views b v = elim (Bool-cases (str_eq (G.table_of k) "")) [
    | inl e ↦ rw e (v.among_all e)
    | inr e ↦ rw e (v.among_named e)
  ]

  -- The column of a projection that means a view has the sources that the view provides.
  resolve_column-Covers :
      (k : E) (views : List (String × View E)) (b : BaseColumnProvenance)
      (zs : List BaseColumnProvenance)
      → resolve_column G casefold numbered allowed views k ≡ found zs
      → InViews k views b
      → Covers b zs
  unfolding resolve_column
  resolve_column-Covers k views b zs h v =
      let (cs, p, q) =
        bind-found
          (gather (source_column G casefold numbered allowed (G.name k))
            (candidate_views G casefold numbered allowed k views))
          _ zs h in
      let (xs, at, within) =
        gather-Has (source_column G casefold numbered allowed (G.name k)) v.view
          (candidate_views G casefold numbered allowed k views) cs p (candidate k views b v) in
      let merged = merge_sources-Covers b cs (Covers-subset b xs cs (v.provides xs at) within) in
      elim (Bool-cases (
        is_empty (merge_sources cs)
        || ltb 1 (candidate_origins G casefold numbered allowed k views))) [
          | inl bad ↦ absurd (cc (rw bad at q))
          | inr good ↦ rw (sym (found_injective (rw good at q))) merged
        ]

  projection-Covers :
      (views : List (String × View E)) (n : ℕ) (p k : E) (b : BaseColumnProvenance)
      (o : OutputColumnLineage)
      → projection_lineage G casefold numbered allowed views n p ≡ found o
      → Has k (columns_below G casefold numbered allowed (G.unalias p))
      → InViews k views b
      → Covers b o.sources
  unfolding projection_lineage
  projection-Covers views n p k b o h m v =
      let (cs, at, q) =
        bind-found
          (gather (resolve_column G casefold numbered allowed views)
            (columns_below G casefold numbered allowed (G.unalias p)))
          _ o h in
      let (xs, e, within) =
        gather-Has (resolve_column G casefold numbered allowed views) k
          (columns_below G casefold numbered allowed (G.unalias p)) cs at m in
      rw (sym (found_injective q)) (
        merge_sources-Covers b cs
          (Covers-subset b xs cs (resolve_column-Covers k views b xs e v) within))

  projections-CoversAt :
      (views : List (String × View E)) (start n : ℕ) (ps : List E) (p k : E)
      (b : BaseColumnProvenance) (outputs : List OutputColumnLineage)
      → projections G casefold numbered allowed views start ps ≡ found outputs
      → get_elem? ps n ≡ some p
      → Has k (columns_below G casefold numbered allowed (G.unalias p))
      → InViews k views b
      → CoversAt n b outputs
  unfolding projections
  projections-CoversAt views start n [] p k b outputs h at m v = absurd (cc)
  projections-CoversAt views start zero (x ∷ ps) p k b outputs h at m v =
      let (o, e, h2) =
        bind-found (projection_lineage G casefold numbered allowed views start x) _ outputs h in
      let (rest, f, g) =
        bind-found (projections G casefold numbered allowed views (suc start) ps) _ outputs h2 in
      rw (sym (found_injective g)) (
        o,
        refl,
        projection-Covers views start x k b o e
            (subst (λ y. Has k (columns_below G casefold numbered allowed (G.unalias y)))
              (some_injective (sym at)) m)
            v,
      )
  projections-CoversAt views start (suc i) (x ∷ ps) p k b outputs h at m v =
      let (o, e, h2) =
        bind-found (projection_lineage G casefold numbered allowed views start x) _ outputs h in
      let (rest, f, g) =
        bind-found (projections G casefold numbered allowed views (suc start) ps) _ outputs h2 in
      rw (sym (found_injective g)) (projections-CoversAt views (suc start) i ps p k b rest f at m v)

  pub reject-found :
      (outputs kept : List OutputColumnLineage)
      → reject_duplicate_names G casefold numbered allowed outputs ≡ found kept
      → outputs ≡ kept
  unfolding reject_duplicate_names
  reject-found outputs kept h =
      elim (Bool-cases (
        unique_by
          (λ (a b : OutputColumnLineage).
            same_folded G casefold numbered allowed a.output_name b.output_name)
          outputs)) [ inl u ↦ found_injective (rw u at h) | inr u ↦ absurd (cc (rw u at h)) ]

  projections_name :
      (views : List (String × View E)) (start n : ℕ) (ps : List E) (p : E) (name : String)
      (outputs : List OutputColumnLineage)
      → projections G casefold numbered allowed views start ps ≡ found outputs
      → get_elem? ps n ≡ some p
      → G.alias_or_name p ≡ name
      → str_eq name "" ≡ false
      → (o : OutputColumnLineage) × (get_elem? outputs n ≡ some o) × (o.output_name ≡ name)
  unfolding projections projection_lineage
  projections_name views start n [] p name outputs h at named filled = absurd (cc)
  projections_name views start zero (x ∷ ps) p name outputs h at named filled =
      let (o, e, h2) =
        bind-found (projection_lineage G casefold numbered allowed views start x) _ outputs h in
      let (rest, f, g) =
        bind-found (projections G casefold numbered allowed views (suc start) ps) _ outputs h2 in
      let (cs, resolved, q) =
        bind-found
          (gather (resolve_column G casefold numbered allowed views)
            (columns_below G casefold numbered allowed (G.unalias x)))
          _ o e in
      let same : G.alias_or_name x ≡ name =
        ap (λ y. G.alias_or_name y) (some_injective at) ∙ named in
      rw (sym (found_injective g)) (
        o,
        refl,
        sym (ap (λ (y : OutputColumnLineage). y.output_name) (found_injective q))
            ∙ rw (same, filled) refl,
      )
  projections_name views start (suc i) (x ∷ ps) p name outputs h at named filled =
      let (o, e, h2) =
        bind-found (projection_lineage G casefold numbered allowed views start x) _ outputs h in
      let (rest, f, g) =
        bind-found (projections G casefold numbered allowed views (suc start) ps) _ outputs h2 in
      rw (sym (found_injective g))
        (projections_name views (suc start) i ps p name rest f at named filled)

  -- An output that has a name is the one at its position.
  mutual
    unfolding Named scope_outputs

    scope_outputs-Named :
        (s : Scope E) (m : ℕ) (name : String) (outputs : List OutputColumnLineage)
        → scope_outputs G casefold numbered allowed s ≡ found outputs
        → Named G casefold numbered allowed s m name
        → (o : OutputColumnLineage) × (get_elem? outputs m ≡ some o) × (o.output_name ≡ name)
    scope_outputs-Named (scope e given columns branches) m name outputs h (inl (is_set, first)) =
        let (merged, p, q) =
          bind-found _ (reject_duplicate_names G casefold numbered allowed) outputs h in
        let (all_branches, r, t) =
          bind-found (branch_outputs G casefold numbered allowed branches) set_operation_outputs
            merged (rw is_set at p) in
        rw (sym (reject-found merged outputs q))
          (branch_outputs-Named branches m name all_branches merged r t first)
    scope_outputs-Named (scope e given columns branches) m name outputs h
          (inr (no_set, (p, at, named, filled))) =
        let (kept, f, q) =
          bind-found _ (reject_duplicate_names G casefold numbered allowed) outputs h in
        rw (sym (reject-found kept outputs q))
          (elim (Bool-cases (G.isinstance e NodeClass.select)) [
            | inr other ↦ absurd (cc (rw (no_set, other) at f))
            | inl is_select ↦
                projections_name (source_views G casefold numbered allowed given) 0 m
                  (G.expressions e) p name kept (rw (no_set, is_select) at f) at named filled
          ])

    branch_outputs-Named :
        (branches : Scopes E) (m : ℕ) (name : String)
        (all_branches : List (List OutputColumnLineage)) (merged : List OutputColumnLineage)
        → branch_outputs G casefold numbered allowed branches ≡ found all_branches
        → set_operation_outputs all_branches ≡ found merged
        → NamedFirst G casefold numbered allowed branches m name
        → (o : OutputColumnLineage) × (get_elem? merged m ≡ some o) × (o.output_name ≡ name)
    branch_outputs-Named no_scopes m name all_branches merged h t named = elim named [ ]
    branch_outputs-Named (and_scope s rest) m name all_branches merged h t named =
        let (outputs, p, k) =
          bind-found (scope_outputs G casefold numbered allowed s) _ all_branches h in
        let (others, q, r) =
          bind-found (branch_outputs G casefold numbered allowed rest) _ all_branches k in
        let (o, at, same) = scope_outputs-Named s m name outputs p named in
        let (x, e, kept) =
          set_operation_name m outputs others merged o (rw (sym (found_injective r)) at t) at in
        (x, e, kept ∙ same)

  -- The one output of a name, which the lookup of the name finds.
  NamedOutput-Provides :
      (s : Scope E) (name : String) (m : ℕ) (b : BaseColumnProvenance)
      → Named G casefold numbered allowed s m name
      → ((outputs : List OutputColumnLineage)
          → scope_outputs G casefold numbered allowed s ≡ found outputs
          → CoversAt m b outputs)
      → Provides (derived (scope_outputs G casefold numbered allowed s)) name b
  unfolding source_column
  NamedOutput-Provides s name m b named covered zs h =
      let (outputs, p, q) = bind-found (scope_outputs G casefold numbered allowed s) _ zs h in
      let (o, at, c) = covered outputs p in
      let (x, ex, same) = scope_outputs-Named s m name outputs p named in
      let o_named : o.output_name ≡ name =
        ap (λ (y : OutputColumnLineage). y.output_name) (some_injective (sym at ∙ ex)) ∙ same in
      go o c (select test outputs)
        (select-Has test o outputs (get_elem?-Has m o outputs at)
          (rw o_named (ground (arith, eq_iff (casefold name) (casefold name)))))
        q
    where
      test : OutputColumnLineage → Bool
      test o = same_folded G casefold numbered allowed o.output_name name

      go :
          (o : OutputColumnLineage)
          → Covers b o.sources
          → (os : List OutputColumnLineage) → Has o os
          → one_match os ≡ found zs
          → Covers b zs
      go o c [] k e = elim k [ ]
      go o c (x ∷ []) (inl p) e = rw (sym (found_injective e), sym p) c
      go o c (x ∷ []) (inr k) e = elim k [ ]
      go o c (x ∷ y ∷ os) k e = absurd (cc)

  -- The lookup in a table finds the column that it reads.
  ReadsColumn-Provides :
      (t : E) (name : String) (b : BaseColumnProvenance)
      → ReadsColumn G casefold numbered allowed t name b
      → Provides (base t) name b
  unfolding source_column
  ReadsColumn-Provides t name b reads zs h =
      let test : EffectiveColumn → Bool =
        λ c. c.readable && str_eq (casefold c.metadata.column_name) (casefold name) in
      let passes : test reads.column ≡ true =
        rw (reads.is_readable, reads.named)
          (ground (arith, eq_iff (casefold name) (casefold name))) in
      elim (Option-cases (scalar test reads.table.columns)) [
        | inl nothing ↦ absurd (
            cc (
              sym passes
              ∙ scalar-none test reads.column reads.table.columns nothing reads.in_table))
        | inr (d, first) ↦
            let e = scalar-holds test reads.table.columns d first in
            let same =
              reads.only_one d (scalar-Has test d reads.table.columns first) (ground (arith, e)) in
            (
              b,
              rw (sym (found_injective (rw (reads.is_table, first) at h)), same)
                  (inl reads.is_provenance),
              ground arith,
            )
      ]

  mutual
    unfolding Flows scope_outputs source_column

    scope-CoversAt :
        (s : Scope E) (n : ℕ) (b : BaseColumnProvenance) (outputs : List OutputColumnLineage)
        → scope_outputs G casefold numbered allowed s ≡ found outputs
        → Flows G casefold numbered allowed s n b
        → CoversAt n b outputs
    scope-CoversAt (scope e given columns branches) n b outputs h (inl (is_set, flows)) =
        let (merged, p, q) =
          bind-found _ (reject_duplicate_names G casefold numbered allowed) outputs h in
        let (all_branches, r, t) =
          bind-found (branch_outputs G casefold numbered allowed branches) set_operation_outputs
            merged (rw is_set at p) in
        let (branch, member, c) = branches-CoversAt branches n b all_branches r flows in
        rw (sym (reject-found merged outputs q))
          (set_operation-CoversAt n b branch all_branches merged t member c)
    scope-CoversAt (scope e given columns branches) n b outputs h
          (inr (no_set, (p, at, k, own, within, is_column, flows))) =
        let (kept, f, q) =
          bind-found _ (reject_duplicate_names G casefold numbered allowed) outputs h in
        let views = sources-InViews given k b flows in
        let below =
          select-Has (λ n. G.isinstance n NodeClass.column) k (G.walk (G.unalias p)) within
            is_column in
        rw (sym (reject-found kept outputs q))
          (elim (Bool-cases (G.isinstance e NodeClass.select)) [
            | inr other ↦ absurd (cc (rw (no_set, other) at f))
            | inl is_select ↦
                projections-CoversAt (source_views G casefold numbered allowed given) 0 n
                  (G.expressions e) p k b kept (rw (no_set, is_select) at f) at below views
          ])

    sources-InViews :
        (sources : Sources E) (k : E) (b : BaseColumnProvenance)
        → FlowsSources G casefold numbered allowed k sources b
        → InViews k (source_views G casefold numbered allowed sources) b
    sources-InViews no_sources k b h = elim h [ ]
    sources-InViews (table_source alias t rest) k b (inl (r, kept, reads)) =
        first_view k alias (base t) _ b r (ReadsColumn-Provides t (G.name k) b reads)
    sources-InViews (table_source alias t rest) k b (inr (r, flows)) =
        later_view k alias (base t) _ b r (sources-InViews rest k b flows)
    sources-InViews (scope_source alias s rest) k b (inl (r, kept, (m, named, flows))) =
        first_view k alias (derived (scope_outputs G casefold numbered allowed s)) _ b r (
          NamedOutput-Provides s (G.name k) m b named
            (λ outputs e. scope-CoversAt s m b outputs e flows))
    sources-InViews (scope_source alias s rest) k b (inr (r, flows)) =
        later_view k alias (derived (scope_outputs G casefold numbered allowed s)) _ b r
          (sources-InViews rest k b flows)

    branches-CoversAt :
        (branches : Scopes E) (n : ℕ) (b : BaseColumnProvenance)
        (all_branches : List (List OutputColumnLineage))
        → branch_outputs G casefold numbered allowed branches ≡ found all_branches
        → FlowsBranches G casefold numbered allowed branches n b
        → (branch : List OutputColumnLineage) × Has branch all_branches × CoversAt n b branch
    branches-CoversAt no_scopes n b all_branches h flows = elim flows [ ]
    branches-CoversAt (and_scope s rest) n b all_branches h (inl flows) =
        let (outputs, p, k) =
          bind-found (scope_outputs G casefold numbered allowed s) _ all_branches h in
        let (others, q, r) =
          bind-found (branch_outputs G casefold numbered allowed rest) _ all_branches k in
        (outputs, rw (sym (found_injective r)) (inl refl), scope-CoversAt s n b outputs p flows)
    branches-CoversAt (and_scope s rest) n b all_branches h (inr flows) =
        let (outputs, p, k) =
          bind-found (scope_outputs G casefold numbered allowed s) _ all_branches h in
        let (others, q, r) =
          bind-found (branch_outputs G casefold numbered allowed rest) _ all_branches k in
        let (branch, m, c) = branches-CoversAt rest n b others q flows in
        (branch, rw (sym (found_injective r)) (inr m), c)

  -- The outputs of a query whose analysis succeeds.
  pub analyze-CoversAt :
      (expression : E) (root : Scope E) (outputs : List OutputColumnLineage) (n : ℕ)
      (b : BaseColumnProvenance)
      → G.build_scope expression ≡ some root
      → analyze G casefold numbered allowed expression ≡ found outputs
      → Flows G casefold numbered allowed root n b
      → CoversAt n b outputs
  unfolding analyze
  analyze-CoversAt expression root outputs n b built h flows =
      let (os, p, q) =
        bind-found (scope_outputs G casefold numbered allowed root)
          (reject_duplicate_names G casefold numbered allowed) outputs (rw built at h) in
      rw (sym (reject-found os outputs q)) (scope-CoversAt root n b os p flows)
