-- ===== src/Queries/Lineage/Sound.antt =====
-- services/database/column_lineage.py: an output has the strongest mask of its sources, which are
-- readable columns of the allowed schema.
use tenant_intelligence_plat.Queries.Lineage.Covered.{reject-found}
use tenant_intelligence_plat.Base.{
  ℕ, suc, ◌≡◌, refl, sym, String, Bool, not, ◌||◌, Option, none, some, inl, inr, List, [], ◌∷◌, map,
  str_eq, ◌==◌, any, length, get_elem?, select, Has, Bool-cases, is_empty, ltb, get_elem?-Has,
  Has-append, Has-select, Option-cases,
}
use tenant_intelligence_plat.Permissions.Resolver.{EffectiveSchema}
use tenant_intelligence_plat.Queries.SqlGlot.{
  SqlGlot, Scope, Sources, Scopes, scope, no_sources, table_source, scope_source, no_scopes,
  and_scope, NodeClass,
}
use tenant_intelligence_plat.Queries.Lineage.{
  found, gather, BaseColumnProvenance, OutputColumnLineage, merge_sources, sources_at,
  branch_sources, merged_outputs, set_operation_outputs, View, one_match, source_column,
  same_folded, candidate_views, named_views, candidate_origins, resolve_column, columns_below,
  projection_lineage, projections, reject_duplicate_names, is_set_operation, scope_outputs,
  source_views, branch_outputs, analyze, analyzed,
}
use tenant_intelligence_plat.Queries.Lineage.Flows.{found_injective, bind-found, Has-merge_sources}
use tenant_intelligence_plat.Queries.Lineage.Bases.{
  IsBase, Sound, gather-from, AllSound, SoundViews, table_column-IsBase,
}

module _ {E : Type 0} (G : SqlGlot E) (casefold : String → String) (numbered : String → ℕ → String)
    (allowed : EffectiveSchema) where
  named_views-Has :
      (alias : String) (v : View E) (views : List (String × View E))
      → Has v (named_views G casefold numbered allowed alias views)
      → Has v (map (λ w. w.1) views)
  named_views-Has alias v [] h = elim h [ ]
  named_views-Has alias v ((a, w) ∷ views) h = elim (Bool-cases (str_eq a alias)) [
    | inl e ↦ elim (rw e at h) [ inl p ↦ inl p | inr never ↦ elim never [ ] ]
    | inr e ↦ inr (named_views-Has alias v views (rw e at h))
  ]

  candidate_views-Has :
      (k : E) (v : View E) (views : List (String × View E))
      → Has v (candidate_views G casefold numbered allowed k views)
      → Has v (map (λ w. w.1) views)
  candidate_views-Has k v views h = elim (Bool-cases (str_eq (G.table_of k) "")) [
    | inl e ↦ rw e at h
    | inr e ↦ named_views-Has (G.table_of k) v views (rw e at h)
  ]

  resolve_column-IsBase :
      (views : List (String × View E)) (k : E) (zs : List BaseColumnProvenance)
      (b : BaseColumnProvenance)
      → SoundViews G casefold numbered allowed views
      → resolve_column G casefold numbered allowed views k ≡ found zs
      → Has b zs
      → IsBase allowed b
  unfolding resolve_column
  resolve_column-IsBase views k zs b sound h m =
      let (cs, p, q) =
        bind-found
          (gather (source_column G casefold numbered allowed (G.name k))
            (candidate_views G casefold numbered allowed k views))
          _ zs h in
      elim (Bool-cases (
        is_empty (merge_sources cs)
        || ltb 1 (candidate_origins G casefold numbered allowed k views))) [
          | inl bad ↦ absurd (cc (rw bad at q))
          | inr good ↦
              let in_cs = Has-merge_sources b cs (rw (sym (found_injective (rw good at q))) at m) in
              let (v, xs, hv, at, hb) =
                gather-from (source_column G casefold numbered allowed (G.name k)) b
                  (candidate_views G casefold numbered allowed k views) cs p in_cs in
              sound v (candidate_views-Has k v views hv) (G.name k) xs b at hb
        ]

  projection-Sound :
      (views : List (String × View E)) (n : ℕ) (p : E) (o : OutputColumnLineage)
      → SoundViews G casefold numbered allowed views
      → projection_lineage G casefold numbered allowed views n p ≡ found o
      → Sound allowed o
  unfolding projection_lineage
  projection-Sound views n p o sound h =
      let (cs, at, q) =
        bind-found
          (gather (resolve_column G casefold numbered allowed views)
            (columns_below G casefold numbered allowed (G.unalias p)))
          _ o h in
      rw (sym (found_injective q)) (record {
        strongest_of_sources = refl;
        base_sources = λ b m.
            let (k, zs, hk, e, hb) =
              gather-from (resolve_column G casefold numbered allowed views) b
                (columns_below G casefold numbered allowed (G.unalias p)) cs at
                (Has-merge_sources b cs m) in
            resolve_column-IsBase views k zs b sound e hb;
      })

  projections-AllSound :
      (views : List (String × View E)) (start : ℕ) (ps : List E)
      (outputs : List OutputColumnLineage)
      → SoundViews G casefold numbered allowed views
      → projections G casefold numbered allowed views start ps ≡ found outputs
      → AllSound G casefold numbered allowed outputs
  unfolding projections
  projections-AllSound views start [] outputs sound h o m =
      elim (rw (sym (found_injective h)) at m) [ ]
  projections-AllSound views start (x ∷ ps) outputs sound h o m =
      let (first, e, h2) =
        bind-found (projection_lineage G casefold numbered allowed views start x) _ outputs h in
      let (rest, f, g) =
        bind-found (projections G casefold numbered allowed views (suc start) ps) _ outputs h2 in
      elim (rw (sym (found_injective g)) at m) [
        | inl k ↦ rw k (projection-Sound views start x first sound e)
        | inr k ↦ projections-AllSound views (suc start) ps rest sound f o k
      ]

  branch_sources-IsBase :
      (branches : List (List OutputColumnLineage)) (n : ℕ) (b : BaseColumnProvenance)
      → ((branch : List OutputColumnLineage)
          → Has branch branches
          → AllSound G casefold numbered allowed branch)
      → Has b (branch_sources branches n)
      → IsBase allowed b
  branch_sources-IsBase [] n b sound h = elim h [ ]
  branch_sources-IsBase (x ∷ xs) n b sound h =
      elim (Has-append b (sources_at n x) (branch_sources xs n) h) [
        | inr r ↦ branch_sources-IsBase xs n b (λ y m. sound y (inr m)) r
        | inl l ↦ elim (Option-cases (get_elem? x n)) [
          | inl e ↦ elim (rw e at l) [ ]
          | inr (o, e) ↦ (sound x (inl refl) o (get_elem?-Has n o x e)).base_sources b (rw e at l)
        ]
      ]

  merged-AllSound :
      (branches : List (List OutputColumnLineage)) (position : ℕ) (first : List OutputColumnLineage)
      → ((branch : List OutputColumnLineage)
          → Has branch branches
          → AllSound G casefold numbered allowed branch)
      → AllSound G casefold numbered allowed (merged_outputs branches position first)
  unfolding merged_outputs
  merged-AllSound branches position [] sound o m = elim m [ ]
  merged-AllSound branches position (x ∷ first) sound o (inl e) = rw e (record {
    strongest_of_sources = refl;
    base_sources = λ b m.
        branch_sources-IsBase branches position b sound
          (Has-merge_sources b (branch_sources branches position) m);
  })
  merged-AllSound branches position (x ∷ first) sound o (inr m) =
      merged-AllSound branches (suc position) first sound o m

  set_operation-AllSound :
      (branches : List (List OutputColumnLineage)) (outputs : List OutputColumnLineage)
      → ((branch : List OutputColumnLineage)
          → Has branch branches
          → AllSound G casefold numbered allowed branch)
      → set_operation_outputs branches ≡ found outputs
      → AllSound G casefold numbered allowed outputs
  unfolding set_operation_outputs
  set_operation-AllSound [] outputs sound h o m = absurd (cc)
  set_operation-AllSound (first ∷ rest) outputs sound h o m =
      elim (Bool-cases (any (λ branch. not (length branch == length first)) (first ∷ rest))) [
        | inl uneven ↦ absurd (cc (rw uneven at h))
        | inr even ↦
            merged-AllSound (first ∷ rest) 0 first sound o
              (rw (sym (found_injective (rw even at h))) at m)
      ]

  one_match-IsBase :
      (name : String) (outputs : List OutputColumnLineage) (zs : List BaseColumnProvenance)
      (b : BaseColumnProvenance)
      → AllSound G casefold numbered allowed outputs
      → one_match (
          select
            (λ (o : OutputColumnLineage).
              same_folded G casefold numbered allowed o.output_name name)
            outputs)
        ≡ found zs
      → Has b zs
      → IsBase allowed b
  one_match-IsBase name outputs zs b sound h m =
      go (select test outputs) (λ o k. (Has-select test o outputs k).0) h
    where
      test : OutputColumnLineage → Bool
      test o = same_folded G casefold numbered allowed o.output_name name

      go :
          (os : List OutputColumnLineage)
          → ((o : OutputColumnLineage) → Has o os → Has o outputs)
          → one_match os ≡ found zs
          → IsBase allowed b
      go [] within e = elim (rw (sym (found_injective e)) at m) [ ]
      go (o ∷ []) within e =
          (sound o (within o (inl refl))).base_sources b (rw (sym (found_injective e)) at m)
      go (o ∷ p ∷ os) within e = absurd (cc)

  mutual
    unfolding scope_outputs source_column

    scope-AllSound :
        (s : Scope E) (outputs : List OutputColumnLineage)
        → scope_outputs G casefold numbered allowed s ≡ found outputs
        → AllSound G casefold numbered allowed outputs
    scope-AllSound (scope e given columns branches) outputs h =
        let (kept, f, q) =
          bind-found _ (reject_duplicate_names G casefold numbered allowed) outputs h in
        rw (sym (reject-found G casefold numbered allowed kept outputs q))
          (elim (Bool-cases (is_set_operation G casefold numbered allowed e)) [
            | inl is_set ↦
                let (all_branches, r, t) =
                  bind-found (branch_outputs G casefold numbered allowed branches)
                    set_operation_outputs kept (rw is_set at f) in
                set_operation-AllSound all_branches kept (branches-AllSound branches all_branches r)
                  t
            | inr no_set ↦ elim (Bool-cases (G.isinstance e NodeClass.select)) [
              | inr other ↦ absurd (cc (rw (no_set, other) at f))
              | inl is_select ↦
                  projections-AllSound (source_views G casefold numbered allowed given) 0
                    (G.expressions e) kept (sources-SoundViews given) (rw (no_set, is_select) at f)
            ]
          ])

    sources-SoundViews :
        (given : Sources E)
        → SoundViews G casefold numbered allowed (source_views G casefold numbered allowed given)
    sources-SoundViews no_sources v m = elim m [ ]
    sources-SoundViews (table_source alias t rest) v (inl e) = rw e (λ name zs b h m.
        table_column-IsBase G casefold numbered allowed t name b
          (rw (sym (found_injective h)) at m))
    sources-SoundViews (table_source alias t rest) v (inr m) = sources-SoundViews rest v m
    sources-SoundViews (scope_source alias s rest) v (inl e) = rw e (λ name zs b h m.
        let (outputs, p, q) = bind-found (scope_outputs G casefold numbered allowed s) _ zs h in
        one_match-IsBase name outputs zs b (scope-AllSound s outputs p) q m)
    sources-SoundViews (scope_source alias s rest) v (inr m) = sources-SoundViews rest v m

    branches-AllSound :
        (branches : Scopes E) (all_branches : List (List OutputColumnLineage))
        → branch_outputs G casefold numbered allowed branches ≡ found all_branches
        → (branch : List OutputColumnLineage) → Has branch all_branches
        → AllSound G casefold numbered allowed branch
    branches-AllSound no_scopes all_branches h branch m =
        elim (rw (sym (found_injective h)) at m) [ ]
    branches-AllSound (and_scope s rest) all_branches h branch m =
        let (outputs, p, k) =
          bind-found (scope_outputs G casefold numbered allowed s) _ all_branches h in
        let (others, q, r) =
          bind-found (branch_outputs G casefold numbered allowed rest) _ all_branches k in
        elim (rw (sym (found_injective r)) at m) [
          | inl e ↦ rw e (scope-AllSound s outputs p)
          | inr n ↦ branches-AllSound rest others q branch n
        ]

  -- Every output of a query whose analysis succeeds.
  pub analyze-AllSound :
      (expression : E) (outputs : List OutputColumnLineage)
      → analyze G casefold numbered allowed expression ≡ found outputs
      → AllSound G casefold numbered allowed outputs
  unfolding analyze
  analyze-AllSound expression outputs h = go (G.build_scope expression) h
    where
      go :
          (root : Option (Scope E))
          → analyzed G casefold numbered allowed root ≡ found outputs
          → AllSound G casefold numbered allowed outputs
      go none k = absurd (cc)
      go (some root) k =
          let (os, p, q) =
            bind-found (scope_outputs G casefold numbered allowed root)
              (reject_duplicate_names G casefold numbered allowed) outputs k in
          rw (sym (reject-found G casefold numbered allowed os outputs q))
            (scope-AllSound root os p)
