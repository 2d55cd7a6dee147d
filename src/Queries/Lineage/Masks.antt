-- ===== src/Queries/Lineage/Masks.antt =====
-- services/database/column_lineage.py: the mask of an output is as strong as that of every base
-- column that flows into it.
use mathlib.Core.Path.{ap₂}
use tenant_intelligence_plat.Base.{
  ℕ, ◌≤◌, ◌≡◌, sym, ◌∙◌, String, Bool, true, some, inl, inr, List, ◌==◌, get_elem?, get_elem?-Has,
  map-Has, unique_by, unique_by-eq, Has, arith, false,
}
use tenant_intelligence_plat.Permissions.Models.{mask_strength, is_unmasked}
use tenant_intelligence_plat.Permissions.Resolver.{EffectiveColumn, EffectiveTable, EffectiveSchema}
use tenant_intelligence_plat.Permissions.Resolver.Merge.{
  strongest-bound, unmasked_of_strength, strength_of_masked,
}
use tenant_intelligence_plat.Queries.SqlGlot.{
  SqlGlot, Scope, Sources, Scopes, scope, no_sources, table_source, scope_source, no_scopes,
  and_scope,
}
use tenant_intelligence_plat.Queries.Lineage.{
  found, BaseColumnProvenance, OutputColumnLineage, same_column, strongest_mask, provenance,
  analyze,
}
use tenant_intelligence_plat.Queries.Lineage.Flows.{Flows, FlowsSources, FlowsBranches}
use tenant_intelligence_plat.Queries.Lineage.Covered.{analyze-CoversAt}
use tenant_intelligence_plat.Queries.Lineage.Bases.{IsBase, table_matches-Has, one_table-Has}
use tenant_intelligence_plat.Queries.Lineage.Sound.{analyze-AllSound}

abbrev same_table_id : EffectiveTable → EffectiveTable → Bool
same_table_id a b = a.metadata.id == b.metadata.id

abbrev pub same_column_id : EffectiveColumn → EffectiveColumn → Bool
same_column_id a b = a.metadata.id == b.metadata.id

-- Tables, and the columns of each, have their own identifiers.
pub record HasOwnIds (allowed : EffectiveSchema) : Type 0 where
  pub tables : unique_by same_table_id allowed.tables ≡ true
  pub columns :
      (t : EffectiveTable) → Has t allowed.tables → unique_by same_column_id t.columns ≡ true

-- A base column has one provenance.
IsBase-unique :
    (allowed : EffectiveSchema) (b c : BaseColumnProvenance)
    → HasOwnIds allowed
    → IsBase allowed b
    → IsBase allowed c
    → same_column b c ≡ true
    → b ≡ c
IsBase-unique allowed b c ids p q e =
    p.is_provenance ∙ ap₂ provenance same_table same_col ∙ sym q.is_provenance
  where
    keys : same_column (provenance p.table p.column) (provenance q.table q.column) ≡ true
    keys = rw (p.is_provenance, q.is_provenance) at e

    same_table : p.table ≡ q.table
    same_table =
        unique_by-eq same_table_id (λ a b h. ground (arith, h)) p.table q.table allowed.tables
          ids.tables p.in_schema q.in_schema (ground (arith, keys))

    same_col : p.column ≡ q.column
    same_col =
        unique_by-eq same_column_id (λ a b h. ground (arith, h)) p.column q.column q.table.columns
          (ids.columns q.table q.in_schema) (rw same_table at p.in_table) q.in_table
          (ground (arith, keys))

module _ {E : Type 0} (G : SqlGlot E) (casefold : String → String) (numbered : String → ℕ → String)
    (allowed : EffectiveSchema) where
  mutual
    unfolding Flows

    Flows-IsBase :
        (s : Scope E) (n : ℕ) (b : BaseColumnProvenance)
        → Flows G casefold numbered allowed s n b
        → IsBase allowed b
    Flows-IsBase (scope e given columns branches) n b (inl (is_set, h)) =
        FlowsBranches-IsBase branches n b h
    Flows-IsBase (scope e given columns branches) n b
          (inr (no_set, (p, at, k, own, within, is_column, h))) =
        FlowsSources-IsBase given k b h

    FlowsSources-IsBase :
        (given : Sources E) (k : E) (b : BaseColumnProvenance)
        → FlowsSources G casefold numbered allowed k given b
        → IsBase allowed b
    FlowsSources-IsBase no_sources k b h = elim h [ ]
    FlowsSources-IsBase (table_source alias t rest) k b (inl (r, kept, reads)) = record {
      table = reads.table;
      column = reads.column;
      in_schema =
          table_matches-Has G casefold numbered allowed t reads.table
            (one_table-Has G casefold numbered allowed reads.table _ reads.is_table);
      in_table = reads.in_table;
      is_readable = reads.is_readable;
      is_provenance = reads.is_provenance;
    }
    FlowsSources-IsBase (table_source alias t rest) k b (inr (r, h)) =
        FlowsSources-IsBase rest k b h
    FlowsSources-IsBase (scope_source alias s rest) k b (inl (r, kept, (m, named, h))) =
        Flows-IsBase s m b h
    FlowsSources-IsBase (scope_source alias s rest) k b (inr (r, h)) =
        FlowsSources-IsBase rest k b h

    FlowsBranches-IsBase :
        (branches : Scopes E) (n : ℕ) (b : BaseColumnProvenance)
        → FlowsBranches G casefold numbered allowed branches n b
        → IsBase allowed b
    FlowsBranches-IsBase no_scopes n b h = elim h [ ]
    FlowsBranches-IsBase (and_scope s rest) n b (inl h) = Flows-IsBase s n b h
    FlowsBranches-IsBase (and_scope s rest) n b (inr h) = FlowsBranches-IsBase rest n b h

  pub analyze-mask_bound :
      (expression : E) (root : Scope E) (outputs : List OutputColumnLineage) (n : ℕ)
      (b : BaseColumnProvenance)
      → HasOwnIds allowed
      → G.build_scope expression ≡ some root
      → analyze G casefold numbered allowed expression ≡ found outputs
      → Flows G casefold numbered allowed root n b
      → (o : OutputColumnLineage) × (get_elem? outputs n ≡ some o)
        × (mask_strength b.mask_type ≤ mask_strength o.mask_type)
  unfolding strongest_mask
  analyze-mask_bound expression root outputs n b ids built h flows =
      let (o, at, (c, m, e)) =
        analyze-CoversAt G casefold numbered allowed expression root outputs n b built h flows in
      let sound =
        analyze-AllSound G casefold numbered allowed expression outputs h o
          (get_elem?-Has n o outputs at) in
      let same =
        IsBase-unique allowed c b ids (sound.base_sources c m) (Flows-IsBase root n b flows) e in
      (
        o,
        at,
        rw (sound.strongest_of_sources, sym same)
            (strongest-bound c.mask_type _
              (map-Has (λ (s : BaseColumnProvenance). s.mask_type) c o.sources m)),
      )

  -- With that, an output into which a masked base column flows is masked.
  pub analyze-masked :
      (expression : E) (root : Scope E) (outputs : List OutputColumnLineage) (n : ℕ)
      (b : BaseColumnProvenance)
      → HasOwnIds allowed
      → G.build_scope expression ≡ some root
      → analyze G casefold numbered allowed expression ≡ found outputs
      → Flows G casefold numbered allowed root n b
      → is_unmasked b.mask_type ≡ false
      → (o : OutputColumnLineage) × (get_elem? outputs n ≡ some o)
        × (is_unmasked o.mask_type ≡ false)
  analyze-masked expression root outputs n b ids built h flows masked =
      let (o, at, bound) = analyze-mask_bound expression root outputs n b ids built h flows in
      (
        o,
        at,
        unmasked_of_strength o.mask_type
            (omega (arith, strength_of_masked b.mask_type masked, bound)),
      )
