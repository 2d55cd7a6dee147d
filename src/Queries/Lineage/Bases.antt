-- ===== src/Queries/Lineage/Bases.antt =====
-- services/database/column_lineage.py: the sources of an output are readable columns of the allowed
-- schema, and its mask is the strongest of theirs.
use tenant_intelligence_plat.Base.{
  ℕ, ◌≡◌, refl, sym, String, Bool, true, ◌&&◌, Option, none, some, inl, inr, List, [], ◌∷◌, map,
  Has-dict_values, Has, arith, some_injective, Has-append, Has-select, scalar, scalar-Has,
  scalar-holds,
}
use tenant_intelligence_plat.Permissions.Resolver.{EffectiveSchema, EffectiveTable, EffectiveColumn}
use tenant_intelligence_plat.Queries.SqlGlot.{SqlGlot}
use tenant_intelligence_plat.Queries.Lineage.{
  Analysis, found, gather, BaseColumnProvenance, OutputColumnLineage, strongest_mask, View,
  one_table, table_matches, table_column, source_column, same_folded, provenance, same_name,
  table_by_qualified_name, column_provenance, readable_column,
}
use tenant_intelligence_plat.Queries.Lineage.Flows.{found_injective, bind-found}

-- the provenance of a readable column of the schema
pub record IsBase (allowed : EffectiveSchema) (b : BaseColumnProvenance) : Type 0 where
  pub table : EffectiveTable
  pub column : EffectiveColumn
  pub in_schema : Has table allowed.tables
  pub in_table : Has column table.columns
  pub is_readable : column.readable ≡ true
  pub is_provenance : b ≡ provenance table column

pub record Sound (allowed : EffectiveSchema) (o : OutputColumnLineage) : Type 0 where
  pub strongest_of_sources : o.mask_type ≡ strongest_mask o.sources
  pub base_sources : (b : BaseColumnProvenance) → Has b o.sources → IsBase allowed b

pub gather-from :
    {A B : Type 0} (f : A → Analysis (List B)) (b : B) (xs : List A) (ys : List B)
    → gather f xs ≡ found ys
    → Has b ys
    → (x : A) × (zs : List B) × Has x xs × (f x ≡ found zs) × Has b zs
gather-from f b [] ys h m = elim (rw (sym (found_injective h)) at m) [ ]
gather-from f b (x ∷ xs) ys h m =
    let (zs, p, k) = bind-found (f x) _ ys h in
    let (ws, q, r) = bind-found (gather f xs) _ ys k in
    elim (Has-append b zs ws (rw (sym (found_injective r)) at m)) [
      | inl l ↦ (x, zs, inl refl, p, l)
      | inr n ↦ let (y, vs, hy, e, k) = gather-from f b xs ws q n in (y, vs, inr hy, e, k)
    ]

module _ {E : Type 0} (G : SqlGlot E) (casefold : String → String) (numbered : String → ℕ → String)
    (allowed : EffectiveSchema) where
  pub one_table-Has :
      (t : EffectiveTable) (ts : List EffectiveTable) → one_table ts ≡ some t → Has t ts
  one_table-Has t [] h = absurd (cc)
  one_table-Has t (x ∷ []) h = inl (sym (some_injective h))
  one_table-Has t (x ∷ y ∷ ts) h = absurd (cc)

  pub table_matches-Has :
      (source : E) (t : EffectiveTable)
      → Has t (table_matches G casefold numbered allowed source)
      → Has t allowed.tables
  unfolding table_matches table_by_qualified_name
  table_matches-Has source t h = Has-dict_values same_name t allowed.tables (Has-select _ t _ h).0

  pub table_column-IsBase :
      (source : E) (name : String) (b : BaseColumnProvenance)
      → Has b (
          table_column G casefold numbered allowed
            (one_table (table_matches G casefold numbered allowed source))
            name)
      → IsBase allowed b
  table_column-IsBase source name b h =
      go (one_table (table_matches G casefold numbered allowed source)) refl h
    where
      test : EffectiveColumn → Bool
      test c = c.readable && same_folded G casefold numbered allowed c.metadata.column_name name

      at_column :
          (t : EffectiveTable) (o : Option EffectiveColumn)
          → Has t allowed.tables
          → scalar test t.columns ≡ o
          → Has b (column_provenance t o)
          → IsBase allowed b
      at_column t none m e k = elim k [ ]
      at_column t (some c) m e (inr k) = elim k [ ]
      at_column t (some c) m e (inl k) = record {
        table = t;
        column = c;
        in_schema = m;
        in_table = scalar-Has test c t.columns e;
        is_readable = ground (arith, scalar-holds test t.columns c e);
        is_provenance = k;
      }

      go :
          (o : Option EffectiveTable)
          → one_table (table_matches G casefold numbered allowed source) ≡ o
          → Has b (table_column G casefold numbered allowed o name)
          → IsBase allowed b
      go none e k = elim k [ ]
      go (some t) e k =
          at_column t (readable_column G casefold numbered allowed name t)
            (table_matches-Has source t (one_table-Has t _ e)) refl k

  abbrev pub AllSound : List OutputColumnLineage → Type 0
  AllSound outputs = (o : OutputColumnLineage) → Has o outputs → Sound allowed o

  abbrev pub SoundView : View E → Type 0
  SoundView view =
      (name : String) (zs : List BaseColumnProvenance) (b : BaseColumnProvenance)
      → source_column G casefold numbered allowed name view ≡ found zs
      → Has b zs
      → IsBase allowed b

  abbrev pub SoundViews : List (String × View E) → Type 0
  SoundViews views = (v : View E) → Has v (map (λ v. v.1) views) → SoundView v
