-- ===== src/Permissions/Resolver/Merge.antt =====
-- services/database/permission_resolver.py: the strongest mask of a list, and the grants behind an
-- effective column.
use tenant_intelligence_plat.Base.{
  ◌≤◌, ◌≡◌, refl, sym, ap, ◌∙◌, true, false, Option, none, some, inl, inr, List, [], ◌∷◌, arith,
  scalar, Has, Has-map, map-Has, select-Has, Has-join, join-Has, any-witness, scalar-Has,
  scalar-holds, ◌==◌,
}
use tenant_intelligence_plat.Permissions.Models.{
  MaskType, mask_strength, is_unmasked, DatabaseColumn, TablePermission, ColumnPermission,
}
use tenant_intelligence_plat.Permissions.Resolver.{
  EffectiveColumn, Grant, grant_of, explicit_grant, grants_of, stronger, strongest_from, strongest,
  readable_masks, merge_grants, column_grants, merge_columns,
}

strongest_from-ge :
    (best : Option MaskType) (ms : List (Option MaskType))
    → mask_strength best ≤ mask_strength (strongest_from best ms)
unfolding strongest_from
strongest_from-ge best [] = omega arith
strongest_from-ge best (m ∷ ms) = ground (arith, strongest_from-ge (stronger best m) ms)

strongest_from-bound :
    (best m : Option MaskType) (ms : List (Option MaskType))
    → Has m ms
    → mask_strength m ≤ mask_strength (strongest_from best ms)
unfolding strongest_from
strongest_from-bound best m [] h = elim h [ ]
strongest_from-bound best m (x ∷ ms) (inl e) =
    rw e (ground (arith, strongest_from-ge (stronger best x) ms))
strongest_from-bound best m (x ∷ ms) (inr h) = strongest_from-bound (stronger best x) m ms h

-- The strongest mask is as strong as each of them.
pub strongest-bound :
    (m : Option MaskType) (ms : List (Option MaskType))
    → Has m ms
    → mask_strength m ≤ mask_strength (strongest ms)
unfolding strongest
strongest-bound m [] h = elim h [ ]
strongest-bound m (x ∷ ms) (inl e) = rw e (strongest_from-ge x ms)
strongest-bound m (x ∷ ms) (inr h) = strongest_from-bound x m ms h

pub unmasked_of_strength : (m : Option MaskType) → 1 ≤ mask_strength m → is_unmasked m ≡ false
unmasked_of_strength none h = absurd (omega arith)
unmasked_of_strength (some m) h = refl

pub strength_of_masked : (m : Option MaskType) → is_unmasked m ≡ false → 1 ≤ mask_strength m
strength_of_masked none h = absurd (cc)
strength_of_masked (some MaskType.redact) h = omega arith
strength_of_masked (some MaskType.partial) h = omega arith
strength_of_masked (some MaskType.hash) h = omega arith
strength_of_masked (some MaskType.null_mask) h = omega arith

-- Where a grant on a sensitive column comes from: a row for that column.
sensitive_grant :
    (column : DatabaseColumn) (rows : List ColumnPermission) (g : Grant)
    → column.is_sensitive ≡ true
    → Has g (grants_of column rows)
    → (r : ColumnPermission) × Has r rows × (r.column_id ≡ column.id) × (g ≡ grant_of r)
sensitive_grant column [] g s h = absurd (ground arith)
sensitive_grant column (p ∷ ps) g s h = go (scalar (λ r. r.column_id == column.id) (p ∷ ps)) refl h
  where
    go :
        (o : Option ColumnPermission)
        → scalar (λ r. r.column_id == column.id) (p ∷ ps) ≡ o
        → Has g (explicit_grant o)
        → (r : ColumnPermission) × Has r (p ∷ ps) × (r.column_id ≡ column.id) × (g ≡ grant_of r)
    go none e k = elim k [ ]
    go (some r) e (inl k) = (
      r,
      scalar-Has (λ r. r.column_id == column.id) r (p ∷ ps) e,
      ground
          (arith, scalar-holds (λ (r : ColumnPermission). r.column_id == column.id) (p ∷ ps) r e),
      k,
    )
    go (some r) e (inr k) = elim k [ ]

module _ (metadata : List DatabaseColumn) (permissions : List TablePermission)
    (by : TablePermission → List ColumnPermission) where
  -- An effective column is a metadata column, readable if a permission grants it to be read, with a
  -- mask as strong as that of each grant that reads it.
  pub Has-merge_columns :
      (c : EffectiveColumn)
      → Has c (merge_columns metadata permissions by)
      → Has c.metadata metadata
        × (c ≡ merge_grants c.metadata (column_grants c.metadata permissions by))
  unfolding merge_columns
  Has-merge_columns c h =
      let (m, k, e) = Has-map (λ x. merge_grants x (column_grants x permissions by)) c metadata h in
      (rw e k, rw e)

  pub mask_bound :
      (c : EffectiveColumn) (p : TablePermission) (g : Grant)
      → Has c (merge_columns metadata permissions by)
      → Has p permissions
      → Has g (grants_of c.metadata (by p))
      → g.read ≡ true
      → mask_strength g.mask ≤ mask_strength c.mask_type
  mask_bound c p g h hp hg read =
      let (m, e) = Has-merge_columns c h in
      let gs = column_grants c.metadata permissions by in
      let here = join-Has (λ p. grants_of c.metadata (by p)) p g permissions hp hg in
      let mask =
        map-Has (λ (g : Grant). g.mask) g _ (select-Has (λ (g : Grant). g.read) g gs here read) in
      rw (ap (λ (x : EffectiveColumn). x.mask_type) e)
        (strongest-bound g.mask (readable_masks gs) mask)

  pub readable_grant :
      (c : EffectiveColumn)
      → Has c (merge_columns metadata permissions by)
      → c.readable ≡ true
      → (p : TablePermission) × (g : Grant) × Has p permissions
        × Has g (grants_of c.metadata (by p))
        × (g.read ≡ true)
        × (mask_strength g.mask ≤ mask_strength c.mask_type)
  readable_grant c h r =
      let (m, e) = Has-merge_columns c h in
      let (g, k, read) =
        any-witness (λ (g : Grant). g.read) (column_grants c.metadata permissions by)
          (sym (ap (λ (x : EffectiveColumn). x.readable) e) ∙ r) in
      let (p, hp, hg) = Has-join (λ p. grants_of c.metadata (by p)) g permissions k in
      (p, g, hp, hg, read, mask_bound c p g h hp hg read)

  -- A readable sensitive column has a row of a permission that reads it, with no stronger mask.
  pub sensitive_row :
      (c : EffectiveColumn)
      → Has c (merge_columns metadata permissions by)
      → c.readable ≡ true
      → c.metadata.is_sensitive ≡ true
      → (p : TablePermission) × (r : ColumnPermission) × Has p permissions
        × Has r (by p)
        × (r.column_id ≡ c.metadata.id)
        × (r.can_read ≡ true)
        × (mask_strength r.mask_type ≤ mask_strength c.mask_type)
  sensitive_row c h readable sensitive =
      let (p, g, hp, hg, read, bound) = readable_grant c h readable in
      let (r, hr, col, e) = sensitive_grant c.metadata (by p) g sensitive hg in
      (p, r, hp, hr, col, rw e at read, rw e at bound)
