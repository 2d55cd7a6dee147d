-- ===== src/Results/Secrecy.antt =====
-- services/database/result_masking.py: what the returned rows depend on, and how many bytes they are.
use mathlib.Core.Path.{subst}
use tenant_intelligence_plat.Base.{
  ℕ, ◌+◌, ◌≤◌, ◌≡◌, refl, ap, String, Bool, true, false, ◌&&◌, Option, none, some, inl, inr, List,
  [], ◌∷◌, ◌==◌, str_eq, ltb, length, unique_by, Bool-cases, arith,
}
use tenant_intelligence_plat.Permissions.Models.{MaskType, redact, partial, hash, null_mask}
use tenant_intelligence_plat.Results.{
  Cell, MaskOps, ResultMasker, Row, MaskResult, unsafe_metadata, columns_mismatch, masked,
  normalize, mask, masked_cell, safe_row, same_names, add_row, mask_from, mask_rows,
}

-- masks that keep nothing of the value
abbrev pub is_hiding : Option MaskType → Bool
is_hiding none = false
is_hiding (some redact) = true
is_hiding (some null_mask) = true
is_hiding (some partial) = false
is_hiding (some hash) = false

-- Two rows have the same names, and the same values but where the plan hides them.
abbrev pub AgreeRow : List (Option MaskType) → Row → Row → Type 0
AgreeRow plan [] [] = Unit
AgreeRow [] ((n, v) ∷ r) ((m, w) ∷ s) = (n ≡ m) × (v ≡ w) × AgreeRow [] r s
AgreeRow (k ∷ plan) ((n, v) ∷ r) ((m, w) ∷ s) =
    (n ≡ m) × (is_hiding k ≡ false → v ≡ w) × AgreeRow plan r s
AgreeRow plan [] (d ∷ s) = ⊥
AgreeRow plan (c ∷ r) [] = ⊥

abbrev pub AgreeRows : List (Option MaskType) → List Row → List Row → Type 0
AgreeRows plan [] [] = Unit
AgreeRows plan (r ∷ rs) (s ∷ ss) = AgreeRow plan r s × AgreeRows plan rs ss
AgreeRows plan [] (s ∷ ss) = ⊥
AgreeRows plan (r ∷ rs) [] = ⊥

masked_injective : (a b : List Row) (t u : Bool) → masked a t ≡ masked b u → a ≡ b
masked_injective a b t u h = cc

module _ (ops : MaskOps) (masker : ResultMasker) where
  add_row-cases :
      (row : Row) (m : MaskResult) (out : List Row) (truncated : Bool)
      → add_row ops masker row m ≡ masked out truncated
      → (rows : List Row) × (m ≡ masked rows truncated) × (out ≡ row ∷ rows)
  add_row-cases row unsafe_metadata out truncated h = absurd (cc)
  add_row-cases row columns_mismatch out truncated h = absurd (cc)
  add_row-cases row (masked rows t) out truncated h = (rows, ap (masked rows) (cc), cc)

  cell-agree :
      (k : Option MaskType) (v w : Cell)
      → (is_hiding k ≡ false → v ≡ w)
      → masked_cell ops masker k (normalize ops masker v)
        ≡ masked_cell ops masker k (normalize ops masker w)
  unfolding mask
  cell-agree none v w h = ap (normalize ops masker) (h refl)
  cell-agree (some redact) v w h = refl
  cell-agree (some null_mask) v w h = refl
  cell-agree (some partial) v w h =
      ap (λ x. masked_cell ops masker (some partial) (normalize ops masker x)) (h refl)
  cell-agree (some hash) v w h =
      ap (λ x. masked_cell ops masker (some hash) (normalize ops masker x)) (h refl)

  safe_row-agree :
      (plan : List (Option MaskType)) (r s : Row)
      → AgreeRow plan r s
      → safe_row ops masker plan r ≡ safe_row ops masker plan s
  unfolding safe_row
  safe_row-agree plan [] [] h = refl
  safe_row-agree [] (c ∷ r) (d ∷ s) h = refl
  safe_row-agree (k ∷ plan) ((n, v) ∷ r) ((m, w) ∷ s) (e, q, h) =
      rw (e, cell-agree k v w q, safe_row-agree plan r s h) refl
  safe_row-agree plan [] (d ∷ s) h = absurd h
  safe_row-agree plan (c ∷ r) [] h = absurd h

  same_names-agree :
      (plan : List (Option MaskType)) (columns : List String) (r s : Row)
      → AgreeRow plan r s
      → same_names ops masker r columns ≡ same_names ops masker s columns
  same_names-agree plan [] [] [] h = refl
  same_names-agree plan (c ∷ columns) [] [] h = refl
  same_names-agree plan [] (x ∷ r) (y ∷ s) h = refl
  same_names-agree [] (c ∷ columns) ((n, v) ∷ r) ((m, w) ∷ s) (e, q, h) =
      rw (e, same_names-agree [] columns r s h) refl
  same_names-agree (k ∷ plan) (c ∷ columns) ((n, v) ∷ r) ((m, w) ∷ s) (e, q, h) =
      rw (e, same_names-agree plan columns r s h) refl
  same_names-agree plan columns [] (d ∷ s) h = absurd h
  same_names-agree plan columns (c ∷ r) [] h = absurd h

  mask_from-agree :
      (columns : List String) (plan : List (Option MaskType)) (size : ℕ) (rs ss : List Row)
      → AgreeRows plan rs ss
      → mask_from ops masker columns plan size rs ≡ mask_from ops masker columns plan size ss
  unfolding mask_from
  mask_from-agree columns plan size [] [] h = refl
  mask_from-agree columns plan size (r ∷ rs) (s ∷ ss) (h, k) =
      rw
        (
          safe_row-agree plan r s h,
          same_names-agree plan columns r s h,
          mask_from-agree columns plan
              (size + (ops.encoded_length (safe_row ops masker plan s) + 1)) rs ss k,
        )
        refl
  mask_from-agree columns plan size [] (s ∷ ss) h = absurd h
  mask_from-agree columns plan size (r ∷ rs) [] h = absurd h

  -- The returned rows, the truncation and the errors do not depend on the values of the columns
  -- that the plan redacts or replaces by null: results that agree on the names and on all other
  -- values are masked to the same.
  pub mask_rows-agree :
      (columns : List String) (plan : List (Option MaskType)) (rs ss : List Row)
      → AgreeRows plan rs ss
      → mask_rows ops masker columns rs plan ≡ mask_rows ops masker columns ss plan
  unfolding mask_rows
  mask_rows-agree columns plan rs ss h = rw (mask_from-agree columns plan 2 rs ss h) refl

  -- The bytes of rows that are joined by commas between brackets.
  abbrev pub total : List Row → ℕ
  total [] = 0
  total (r ∷ rs) = ops.encoded_length r + 1 + total rs

  mask_from-total :
      (columns : List String) (plan : List (Option MaskType)) (size : ℕ) (rs out : List Row)
      (truncated : Bool)
      → mask_from ops masker columns plan size rs ≡ masked out truncated
      → size ≤ masker.max_result_bytes + 1
      → size + total out ≤ masker.max_result_bytes + 1
  unfolding mask_from
  mask_from-total columns plan size [] out truncated h k =
      subst (λ (rows : List Row). size + total rows ≤ masker.max_result_bytes + 1)
        (masked_injective [] out false truncated h) (omega (arith, k))
  mask_from-total columns plan size (r ∷ rs) out truncated h k =
      elim (Bool-cases (same_names ops masker r columns)) [
        | inr mismatch ↦ absurd (cc (rw mismatch at h))
        | inl named ↦
            elim (Bool-cases (ltb masker.max_result_bytes (size + ops.encoded_length safe))) [
              | inl full ↦
                  subst (λ (rows : List Row). size + total rows ≤ masker.max_result_bytes + 1)
                    (masked_injective [] out true truncated (rw (named, full) at h))
                    (omega (arith, k))
              | inr fits ↦
                  let (rows, e, q) =
                    add_row-cases safe rest out truncated (rw (named, fits) at h) in
                  let bound =
                    mask_from-total columns plan (size + (ops.encoded_length safe + 1)) rs rows
                      truncated e (ground (arith, fits)) in
                  rw q (omega (arith, bound))
            ]
      ]
    where
      safe : Row
      safe = safe_row ops masker plan r

      rest : MaskResult
      rest = mask_from ops masker columns plan (size + (ops.encoded_length safe + 1)) rs

  -- The rows returned take no more bytes than the limit, which is positive: between two brackets,
  -- each row's bytes and one for the comma after it, less the last comma.
  pub mask_rows-total :
      (columns : List String) (plan : List (Option MaskType)) (rs out : List Row) (truncated : Bool)
      → 1 ≤ masker.max_result_bytes
      → mask_rows ops masker columns rs plan ≡ masked out truncated
      → 2 + total out ≤ masker.max_result_bytes + 1
  unfolding mask_rows
  mask_rows-total columns plan rs out truncated positive h =
      elim (Bool-cases (length columns == length plan && unique_by str_eq columns)) [
        | inr unsafe ↦ absurd (cc (rw unsafe at h))
        | inl safe ↦
            mask_from-total columns plan 2 rs out truncated (rw safe at h) (omega (arith, positive))
      ]
