-- ===== src/Results.antt =====
-- services/database/result_masking.py: the rows of a query as the platform returns them. What Python
-- does to text, HMAC-SHA256 and `json.dumps` are parameters.
pub mod Secrecy
use tenant_intelligence_plat.Base.{
  ℕ, ◌+◌, String, Bool, true, false, not, ◌&&◌, ◌||◌, Option, none, some, List, [], ◌∷◌, ◌++◌, map,
  ◌==◌, str_eq, if◌then◌else◌, ltb, leb, length, any, unique_by,
}
use tenant_intelligence_plat.Permissions.Models.{MaskType, redact, partial, hash, null_mask}

pub data Cell : Type 0 where
  -- `None`, and a bool, int or float by its text
  null_cell : Cell
  plain : String → Cell
  text : String → Cell
  -- a list or dict by its text
  structure : String → Cell
  -- bytes; and any other value, dates, UUIDs and decimals included, by its text
  binary : Cell
  other : String → Cell

pub record MaskOps : Type 0 where
  pub char_count : String → ℕ
  -- `s[:n]` and `s[-n:]`
  pub first_chars : ℕ → String → String
  pub last_chars : ℕ → String → String
  pub concat : String → String → String
  -- `hmac.new(key, s.encode(), hashlib.sha256).hexdigest()`
  pub hmac_sha256 : String → String → String
  -- `len(json.dumps(row, ...).encode())`
  pub encoded_length : List (String × Cell) → ℕ

pub record ResultMasker : Type 0 where
  pub key : String
  pub max_cell_length : ℕ
  pub max_result_bytes : ℕ

-- A row by the names and the values of its columns, in their order.
abbrev pub Row : Type 0
Row = List (String × Cell)

pub data MaskResult : Type 0 where
  unsafe_metadata columns_mismatch : MaskResult
  masked : List Row → Bool → MaskResult

module _ (ops : MaskOps) (masker : ResultMasker) where
  abbrev pub shortened : String → Cell
  shortened s =
      if ltb masker.max_cell_length (ops.char_count s)
      then text (ops.concat (ops.first_chars masker.max_cell_length s) "…")
      else text s

  unfoldable pub normalize : Cell → Cell
  normalize null_cell = null_cell
  normalize (plain s) = plain s
  normalize (text s) = shortened s
  normalize (structure s) = structure s
  normalize binary = shortened "[binary removed]"
  normalize (other s) = shortened s

  -- `"" if value is None else str(value)`, of a normalized value
  abbrev pub rendered : Cell → String
  rendered null_cell = ""
  rendered (plain s) = s
  rendered (text s) = s
  rendered (structure s) = s
  rendered binary = ""
  rendered (other s) = s

  unfoldable pub mask : MaskType → Cell → Cell
  mask null_mask value = null_cell
  mask redact value = text "***"
  mask partial value =
      if leb (ops.char_count (rendered value)) 4
      then text "***"
      else text (
          ops.concat (ops.first_chars 2 (rendered value))
            (ops.concat "***" (ops.last_chars 2 (rendered value))))
  mask hash value = text (ops.concat "hmac-sha256:" (ops.hmac_sha256 masker.key (rendered value)))

  abbrev pub masked_cell : Option MaskType → Cell → Cell
  masked_cell none value = value
  masked_cell (some m) value = mask m value

  -- the row `safe`; the plan has an entry for each column where this is reached
  unfoldable pub safe_row : List (Option MaskType) → Row → Row
  safe_row plan [] = []
  safe_row [] (c ∷ row) = []
  safe_row (m ∷ plan) ((name, value) ∷ row) =
      (name, masked_cell m (normalize value)) ∷ safe_row plan row

  abbrev pub same_names : Row → List String → Bool
  same_names [] [] = true
  same_names ((name, value) ∷ row) (c ∷ columns) = str_eq name c && same_names row columns
  same_names [] (c ∷ columns) = false
  same_names (cell ∷ row) [] = false

  abbrev pub add_row : Row → MaskResult → MaskResult
  add_row row unsafe_metadata = unsafe_metadata
  add_row row columns_mismatch = columns_mismatch
  add_row row (masked rows truncated) = masked (row ∷ rows) truncated

  -- the loop, with the size of what is returned so far
  unfoldable pub mask_from : List String → List (Option MaskType) → ℕ → List Row → MaskResult
  unfolding safe_row
  mask_from columns plan size [] = masked [] false
  mask_from columns plan size (row ∷ rows) =
      let safe = safe_row plan row in
      let rest = mask_from columns plan (size + (ops.encoded_length safe + 1)) rows in
      if same_names row columns
      then (if ltb masker.max_result_bytes (size + ops.encoded_length safe)
          then masked [] true
          else add_row safe rest)
      else columns_mismatch

  unfoldable pub mask_rows : List String → List Row → List (Option MaskType) → MaskResult
  unfolding mask_from
  mask_rows columns rows plan =
      if length columns == length plan && unique_by str_eq columns
      then mask_from columns plan 2 rows
      else unsafe_metadata
