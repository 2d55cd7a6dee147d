-- ===== src/Examples/Rows.antt =====
-- Two results that differ in a redacted column alone.
use tenant_intelligence_plat.Base.{
  ◌+◌, ◌≡◌, ◌≤◌, refl, String, true, Option, none, some, List, [], ◌∷◌, arith,
}
use tenant_intelligence_plat.Permissions.Models.{MaskType, redact}
use tenant_intelligence_plat.Results.{
  text, plain, MaskOps, ResultMasker, Row, masked, normalize, mask, safe_row, mask_from, mask_rows,
}
use tenant_intelligence_plat.Results.Secrecy.{mask_rows-agree, mask_rows-total, total}

abbrev pub mask_ops : MaskOps
mask_ops = record {
  char_count = λ s. 3;
  first_chars = λ n s. s;
  last_chars = λ n s. s;
  concat = λ a b. a;
  hmac_sha256 = λ key s. s;
  encoded_length = λ row. 20;
}

abbrev pub masker : ResultMasker
masker = record { key = "key"; max_cell_length = 10; max_result_bytes = 45 }

abbrev names_shown : List String
names_shown = "id" ∷ "email" ∷ []

abbrev plan : List (Option MaskType)
plan = none ∷ some redact ∷ []

abbrev row_with : String → Row
row_with email = ("id", plain "1") ∷ ("email", text email) ∷ []

abbrev safe : Row
safe = ("id", plain "1") ∷ ("email", text "***") ∷ []

mask_rows-agree_example :
    mask_rows mask_ops masker names_shown (row_with "ada" ∷ []) plan
    ≡ mask_rows mask_ops masker names_shown (row_with "bob" ∷ []) plan
mask_rows-agree_example =
    mask_rows-agree mask_ops masker names_shown plan (row_with "ada" ∷ []) (row_with "bob" ∷ [])
      ((refl, (λ _. refl), (refl, (λ q. absurd (cc q)), tt)), tt)

abbrev three_rows : List Row
three_rows = row_with "ada" ∷ row_with "bob" ∷ row_with "eve" ∷ []

masking : mask_rows mask_ops masker names_shown three_rows plan ≡ masked (safe ∷ safe ∷ []) true
unfolding mask_rows mask_from safe_row normalize mask
masking = refl

mask_rows-total_example : 2 + total mask_ops masker (safe ∷ safe ∷ []) ≤ 45 + 1
mask_rows-total_example =
    mask_rows-total mask_ops masker names_shown plan three_rows (safe ∷ safe ∷ []) true
      (omega arith) masking
